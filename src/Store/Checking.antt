-- ===== src/Store/Checking.antt =====
-- What `verify_unit_chain` (crates/trace-store/src/query.rs) notices, and what it does not.
use traceability.Base.{
  ℕ, true, List, [], ◌∷◌, ◌++◌, Result, ok, err, ◌≡◌, refl, sym, ap, ◌∙◌, ◌↔◌, inl, inr, ◌==◌, map,
  length, bytes_eq, bytes_eq_refl, eq_of_bytes_eq, Bool-cases,
}
use traceability.Core.Error.{RowId}
use traceability.Core.Chain.{Bytes, ChainLink, genesis}
use traceability.Store.{
  StoreError, Tables, EventRow, NewEvent, event_links, unit_links, check_links, with_count,
  verify_unit_chain,
}

-- Each link continues the one before it.
abbrev pub IsLinked : Bytes → List ChainLink → Type 0
IsLinked prev [] = Unit {0}
IsLinked prev (link ∷ links) = (link.prev_hash ≡ prev) × IsLinked link.row_hash links

check_links_iff :
    (prev : Bytes) (links : List ChainLink) → (check_links prev links ≡ ok tt) ↔ IsLinked prev links
unfolding check_links
check_links_iff prev [] = (λ h. tt, λ h. refl)
check_links_iff prev (link ∷ links) = elim (Bool-cases (bytes_eq link.prev_hash prev)) [
  | inl same ↦
      let (to, from) = check_links_iff link.row_hash links in
      rw same (λ h. (eq_of_bytes_eq link.prev_hash prev same, to h), λ h. from h.1)
  | inr differ ↦ rw differ (
    λ h. absurd (cc h),
    λ h.
        let same : bytes_eq link.prev_hash prev ≡ true = rw h.0 (bytes_eq_refl prev) in
        absurd (cc (same, differ)),
  )
]

module _ {F Stamp : Type 0} where
  -- The check of a unit accepts exactly if the links of its rows, in order, start at the genesis hash and
  -- each continues the one before it; it then tells how many there are.
  pub verify_unit_chain_iff :
      (t : Tables F Stamp) (unit_id : RowId) (n : ℕ)
      → (verify_unit_chain t unit_id ≡ ok n)
        ↔ (IsLinked genesis (unit_links t unit_id) × (length (unit_links t unit_id) ≡ n))
  unfolding verify_unit_chain
  verify_unit_chain_iff t unit_id n =
      let links = unit_links t unit_id in
      let (to, from) = check_links_iff genesis links in
      (
        λ h. let (checked, len) = split (check_links genesis links) h in (to checked, len),
        λ (linked, len). rw (from linked, len) refl,
      )
    where
      split :
          (checked : Result StoreError (Unit {0}))
          → with_count (length (unit_links t unit_id)) checked ≡ ok n
          → (checked ≡ ok tt) × (length (unit_links t unit_id) ≡ n)
      split (ok done) h = (refl, cc h)
      split (err problem) h = absurd (cc h)

module _ {Stamp : Type 0} where
  -- A row with other contents and the same columns of the chain.
  abbrev pub altered : (EventRow Stamp → NewEvent Stamp) → EventRow Stamp → EventRow Stamp
  altered edit r = record r { new = edit r }

  links-map :
      (unit_id : RowId) (edit : EventRow Stamp → NewEvent Stamp) (rows : List (EventRow Stamp))
      → ((r : EventRow Stamp) → (edit r).unit_id ≡ r.new.unit_id)
      → event_links unit_id (map (altered edit) rows) ≡ event_links unit_id rows
  links-map unit_id edit [] keeps = refl
  links-map unit_id edit (r ∷ rows) keeps = elim (Bool-cases (r.new.unit_id == unit_id)) [
    | inl mine ↦ rw (keeps r, mine) (ap (◌∷◌ r.link) (links-map unit_id edit rows keeps))
    | inr other ↦ rw (keeps r, other) (links-map unit_id edit rows keeps)
  ]

module _ {F Stamp : Type 0} where
  -- However the contents of the events are altered, as long as each stays with its unit and keeps the
  -- hashes stored beside it, the check of every unit answers as before.
  pub verify_unit_chain-contents_blind :
      (t : Tables F Stamp) (unit_id : RowId) (edit : EventRow Stamp → NewEvent Stamp)
      → ((r : EventRow Stamp) → (edit r).unit_id ≡ r.new.unit_id)
      → verify_unit_chain (record t { events = map (altered edit) t.events }) unit_id
        ≡ verify_unit_chain t unit_id
  unfolding verify_unit_chain unit_links
  verify_unit_chain-contents_blind t unit_id edit keeps =
      rw (links-map unit_id edit t.events keeps) refl

-- Where a chain and what is left of it without one inner link are both accepted, the hash of that link
-- is the hash that it continues.
pub check_links-deletion :
    (before behind : List ChainLink) (gone next : ChainLink) (prev : Bytes)
    → check_links prev (before ++ gone ∷ next ∷ behind) ≡ ok tt
    → check_links prev (before ++ next ∷ behind) ≡ ok tt
    → gone.row_hash ≡ gone.prev_hash
check_links-deletion before behind gone next prev whole cut =
    deleted before prev ((check_links_iff prev (before ++ gone ∷ next ∷ behind)).0 whole)
      ((check_links_iff prev (before ++ next ∷ behind)).0 cut)
  where
    deleted :
        (before : List ChainLink) (prev : Bytes)
        → IsLinked prev (before ++ gone ∷ next ∷ behind)
        → IsLinked prev (before ++ next ∷ behind)
        → gone.row_hash ≡ gone.prev_hash
    deleted [] prev (at, (after, rest)) (here, rest') = sym after ∙ here ∙ sym at
    deleted (x ∷ before) prev (at, rest) (at', rest') = deleted before x.row_hash rest rest'
