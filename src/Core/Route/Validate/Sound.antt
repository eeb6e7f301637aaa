-- ===== src/Core/Route/Validate/Sound.antt =====
-- What `Route::validate` (crates/trace-core/src/route.rs) accepts: exactly the well-formed routes.
use traceability.Base.{
  ℕ, ◌<◌, Bool, true, false, ◌||◌, List, [], ◌∷◌, Option, none, some, Result, ok, ◌≡◌, refl, ◌≢◌,
  ◌↔◌, inl, inr, arith, ◌>>◌, >>=-eq-ok, >>-eq-ok, any, is_empty, All, All-get, All-intro, Memᴰ,
  Bool-cases,
}
use traceability.Core.Error.{OperationSeq, CoreError}
use traceability.Core.Route.{RouteOperation, Route, contains}
use traceability.Core.Route.Kahn.{assert_acyclic}
use traceability.Core.Route.Kahn.Counts.{preds_of, IsDistinct}
use traceability.Core.Route.Kahn.Acyclic.{
  IsRanked, IsKnown, assert_acyclic_sound, assert_acyclic_complete,
}
use traceability.Core.Route.Validate.{
  collect_seen, check_predecessors, check_operations, check_entry, validate,
}

abbrev pub has : Option (List OperationSeq) → Bool
has none = false
has (some ps) = true

collect_seen_sound :
    (ops : List RouteOperation) (seen s : List OperationSeq)
    → collect_seen ops seen ≡ ok s
    → IsDistinct ops
      × ((k : OperationSeq) → contains seen k ≡ true → preds_of ops k ≡ none)
      × ((k : OperationSeq) → contains s k ≡ (contains seen k || has (preds_of ops k)))
unfolding collect_seen preds_of
collect_seen_sound [] seen s h = (tt, λ k e. refl, λ k. ground (arith, h))
collect_seen_sound (op ∷ ops) seen s h = elim (Bool-cases (contains seen op.seq)) [
  | inl twice ↦ absurd (ground (arith, twice, h))
  | inr new ↦
      let (distinct, fresh, total) =
        collect_seen_sound ops (op.seq ∷ seen) s (ground (arith, new, h)) in
      (
        (ground (arith, fresh op.seq), distinct),
        λ k e. ground (arith, fresh k, e, new),
        λ k. ground (arith, total k),
      )
]

collect_seen_complete :
    (ops : List RouteOperation) (seen : List OperationSeq)
    → IsDistinct ops
    → ((k : OperationSeq) → contains seen k ≡ true → preds_of ops k ≡ none)
    → (s : List OperationSeq) × (collect_seen ops seen ≡ ok s)
unfolding collect_seen preds_of
collect_seen_complete [] seen u f = (seen, refl)
collect_seen_complete (op ∷ ops) seen u f =
    let (s, e) =
      collect_seen_complete ops (op.seq ∷ seen) u.1 (λ k e. ground (arith, f k, u.0, e)) in
    (s, ground (arith, e, f op.seq))

abbrev Fits : List OperationSeq → OperationSeq → OperationSeq → Type 0
Fits seen seq p = (p ≢ seq) × (contains seen p ≡ true)

check_predecessors_iff :
    (seen : List OperationSeq) (seq : OperationSeq) (ps : List OperationSeq)
    → (check_predecessors seen seq ps ≡ ok tt) ↔ All (Fits seen seq) ps
unfolding check_predecessors
check_predecessors_iff seen seq [] = (λ h. tt, λ h. refl)
check_predecessors_iff seen seq (p ∷ ps) =
    let rest = check_predecessors_iff seen seq ps in
    (
      λ h. ((λ e. ground (arith, h, e), ground (arith, h)), rest.0 (ground (arith, h))),
      λ h. ground (arith, h.0.0, rest.1 h.1),
    )

check_operations_iff :
    (seen : List OperationSeq) (ops : List RouteOperation)
    → (check_operations seen ops ≡ ok tt) ↔ All (λ op. All (Fits seen op.seq) op.predecessors) ops
unfolding check_operations
check_operations_iff seen [] = (λ h. tt, λ h. refl)
check_operations_iff seen (op ∷ ops) =
    let here = check_predecessors_iff seen op.seq op.predecessors in
    let rest = check_operations_iff seen ops in
    (
      λ h. (here.0 (ground (arith, h)), rest.0 (ground (arith, h))),
      λ h. ground (arith, here.1 h.0, rest.1 h.1),
    )

-- A route that the engine may be handed: it has operations, at distinct positions; every predecessor
-- is one of them; some operation waits for none; and the operations have a rank by which every
-- predecessor stands below, so that there is no cycle.
pub record IsWellFormed (r : Route) : Type 0 where
  pub distinct : IsDistinct r.operations
  pub known : IsKnown r.operations r.operations
  pub entry : RouteOperation
  pub entry_mem : Memᴰ entry r.operations
  pub entry_free : entry.predecessors ≡ []
  pub rank : OperationSeq → ℕ
  pub ranked : IsRanked rank r.operations

has_entry :
    (ops : List RouteOperation)
    → any (λ o. is_empty o.predecessors) ops ≡ true
    → (op : RouteOperation) × Memᴰ op ops × (op.predecessors ≡ [])
has_entry [] h = cc
has_entry (o ∷ ops) h = elim (Bool-cases (is_empty o.predecessors)) [
  | inl free ↦ (o, Memᴰ.head refl, ground (arith, free))
  | inr not_free ↦
      let (op, m, e) = has_entry ops (ground (arith, not_free, h)) in (op, Memᴰ.tail m, e)
]

entry_found :
    {op : RouteOperation} (ops : List RouteOperation)
    → Memᴰ op ops
    → op.predecessors ≡ []
    → any (λ o. is_empty o.predecessors) ops ≡ true
entry_found [] m e = elim m [ ]
entry_found (o ∷ ops) (Memᴰ.head h) e = ground (arith, h, e)
entry_found (o ∷ ops) (Memᴰ.tail m) e = ground (arith, entry_found ops m e)

validate_parts :
    (r : Route)
    → validate r ≡ ok tt
    → (s : List OperationSeq) × (collect_seen r.operations [] ≡ ok s)
      × (check_operations s r.operations ≡ ok tt)
      × (check_entry r.operations ≡ ok tt)
      × (assert_acyclic r ≡ ok tt)
unfolding validate
validate_parts r h = elim (Bool-cases (is_empty r.operations)) [
  | inl empty ↦ absurd (ground (arith, empty, h))
  | inr some_there ↦
      let entry = check_entry r.operations in
      let checks : List OperationSeq → Result CoreError (Unit {0}) =
        λ seen. check_operations seen r.operations >> (entry >> assert_acyclic r) in
      let (s, seen, h1) = >>=-eq-ok (collect_seen r.operations []) checks (rw some_there at h) in
      let (fits, h2) = >>-eq-ok (check_operations s r.operations) (entry >> assert_acyclic r) h1 in
      let (has_one, acyclic) = >>-eq-ok entry (assert_acyclic r) h2 in
      (s, seen, fits, has_one, acyclic)
]

IsKnown-of_Fits :
    (ops : List RouteOperation) (s : List OperationSeq)
    → ((k : OperationSeq) → contains s k ≡ has (preds_of ops k))
    → All (λ op. All (Fits s op.seq) op.predecessors) ops
    → IsKnown ops ops
IsKnown-of_Fits ops s total h = All-intro _ ops λ op m. All-intro _ op.predecessors λ p mp.
    has_some (preds_of ops p)
      (ground (arith, total p, (All-get _ op.predecessors (All-get _ ops h m) mp).1))
  where
    has_some :
        (o : Option (List OperationSeq)) → has o ≡ true → (ps : List OperationSeq) × (o ≡ some ps)
    has_some none e = cc
    has_some (some ps) e = (ps, refl)

Fits-of_IsKnown :
    (ops : List RouteOperation) (s : List OperationSeq) (rank : OperationSeq → ℕ)
    → ((k : OperationSeq) → contains s k ≡ has (preds_of ops k))
    → IsKnown ops ops
    → IsRanked rank ops
    → All (λ op. All (Fits s op.seq) op.predecessors) ops
Fits-of_IsKnown ops s rank total known ranked = All-intro _ ops λ op m.
    All-intro _ op.predecessors λ p mp.
      let lower : rank p < rank op.seq = All-get _ op.predecessors (All-get _ ops ranked m) mp in
      let (ps, e) = All-get _ op.predecessors (All-get _ ops known m) mp in
      (λ same. ground (arith, lower, same), ground (arith, total p, e))

entry_test :
    (ops : List RouteOperation)
    → check_entry ops ≡ ok tt
    → any (λ o. is_empty o.predecessors) ops ≡ true
unfolding check_entry
entry_test ops h = ground (arith, h)

entry_test_of :
    (ops : List RouteOperation)
    → any (λ o. is_empty o.predecessors) ops ≡ true
    → check_entry ops ≡ ok tt
unfolding check_entry
entry_test_of ops h = rw h

not_empty : {op : RouteOperation} (ops : List RouteOperation) → Memᴰ op ops → is_empty ops ≡ false
not_empty [] m = elim m [ ]
not_empty (o ∷ ops) m = refl

validate_of_parts :
    (r : Route) (s : List OperationSeq)
    → is_empty r.operations ≡ false
    → collect_seen r.operations [] ≡ ok s
    → check_operations s r.operations ≡ ok tt
    → check_entry r.operations ≡ ok tt
    → assert_acyclic r ≡ ok tt
    → validate r ≡ ok tt
unfolding validate
validate_of_parts r s e seen fits has_one acyclic = rw (e, seen) (rw fits (rw has_one acyclic))

-- `Route::validate` accepts exactly the well-formed routes: positions are distinct, predecessors are
-- known, some operation has none, and a ranking puts each operation above its predecessors.
pub validate_iff : (r : Route) → (validate r ≡ ok tt) ↔ IsWellFormed r
validate_iff r = (sound, complete)
  where
    sound : validate r ≡ ok tt → IsWellFormed r
    sound h =
        let (s, seen, fits, has_one, acyclic) = validate_parts r h in
        let (distinct, fresh, total) = collect_seen_sound r.operations [] s seen in
        let (op, m, free) = has_entry r.operations (entry_test r.operations has_one) in
        let (rank, ranked) = assert_acyclic_sound r.operations distinct r refl acyclic in
        record {
          distinct = distinct;
          known =
              IsKnown-of_Fits r.operations s total ((check_operations_iff s r.operations).0 fits);
          entry = op;
          entry_mem = m;
          entry_free = free;
          rank = rank;
          ranked = ranked;
        }

    complete : IsWellFormed r → validate r ≡ ok tt
    complete w =
        let (s, seen) = collect_seen_complete r.operations [] w.distinct (λ k e. cc) in
        let (distinct, fresh, total) = collect_seen_sound r.operations [] s seen in
        validate_of_parts r s (not_empty r.operations w.entry_mem) seen
          ((check_operations_iff s r.operations).1
            (Fits-of_IsKnown r.operations s w.rank total w.known w.ranked))
          (entry_test_of r.operations (entry_found r.operations w.entry_mem w.entry_free))
          (assert_acyclic_complete r.operations w.distinct r w.rank refl w.ranked w.known)
