-- ===== src/License/Expiry.antt =====
-- What a licence allows and when (`Entitlement::evaluate` and `verify`, crates/trace-license/src/entitlement.rs),
-- also under a clock that is wound back (clockguard.rs).
use traceability.Base.{
  ℕ, suc, ◌+◌, ◌*◌, ◌≤◌, ◌<◌, String, false, Option, none, some, ok, >>=-eq-ok, ◌≡◌, refl, sym, ◌↔◌,
  ◌⊎◌, inl, inr, arith, leb, leb→le, str_eq, str_eq_iff, Bool-cases, pos,
}
use traceability.Sign
use traceability.Sign.Envelopes.{map_err-eq-ok}
use traceability.License.Clockguard.{
  Instant, nanos, ClockGuard, observe, observe-used_bound, observe-mark_le,
}
use traceability.License.Entitlement.{
  Entitlement, signature, full, grace, restricted, LicenseStatus, Feature, has_feature,
  schema_version, day, grace_end, enforcement_at, status_at, evaluate, check_node, check_schema,
  verify,
}

-- The last instant of the grace period.
abbrev pub grace_ends : Entitlement → Instant
grace_ends e = e.expires_at + e.grace_days * day

evaluate-some :
    (max_utc : ℕ) (e : Entitlement) (now : Instant) (s : LicenseStatus)
    → evaluate max_utc e now ≡ some s
    → (s.enforcement ≡ enforcement_at e (grace_ends e) now)
      × (s.entitlement ≡ some e)
      × (grace_ends e ≤ max_utc)
unfolding evaluate status_at grace_end
evaluate-some max_utc e now s h = elim (Bool-cases (leb (grace_ends e) max_utc)) [
  | inl fits ↦
      (ground (arith, fits, h), ground (arith, fits, h), leb→le (grace_ends e) max_utc fits)
  | inr over ↦ absurd (ground (arith, over, h))
]

-- Where evaluation gives a status, its level of enforcement is full exactly within the term, grace
-- exactly after it up to the end of the grace period, and restricted exactly before the term or after
-- the grace period.
pub evaluate-enforcement_iff :
    (max_utc : ℕ) (e : Entitlement) (now : Instant) (s : LicenseStatus)
    → evaluate max_utc e now ≡ some s
    → ((s.enforcement ≡ full) ↔ ((e.not_before ≤ now) × (now ≤ e.expires_at)))
      × ((s.enforcement ≡ grace)
          ↔ ((e.not_before ≤ now) × (e.expires_at < now) × (now ≤ grace_ends e)))
      × ((s.enforcement ≡ restricted)
          ↔ ((now < e.not_before) ⊎ ((e.expires_at < now) × (grace_ends e < now))))
unfolding enforcement_at
evaluate-enforcement_iff max_utc e now s h =
    let at = (evaluate-some max_utc e now s h).0 in
    (
      (λ f. ground (arith, at, f), λ f. ground (arith, at, f)),
      (λ f. ground (arith, at, f), λ f. ground (arith, at, f)),
      (λ f. ground (arith, at, f), λ f. ground (arith, at, f)),
    )

-- Evaluation panics exactly if the end of the grace period lies beyond the instants that chrono
-- represents.
evaluate-panics_iff :
    (max_utc : ℕ) (e : Entitlement) (now : Instant)
    → (evaluate max_utc e now ≡ none) ↔ (max_utc < grace_ends e)
unfolding evaluate status_at grace_end
evaluate-panics_iff max_utc e now = elim (Bool-cases (leb (grace_ends e) max_utc)) [
  | inl fits ↦ (λ h. absurd (ground (arith, fits, h)), λ l. absurd (ground (arith, fits, l)))
  | inr over ↦ (λ h. ground (arith, over), λ l. ground (arith, over))
]

-- Once the mark of a clock guard whose tolerance is not negative has passed the end of the grace period
-- by the tolerance and a second, then whatever the clock reports, an evaluation at the instant that the
-- guard gives is restricted, and no feature is available.
pub observe-no_revival :
    (max_utc : ℕ) (e : Entitlement) (g : ClockGuard) (tolerance : ℕ) (reported : Instant)
    (s : LicenseStatus) (f : Feature)
    → g.tolerance_secs ≡ pos tolerance
    → grace_ends e + suc tolerance * nanos ≤ g.high_water
    → evaluate max_utc e (observe g reported).used ≡ some s
    → (s.enforcement ≡ restricted) × (has_feature s f ≡ false)
unfolding has_feature
observe-no_revival max_utc e g tolerance reported s f t past h =
    let late : grace_ends e < (observe g reported).used =
      omega (arith, observe-used_bound g tolerance reported t, observe-mark_le g reported, past) in
    let over : s.enforcement ≡ restricted =
      (evaluate-enforcement_iff max_utc e (observe g reported).used s h).2.1
        (inr (omega (arith, late), late)) in
    (over, rw over refl)

check_schema-eq-ok : (n : ℕ) (u : Unit {0}) → (check_schema n ≡ ok u) ↔ (n ≤ schema_version)
unfolding check_schema
check_schema-eq-ok n u = (λ h. ground (arith, h), λ h. ground (arith, h))

-- A licence may be used on a node if it is not locked, or is locked to that node.
pub data MayUse : Option String → String → Type 0 where
  unlocked : {node : String} → MayUse none node
  locked : {node : String} → MayUse (some node) node

MayUse-ok : {lock : Option String} {node : String} → MayUse lock node → check_node lock node ≡ ok tt
unfolding check_node
MayUse-ok unlocked = refl
MayUse-ok (locked {node}) = rw ((str_eq_iff node node).1 refl) refl

check_node-ok :
    (lock : Option String) (node : String) (u : Unit {0})
    → check_node lock node ≡ ok u
    → MayUse lock node
unfolding check_node
check_node-ok none node u h = unlocked
check_node-ok (some lock) node u h = elim (Bool-cases (str_eq lock node)) [
  | inl same ↦ rw ((str_eq_iff lock node).0 same) locked
  | inr other ↦ absurd (ground (arith, other, h))
]

-- An envelope is accepted exactly if its signature verifies and covers an entitlement of a schema this
-- build supports, unlocked or locked to this very node; the result is that entitlement's evaluation at
-- this instant.
pub licence_verify_iff :
    {Key : Type 0} (max_utc : ℕ) (c : Sign.Crates Key Entitlement) (envelope : Sign.Envelope)
    (key : Key) (node : String) (now : Instant) (result : Option LicenseStatus)
    → (verify max_utc c envelope key node now ≡ ok result) ↔ (
        (ent : Entitlement) × (Sign.verify c key envelope ≡ ok ent)
        × (ent.schema ≤ schema_version)
        × MayUse ent.node_id node
        × (result ≡ evaluate max_utc ent now))
unfolding verify
licence_verify_iff max_utc c envelope key node now result = (to, from)
  where
    to :
        verify max_utc c envelope key node now ≡ ok result
        → (ent : Entitlement) × (Sign.verify c key envelope ≡ ok ent)
          × (ent.schema ≤ schema_version)
          × MayUse ent.node_id node
          × (result ≡ evaluate max_utc ent now)
    to h =
        let (ent, v, h1) = >>=-eq-ok (Sign.map_err signature (Sign.verify c key envelope)) _ h in
        let (u, k, h2) = >>=-eq-ok (check_schema ent.schema) _ h1 in
        let (w, m, h3) = >>=-eq-ok (check_node ent.node_id node) _ h2 in
        (
          ent,
          (map_err-eq-ok signature (Sign.verify c key envelope)).0 v,
          (check_schema-eq-ok ent.schema u).0 k,
          check_node-ok ent.node_id node w m,
          cc,
        )

    from :
        ((ent : Entitlement) × (Sign.verify c key envelope ≡ ok ent)
          × (ent.schema ≤ schema_version)
          × MayUse ent.node_id node
          × (result ≡ evaluate max_utc ent now))
        → verify max_utc c envelope key node now ≡ ok result
    from (ent, v, k, m, r) =
        rw
          (
            (map_err-eq-ok signature (Sign.verify c key envelope)).1 v,
            (check_schema-eq-ok ent.schema tt).1 k,
            MayUse-ok m,
            r,
          )
          refl

-- Verifying a licence panics exactly if its document is signed by the key, of a schema this build
-- supports and for this node, and the end of its grace period lies beyond the instants that chrono
-- represents.
pub licence_verify-panics_iff :
    {Key : Type 0} (max_utc : ℕ) (c : Sign.Crates Key Entitlement) (envelope : Sign.Envelope)
    (key : Key) (node : String) (now : Instant)
    → (verify max_utc c envelope key node now ≡ ok none) ↔ (
        (ent : Entitlement) × (Sign.verify c key envelope ≡ ok ent)
        × (ent.schema ≤ schema_version)
        × MayUse ent.node_id node
        × (max_utc < grace_ends ent))
licence_verify-panics_iff max_utc c envelope key node now =
    let (to, from) = licence_verify_iff max_utc c envelope key node now none in
    (
      λ h.
          let (ent, v, k, m, r) = to h in
          (ent, v, k, m, (evaluate-panics_iff max_utc ent now).0 (sym r)),
      λ (ent, v, k, m, late).
          from (ent, v, k, m, sym ((evaluate-panics_iff max_utc ent now).1 late)),
    )
