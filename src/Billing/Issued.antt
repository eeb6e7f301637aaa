-- ===== src/Billing/Issued.antt =====
-- What a licence that is issued (crates/trace-billing/src/issue.rs) is worth on the box that verifies it
-- (crates/trace-license/src/entitlement.rs).
use traceability.Base.{
  ℕ, ◌+◌, ◌-◌, ◌≤◌, String, true, false, Option, none, some, Result, ok, >>=-eq-ok, ok_inj, ◌≡◌,
  ◌↔◌, ◌⊎◌, refl, sym, ap, ◌∙◌, inl, inr, arith, leb, leb→le, Bool-cases,
}
use traceability.Sign
use traceability.Sign.Envelopes.{map_err-eq-ok}
use traceability.Sign.Canonical.{Signing}
use traceability.Sign.Canonical
use traceability.Sign.Issuing.{IsMatching, IsReadBack, sign-verify}
use traceability.License.Clockguard.{Instant}
use traceability.License.Entitlement.{
  Entitlement, LicenseStatus, full, restricted, schema_version, day, evaluate,
}
use traceability.License.Entitlement
use traceability.License.Expiry.{MayUse, evaluate-enforcement_iff, licence_verify_iff}
use traceability.Billing.{
  BillingError, PlanDefinition, PlanCatalog, SubscriptionState, IssueRequest, signing, is_entitled,
  plan_for_price, expiry, entitlement_for, backdated, sign_entitlement, issue,
}

inner :
    {e env : Sign.Envelope}
    → ◌≡◌ {A = Result BillingError (Option Sign.Envelope)} (ok (some e)) (ok (some env))
    → e ≡ env
inner h = cc

backdated-some : (now t : Instant) → backdated now ≡ some t → (day ≤ now) × (t ≡ now - day)
unfolding backdated
backdated-some now t h = elim (Bool-cases (leb day now)) [
  | inl after ↦ (leb→le day now after, ground (arith, after, h))
  | inr before ↦ absurd (ground (arith, before, h))
]

-- A document expires at the end of what was paid for, and one without a standing subscription no later
-- than it is issued.
expiry_cases :
    (sub : SubscriptionState) (now : Instant)
    → ((is_entitled sub.status ≡ true) × (expiry sub now ≡ sub.current_period_end))
      ⊎ ((is_entitled sub.status ≡ false)
          × (expiry sub now ≤ sub.current_period_end)
          × (expiry sub now ≤ now))
unfolding expiry
expiry_cases sub now = elim (Bool-cases (is_entitled sub.status)) [
  | inl paid ↦ inl (paid, rw paid refl)
  | inr lapsed ↦ inr (lapsed, rw lapsed (ground arith), rw lapsed (ground arith))
]

module _ {Secret Key Scalar : Type 0} (s : Signing Secret Key Entitlement Scalar)
    (c : Sign.Crates Key Entitlement) (matching : IsMatching s c) where
  sign_entitlement-ok :
      (secret : Secret) (plan : PlanDefinition) (req : IssueRequest) (now : Instant)
      (start : Option Instant) (env : Sign.Envelope)
      → sign_entitlement s secret plan req now start ≡ ok (some env)
      → (not_before : Instant) × (start ≡ some not_before)
        × (Canonical.sign s secret (entitlement_for plan req now not_before) ≡ ok env)
  sign_entitlement-ok secret plan req now none env h = cc
  sign_entitlement-ok secret plan req now (some not_before) env h =
      let (e, signed, same) =
        >>=-eq-ok
          (Sign.map_err signing (Canonical.sign s secret (entitlement_for plan req now not_before)))
          _ h in
      (not_before, refl, (map_err-eq-ok signing _).0 signed ∙ ap ok (inner same))

  -- A licence that is issued is accepted on every box that it is for, as the entitlement that the plan of
  -- the subscription's price describes.
  issue-verify :
      (max_utc : ℕ) (secret : Secret) (catalog : PlanCatalog) (req : IssueRequest) (now t : Instant)
      (env : Sign.Envelope) (node : String)
      → ((plan : PlanDefinition)
          → plan_for_price catalog req.subscription.price_id ≡ ok plan
          → IsReadBack s c (entitlement_for plan req now (now - day)))
      → issue s secret catalog req now ≡ ok (some env)
      → MayUse req.node_id node
      → (plan : PlanDefinition) × (plan_for_price catalog req.subscription.price_id ≡ ok plan)
        × (day ≤ now)
        × (Entitlement.verify max_utc c env (s.verifying_key secret) node t
            ≡ ok (evaluate max_utc (entitlement_for plan req now (now - day)) t))
  unfolding issue entitlement_for
  issue-verify max_utc secret catalog req now t env node reads h may =
      let (plan, p, h1) = >>=-eq-ok (plan_for_price catalog req.subscription.price_id) _ h in
      let (start, b, signed) = sign_entitlement-ok secret plan req now (backdated now) env h1 in
      let (enough, e) = backdated-some now start b in
      let ent = entitlement_for plan req now start in
      let known = sign-verify s c matching secret ent env (rw (sym e) at (reads plan p)) signed in
      (
        plan,
        p,
        enough,
        rw (sym e) (
            (licence_verify_iff max_utc c env (s.verifying_key secret) node t
                (evaluate max_utc ent t)).1
              (ent, known, omega arith, may, refl)),
      )

  -- On a box that it is for, a licence that is issued gives the full set of rights exactly from a day
  -- before it was issued to its expiry. That is the end of the paid period for a standing subscription,
  -- and for any other no later than the end of the paid period and the time of issue.
  pub issue-enforcement_iff :
      (max_utc : ℕ) (secret : Secret) (catalog : PlanCatalog) (req : IssueRequest) (now t : Instant)
      (env : Sign.Envelope) (node : String) (status : LicenseStatus)
      → ((plan : PlanDefinition)
          → plan_for_price catalog req.subscription.price_id ≡ ok plan
          → IsReadBack s c (entitlement_for plan req now (now - day)))
      → issue s secret catalog req now ≡ ok (some env)
      → MayUse req.node_id node
      → Entitlement.verify max_utc c env (s.verifying_key secret) node t ≡ ok (some status)
      → ((status.enforcement ≡ full) ↔ ((now ≤ t + day) × (t ≤ expiry req.subscription now)))
        × (((is_entitled req.subscription.status ≡ true)
              × (expiry req.subscription now ≡ req.subscription.current_period_end))
            ⊎ ((is_entitled req.subscription.status ≡ false)
                × (expiry req.subscription now ≤ req.subscription.current_period_end)
                × (expiry req.subscription now ≤ now)))
  unfolding entitlement_for
  issue-enforcement_iff max_utc secret catalog req now t env node status reads h may v =
      let (plan, p, enough, known) =
        issue-verify max_utc secret catalog req now t env node reads h may in
      let ent = entitlement_for plan req now (now - day) in
      let at = (evaluate-enforcement_iff max_utc ent t status (ok_inj (sym known ∙ v))).0 in
      let ends = expiry_cases req.subscription now in
      (
        (
          λ full_now. let (a, b) = at.0 full_now in (omega arith, b),
          λ (a, b). at.1 (omega arith, b),
        ),
        ends,
      )
