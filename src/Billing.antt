-- ===== src/Billing.antt =====
-- crates/trace-billing: plans, and the licence documents that a subscription's state is turned into.
-- The child is what an issued licence is worth.
pub mod Issued
pub mod Webhook
use traceability.Base.{
  ℕ, ◌-◌, String, Bool, true, false, List, [], ◌∷◌, Option, none, some, Result, ok, err, ◌>>=◌, ltb,
  leb, ◌==◌, str_eq, if◌then◌else◌, is_empty, ℤ,
}
use traceability.Sign
use traceability.Sign.Canonical.{Signing}
use traceability.Sign.Canonical
use traceability.License.Clockguard.{Instant}
use traceability.License.Entitlement.{
  Tier, Limits, Feature, device_drivers, laser_marking, cloud_sync, multi_plant, api_access,
  remote_diagnostics, Entitlement, schema_version, day,
}

-- The texts of `WebhookSignature`.
pub data WebhookProblem : Type 0 where
  no_timestamp no_v1 no_match : WebhookProblem

pub data BillingError : Type 0 where
  webhook_signature : WebhookProblem → BillingError
  webhook_replay : (age_secs tolerance_secs : ℤ) → BillingError
  parse : (detail : String) → BillingError
  unknown_price : (price_id : String) → BillingError
  api : (status : ℕ) → (message : String) → BillingError
  transport : (detail : String) → BillingError
  signing : Sign.SignError → BillingError

pub record PlanDefinition : Type 0 where
  pub stripe_price_id : String
  pub display_name : String
  pub tier : Tier
  pub limits : Limits
  pub features : List Feature
  pub grace_days : ℕ

-- The map by price; the last plan with a price comes first.
pub record PlanCatalog : Type 0 where
  pub plans : List (String × PlanDefinition)

unfoldable pub collect :
    List (String × PlanDefinition) → List PlanDefinition → List (String × PlanDefinition)
collect plans [] = plans
collect plans (p ∷ rest) = collect ((p.stripe_price_id, p) ∷ plans) rest

unfoldable pub new : List PlanDefinition → PlanCatalog
new plans = record { plans = collect [] plans }

unfoldable pub get_plan : List (String × PlanDefinition) → String → Option PlanDefinition
get_plan [] price_id = none
get_plan ((id, plan) ∷ rest) price_id =
    if str_eq id price_id then some plan else get_plan rest price_id

abbrev pub plan_or_unknown : String → Option PlanDefinition → Result BillingError PlanDefinition
plan_or_unknown price_id none = err (unknown_price price_id)
plan_or_unknown price_id (some plan) = ok plan

unfoldable pub plan_for_price : PlanCatalog → String → Result BillingError PlanDefinition
plan_for_price catalog price_id = plan_or_unknown price_id (get_plan catalog.plans price_id)

unfoldable pub is_catalog_empty : PlanCatalog → Bool
is_catalog_empty catalog = is_empty catalog.plans

pub data SubscriptionStatus : Type 0 where
  active trialing past_due unpaid canceled incomplete paused : SubscriptionStatus

unfoldable pub is_entitled : SubscriptionStatus → Bool
is_entitled active = true
is_entitled trialing = true
is_entitled past_due = true
is_entitled _ = false

pub record SubscriptionState : Type 0 where
  pub subscription_id : String
  pub customer_id : String
  pub price_id : String
  pub status : SubscriptionStatus
  pub current_period_end : Instant
  pub cancel_at_period_end : Bool

pub record IssueRequest : Type 0 where
  pub subscription : SubscriptionState
  pub tenant_code : String
  pub customer_name : String
  pub node_id : Option String
  pub license_id : String

-- The derived order of `Feature`.
abbrev pub feature_rank : Feature → ℕ
feature_rank device_drivers = 0
feature_rank laser_marking = 1
feature_rank cloud_sync = 2
feature_rank multi_plant = 3
feature_rank api_access = 4
feature_rank remote_diagnostics = 5

unfoldable pub insert_feature : Feature → List Feature → List Feature
insert_feature f [] = f ∷ []
insert_feature f (g ∷ rest) =
    if feature_rank f == feature_rank g
    then g ∷ rest
    else if ltb (feature_rank f) (feature_rank g)
    then f ∷ g ∷ rest
    else g ∷ insert_feature f rest

-- `collect` into a `BTreeSet`
unfoldable pub feature_set : List Feature → List Feature
feature_set [] = []
feature_set (f ∷ rest) = insert_feature f (feature_set rest)

unfoldable pub expiry : SubscriptionState → Instant → Instant
expiry sub now =
    if is_entitled sub.status
    then sub.current_period_end
    else if leb sub.current_period_end now
    then sub.current_period_end
    else now

unfoldable pub entitlement_for : PlanDefinition → IssueRequest → Instant → Instant → Entitlement
entitlement_for plan req now not_before = record {
  schema = schema_version;
  license_id = req.license_id;
  tenant_code = req.tenant_code;
  node_id = req.node_id;
  tier = plan.tier;
  limits = plan.limits;
  features = feature_set plan.features;
  issued_at = now;
  not_before = not_before;
  expires_at = expiry req.subscription now;
  grace_days = plan.grace_days;
  customer_name = req.customer_name;
}

-- `now - Duration::days(1)`, which panics before the first instant that chrono represents.
unfoldable pub backdated : Instant → Option Instant
backdated now = if leb day now then some (now - day) else none

module _ {Secret Key Scalar : Type 0} (s : Signing Secret Key Entitlement Scalar) where
  abbrev pub sign_entitlement :
      Secret
      → PlanDefinition
      → IssueRequest
      → Instant
      → Option Instant
      → Result BillingError (Option Sign.Envelope)
  sign_entitlement secret plan req now none = ok none
  sign_entitlement secret plan req now (some not_before) =
      Sign.map_err signing (Canonical.sign s secret (entitlement_for plan req now not_before))
      >>= λ env. ok (some env)

  -- `EntitlementIssuer::issue`. The inner `none` is the panic.
  unfoldable pub issue :
      Secret → PlanCatalog → IssueRequest → Instant → Result BillingError (Option Sign.Envelope)
  issue secret catalog req now = plan_for_price catalog req.subscription.price_id >>= λ plan.
      sign_entitlement secret plan req now (backdated now)
