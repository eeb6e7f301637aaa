-- ===== src/License/Entitlement.antt =====
-- crates/trace-license/src/entitlement.rs: what a customer has paid for, checked and evaluated at an
-- instant. A message that the code formats stands as its template with the values put into it; a
-- `DateTime` beyond chrono's range makes `+` panic, which is `none` here.
use traceability.Base.{
  ℕ, ◌+◌, ◌-◌, ◌*◌, ◌/◌, String, Bool, true, false, List, Option, none, some, Result, ok, err,
  ◌>>=◌, ltb, leb, str_eq, if◌then◌else◌, any, ℤ, pos, neg,
}
use traceability.Sign
use traceability.License.Clockguard.{Instant, nanos}

abbrev pub day : ℕ
day = 86400 * nanos

pub data LicenseError : Type 0 where
  signature : Sign.SignError → LicenseError
  wrong_node : (expected actual : String) → LicenseError
  unsupported_schema : (found supported : ℕ) → LicenseError

abbrev pub schema_version : ℕ
schema_version = 1

pub data Tier : Type 0 where
  starter professional enterprise : Tier

pub data Feature : Type 0 where
  device_drivers laser_marking cloud_sync multi_plant api_access remote_diagnostics : Feature

-- The derived equality of `Feature`.
unfoldable pub same_feature : Feature → Feature → Bool
same_feature device_drivers device_drivers = true
same_feature laser_marking laser_marking = true
same_feature cloud_sync cloud_sync = true
same_feature multi_plant multi_plant = true
same_feature api_access api_access = true
same_feature remote_diagnostics remote_diagnostics = true
same_feature _ _ = false

pub record Limits : Type 0 where
  pub max_stations : ℕ
  pub max_plants : ℕ
  pub max_users : ℕ

abbrev pub default_limits : Limits
default_limits = record { max_stations = 3; max_plants = 1; max_users = 10 }

pub record Entitlement : Type 0 where
  pub schema : ℕ
  pub license_id : String
  pub tenant_code : String
  pub node_id : Option String
  pub tier : Tier
  pub limits : Limits
  pub features : List Feature
  pub issued_at : Instant
  pub not_before : Instant
  pub expires_at : Instant
  pub grace_days : ℕ
  pub customer_name : String

pub data Enforcement : Type 0 where
  full grace restricted : Enforcement

unfoldable pub allows_production : Enforcement → Bool
allows_production e = true

unfoldable pub allows_configuration_change : Enforcement → Bool
allows_configuration_change full = true
allows_configuration_change grace = true
allows_configuration_change restricted = false

unfoldable pub allows_cloud_sync : Enforcement → Bool
allows_cloud_sync full = true
allows_cloud_sync grace = true
allows_cloud_sync restricted = false

unfoldable pub should_warn : Enforcement → Bool
should_warn full = false
should_warn grace = true
should_warn restricted = true

-- The texts of `summary`. A date is the number of its day.
pub data Summary : Type 0 where
  no_licence : Summary
  not_valid_until : (date : ℕ) → Summary
  licence_valid_to : Tier → String → (date : ℕ) → Summary
  expired_in_grace : (expired ends : ℕ) → Summary
  grace_ended : (expired ended : ℕ) → Summary

pub record LicenseStatus : Type 0 where
  pub entitlement : Option Entitlement
  pub enforcement : Enforcement
  pub summary : Summary
  pub days_to_expiry : Option ℤ

unfoldable pub unlicensed : LicenseStatus
unlicensed = record {
  entitlement = none;
  enforcement = restricted;
  summary = no_licence;
  days_to_expiry = none;
}

abbrev pub is_restricted : Enforcement → Bool
is_restricted restricted = true
is_restricted _ = false

abbrev pub unlocks : Option Entitlement → Feature → Bool
unlocks none f = false
unlocks (some e) f = any (same_feature f) e.features

unfoldable pub has_feature : LicenseStatus → Feature → Bool
has_feature s f = if is_restricted s.enforcement then false else unlocks s.entitlement f

abbrev station_cap : Option Entitlement → Option ℕ
station_cap none = none
station_cap (some e) = some e.limits.max_stations

unfoldable pub max_stations : LicenseStatus → Option ℕ
max_stations s = station_cap s.entitlement

abbrev pub date_naive : Instant → ℕ
date_naive t = t / day

-- `(a - b).num_days()`, rounded towards zero.
unfoldable pub num_days : Instant → Instant → ℤ
num_days a b = if leb b a then pos ((a - b) / day) else neg ((b - a) / day)

-- `self.expires_at + Duration::days(…)`; `max_utc` is the last instant that chrono represents.
unfoldable pub grace_end : ℕ → Entitlement → Option Instant
grace_end max_utc e =
    let t = e.expires_at + e.grace_days * day in if leb t max_utc then some t else none

unfoldable pub enforcement_at : Entitlement → Instant → Instant → Enforcement
enforcement_at e ends now =
    if ltb now e.not_before
    then restricted
    else (if leb now e.expires_at then full else (if leb now ends then grace else restricted))

unfoldable pub summary_at : Entitlement → Instant → Instant → Summary
summary_at e ends now =
    if ltb now e.not_before
    then not_valid_until (date_naive e.not_before)
    else (if leb now e.expires_at
        then licence_valid_to e.tier e.customer_name (date_naive e.expires_at)
        else (if leb now ends
            then expired_in_grace (date_naive e.expires_at) (date_naive ends)
            else grace_ended (date_naive e.expires_at) (date_naive ends)))

unfoldable pub status_at : Entitlement → Instant → Option Instant → Option LicenseStatus
status_at e now none = none
status_at e now (some ends) = some record {
  entitlement = some e;
  enforcement = enforcement_at e ends now;
  summary = summary_at e ends now;
  days_to_expiry = some (num_days e.expires_at now);
}

unfoldable pub evaluate : ℕ → Entitlement → Instant → Option LicenseStatus
evaluate max_utc e now = status_at e now (grace_end max_utc e)

-- `if let Some(locked) = &ent.node_id && locked != node_id`
unfoldable pub check_node : Option String → String → Result LicenseError (Unit {0})
check_node none actual = ok tt
check_node (some locked) actual =
    if str_eq locked actual then ok tt else err (wrong_node locked actual)

unfoldable pub check_schema : ℕ → Result LicenseError (Unit {0})
check_schema found =
    if ltb schema_version found then err (unsupported_schema found schema_version) else ok tt

-- `Entitlement::verify`. The inner `none` is the panic in `evaluate`.
unfoldable pub verify :
    {Key : Type 0}
    → ℕ
    → Sign.Crates Key Entitlement
    → Sign.Envelope
    → Key
    → String
    → Instant
    → Result LicenseError (Option LicenseStatus)
verify max_utc c envelope key node now =
    Sign.map_err signature (Sign.verify c key envelope) >>= λ ent. check_schema ent.schema >>= λ _.
    check_node ent.node_id node >>= λ _. ok (evaluate max_utc ent now)
