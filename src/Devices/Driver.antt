-- ===== src/Devices/Driver.antt =====
-- crates/trace-devices/src/driver.rs: what a driver is. `J` is the type `serde_json::Value`. A message
-- stands as the error it is printed from, and an instant as its number of nanoseconds.
use traceability.Base.{
  ℕ, ◌+◌, ◌*◌, String, Bool, true, false, Option, none, some, Result, ok, err, ltb, if◌then◌else◌,
}
use traceability.Core.Dcp.{Value}
use traceability.Devices.Retry.{Duration}

-- What a driver says about a connection that is not there.
pub data Detail : Type 0 where
  not_called closed simulator_offline cable_pull : Detail
  connect_timed_out : (host : String) → (port : ℕ) → Detail
  connect_failed : (host : String) → (port : ℕ) → (detail : String) → Detail
  failed : (detail : String) → Detail

pub data DeviceError : Type 0 where
  not_connected : (device : String) → (detail : Detail) → DeviceError
  timed_out : (device point : String) → (timeout_ms : ℕ) → DeviceError
  unparseable : (device raw : String) → DeviceError
  unknown_point : (device point : String) → DeviceError
  unsupported : (device kind operation : String) → DeviceError
  bad_config : (device setting : String) → DeviceError

unfoldable pub is_transient : DeviceError → Bool
is_transient (not_connected device detail) = true
is_transient (timed_out device point timeout_ms) = true
is_transient _ = false

-- A `PointRef` is its name.
abbrev pub PointRef : Type 0
PointRef = String

pub record RawSample (F : Type 0) : Type 0 where
  pub point : PointRef
  pub value : Value F
  pub raw : String
  pub recorded_at : ℕ

pub record DeviceHealth : Type 0 where
  pub connected : Bool
  pub consecutive_failures : ℕ
  pub last_success : Option ℕ
  pub last_error : Option DeviceError

-- `DeviceHealth::default()`
abbrev pub default_health : DeviceHealth
default_health = record {
  connected = false;
  consecutive_failures = 0;
  last_success = none;
  last_error = none;
}

unfoldable pub record_success : DeviceHealth → ℕ → DeviceHealth
record_success health at = record {
  connected = true;
  consecutive_failures = 0;
  last_success = some at;
  last_error = none;
}

-- `saturating_add(1)` of a `u32`
unfoldable pub record_failure : DeviceHealth → DeviceError → DeviceHealth
record_failure health problem = record {
  connected = false;
  consecutive_failures =
      (let n = health.consecutive_failures in if ltb n 4294967295 then n + 1 else n);
  last_success = health.last_success;
  last_error = some problem;
}

pub record DeviceConfig (J : Type 0) : Type 0 where
  pub code : String
  pub kind : String
  pub settings : J
  pub timeout_ms : ℕ

-- `settings.get(key).and_then(Value::as_str)`, and the same with `as_u64`.
pub record Settings (J : Type 0) : Type 0 where
  pub as_str : J → String → Option String
  pub as_u64 : J → String → Option ℕ

-- `Option::ok_or_else`
abbrev pub ok_or : {A : Type 0} → Option A → DeviceError → Result DeviceError A
ok_or none problem = err problem
ok_or (some found) problem = ok found

unfoldable pub require_str :
    {J : Type 0} → Settings J → DeviceConfig J → String → Result DeviceError String
require_str json config key = ok_or (json.as_str config.settings key) (bad_config config.code key)

-- `Duration::from_millis`
unfoldable pub timeout : {J : Type 0} → DeviceConfig J → Duration
timeout config = config.timeout_ms * 1000000

-- The trait `DeviceDriver`: `S` is the state of a driver, with that of the device behind it. The
-- number of a call is what `Utc::now` gives during it.
pub record DeviceDriver (F J S : Type 0) : Type 0 where
  pub connect : ℕ → DeviceConfig J → S → S × Result DeviceError (Unit {0})
  pub read : ℕ → PointRef → S → S × Result DeviceError (RawSample F)
  pub write : PointRef → Value F → S → S × Result DeviceError (Unit {0})
  pub health : S → DeviceHealth
