-- ===== src/Devices/Manual.antt =====
-- crates/trace-devices/src/manual.rs: the driver whose readings an operator types. The channel is the
-- queue of what was submitted and not drained; a map's newest entry for a name comes first.
pub mod Entries
use traceability.Base.{
  ℕ, String, Bool, true, false, not, List, [], ◌∷◌, ◌++◌, Option, none, some, Result, ok, err,
  if◌then◌else◌, filter, str_eq,
}
use traceability.Core.Dcp.{Float64, Value, canonical}
use traceability.Devices.Driver.{
  DeviceError, timed_out, unsupported, PointRef, RawSample, DeviceHealth, default_health,
  record_success, DeviceConfig, DeviceDriver,
}

module _ {F : Type 0} where
  unfoldable pub find_value : String → List (String × Value F) → Option (Value F)
  find_value point [] = none
  find_value point ((p, value) ∷ rest) =
      if str_eq p point then some value else find_value point rest

  -- `HashMap::remove`, without the value.
  unfoldable pub without : String → List (String × Value F) → List (String × Value F)
  without point pending = filter (λ e. not (str_eq e.0 point)) pending

pub record ManualDriver (F : Type 0) : Type 0 where
  pub code : String
  pub health : DeviceHealth
  pub pending : List (String × Value F)
  pub rx : List (String × Value F)

module _ {F : Type 0} where
  unfoldable pub new : String → ManualDriver F
  new code = record { code = code; health = default_health; pending = []; rx = [] }

  -- `ManualInput::submit`: `none` is a driver that has been dropped.
  unfoldable pub submit :
      Option (ManualDriver F) → String → Value F → Option (ManualDriver F) × Bool
  submit none point value = (none, false)
  submit (some d) point value = (some (record d { rx = d.rx ++ (point, value) ∷ [] }), true)

  -- The loop of `drain`.
  unfoldable pub drain_into :
      List (String × Value F) → List (String × Value F) → List (String × Value F)
  drain_into pending [] = pending
  drain_into pending (entry ∷ rest) = drain_into (entry ∷ pending) rest

  unfoldable pub drain : ManualDriver F → ManualDriver F
  drain d = record d { pending = drain_into d.pending d.rx; rx = [] }

module _ {F : Type 0} (f : Float64 F) where
  unfoldable pub read_pending :
      ℕ
      → PointRef
      → ManualDriver F
      → Option (Value F)
      → ManualDriver F × Result DeviceError (RawSample F)
  read_pending now point d (some value) = (
    record d { pending = without point d.pending; health = record_success d.health now },
    ok (record { point = point; value = value; raw = canonical f value; recorded_at = now }),
  )
  read_pending now point d none = (d, err (timed_out d.code point 0))

  unfoldable pub read :
      ℕ → PointRef → ManualDriver F → ManualDriver F × Result DeviceError (RawSample F)
  read now point d = let d' = drain d in read_pending now point d' (find_value point d'.pending)

  abbrev pub driver : {J : Type 0} → DeviceDriver F J (ManualDriver F)
  driver = record {
    connect = λ now config d. (record d { health = record_success d.health now }, ok tt);
    read = read;
    write = λ point value d. (d, err (unsupported d.code "MANUAL" "write"));
    health = λ d. d.health;
  }
