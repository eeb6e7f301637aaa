-- ===== src/Devices/Simulator.antt =====
-- crates/trace-devices/src/simulator.rs: a device that does what it was told. A map's newest entry for
-- a name comes first.
pub mod Recovery
use traceability.Base.{
  ℕ, String, Bool, true, false, not, List, [], ◌∷◌, ◌++◌, Option, none, some, Result, ok, err,
  if◌then◌else◌, str_eq,
}
use traceability.Core.Dcp.{Float64, Value, canonical}
use traceability.Devices.Driver.{
  DeviceError, not_connected, simulator_offline, cable_pull, timed_out, unparseable, unknown_point,
  PointRef, RawSample, DeviceHealth, default_health, record_success, record_failure, DeviceConfig,
  DeviceDriver,
}
use traceability.Devices.Manual.{find_value}

pub data Scripted (F : Type 0) : Type 0 where
  scripted_value : (value : Value F) → Scripted F
  scripted_raw : (value : Value F) → (raw : String) → Scripted F
  disconnect timeout : Scripted F
  garbage : (raw : String) → Scripted F

pub record SimulatedDriver (F : Type 0) : Type 0 where
  pub code : String
  pub steps : List (String × List (Scripted F))
  pub defaults : List (String × Value F)
  pub health : DeviceHealth
  pub writes : List (String × Value F)
  pub connected : Bool

module _ {F : Type 0} where
  unfoldable pub new : String → SimulatedDriver F
  new code = record {
    code = code;
    steps = [];
    defaults = [];
    health = default_health;
    writes = [];
    connected = false;
  }

  unfoldable pub with_default : SimulatedDriver F → String → Value F → SimulatedDriver F
  with_default d point value = record d { defaults = (point, value) ∷ d.defaults }

  -- `entry(point).or_default().push(step)`
  unfoldable pub push_step :
      String → Scripted F → List (String × List (Scripted F)) → List (String × List (Scripted F))
  push_step point step [] = (point, step ∷ []) ∷ []
  push_step point step ((p, queue) ∷ rest) =
      if str_eq p point
      then (p, queue ++ step ∷ []) ∷ rest
      else (p, queue) ∷ push_step point step rest

  unfoldable pub script : SimulatedDriver F → String → Scripted F → SimulatedDriver F
  script d point step = record d { steps = push_step point step d.steps }

  unfoldable pub queue_of : String → List (String × List (Scripted F)) → List (Scripted F)
  queue_of point [] = []
  queue_of point ((p, queue) ∷ rest) = if str_eq p point then queue else queue_of point rest

  -- `q.remove(0)`, where the queue is not empty.
  abbrev pub tail : List (Scripted F) → List (Scripted F)
  tail [] = []
  tail (step ∷ queue) = queue

  unfoldable pub drop_step :
      String → List (String × List (Scripted F)) → List (String × List (Scripted F))
  drop_step point [] = []
  drop_step point ((p, queue) ∷ rest) =
      if str_eq p point then (p, tail queue) ∷ rest else (p, queue) ∷ drop_step point rest

module _ {F : Type 0} (f : Float64 F) where
  abbrev sampled : ℕ → PointRef → Value F → String → RawSample F
  sampled now point value raw = record {
    point = point;
    value = value;
    raw = raw;
    recorded_at = now;
  }

  abbrev pub default_answer :
      ℕ → PointRef → String → Option (Value F) → Result DeviceError (RawSample F)
  default_answer now point code none = err (unknown_point code point)
  default_answer now point code (some value) = ok (sampled now point value (canonical f value))

  -- The answer to a read, by what stands next in the script.
  unfoldable pub scripted_answer :
      ℕ
      → PointRef
      → String
      → List (String × Value F)
      → List (Scripted F)
      → Result DeviceError (RawSample F)
  scripted_answer now point code defaults (scripted_value value ∷ queue) =
      ok (sampled now point value (canonical f value))
  scripted_answer now point code defaults (scripted_raw value raw ∷ queue) =
      ok (sampled now point value raw)
  scripted_answer now point code defaults (disconnect ∷ queue) = err (not_connected code cable_pull)
  scripted_answer now point code defaults (timeout ∷ queue) = err (timed_out code point 5000)
  scripted_answer now point code defaults (garbage raw ∷ queue) = err (unparseable code raw)
  scripted_answer now point code defaults [] =
      default_answer now point code (find_value point defaults)

  abbrev stays_connected : List (Scripted F) → Bool
  stays_connected (disconnect ∷ queue) = false
  stays_connected _ = true

  abbrev noted : DeviceHealth → Result DeviceError (RawSample F) → DeviceHealth
  noted health (ok sample) = record_success health sample.recorded_at
  noted health (err problem) = record_failure health problem

  abbrev offline : SimulatedDriver F → DeviceError
  offline d = not_connected d.code simulator_offline

  unfoldable pub read :
      ℕ → PointRef → SimulatedDriver F → SimulatedDriver F × Result DeviceError (RawSample F)
  read now point d =
      if not d.connected
      then (record d { health = record_failure d.health (offline d) }, err (offline d))
      else (let queue = queue_of point d.steps in
          let result = scripted_answer now point d.code d.defaults queue in
          (
            record {
              code = d.code;
              steps = drop_step point d.steps;
              defaults = d.defaults;
              health = noted d.health result;
              writes = d.writes;
              connected = stays_connected queue;
            },
            result,
          ))

  unfoldable pub connect :
      {J : Type 0}
      → ℕ
      → DeviceConfig J
      → SimulatedDriver F
      → SimulatedDriver F × Result DeviceError (Unit {0})
  connect now config d = (
    record d { code = config.code; connected = true; health = record_success d.health now },
    ok tt,
  )

  unfoldable pub write :
      PointRef → Value F → SimulatedDriver F → SimulatedDriver F × Result DeviceError (Unit {0})
  write point value d =
      if not d.connected
      then (d, err (offline d))
      else (record d { writes = d.writes ++ (point, value) ∷ [] }, ok tt)

  abbrev pub driver : {J : Type 0} → DeviceDriver F J (SimulatedDriver F)
  driver = record { connect = connect; read = read; write = write; health = λ d. d.health }
