-- ===== src/Samples/Drivers.antt =====
-- Examples for the drivers and their registry.
use traceability.Base.{
  ℕ, true, false, List, [], ◌∷◌, Option, none, some, ok, ◌≡◌, ◌↔◌, refl, leb, bytes_eq,
  if◌then◌else◌,
}
use traceability.Core.Dcp.{Float64, numeric}
use traceability.Devices.Driver.{DeviceConfig, RawSample, DeviceError, bad_config}
use traceability.Devices.Registry
use traceability.Devices.Registry.{
  Entry, DeviceRegistry, Clock, insert, insert_at, get_entry, connect_all,
}
use traceability.Devices.Registry.Reading.{HasRead, read-ok_iff}
use traceability.Devices.Manual
use traceability.Devices.Manual.{ManualDriver}
use traceability.Devices.Manual.Entries.{
  submitting, reading, view, run_driver, run_table, run_driver-refines,
}
use traceability.Devices.Simulator.{SimulatedDriver, scripted_value, disconnect, queue_of, driver}
use traceability.Devices.Line.{Reader, parse_line}
use traceability.Devices.Line.Signs.{parse_line-sign_blind}

abbrev floats : Float64 ℕ
floats = record { le = leb; is_nan = λ n. false; debug_text = λ n. "n" }

abbrev config : DeviceConfig ℕ
config = record { code = "TORQUE-1"; kind = "SIMULATED"; settings = 0; timeout_ms = 50 }

-- Connected, and its cable is pulled at the next read.
abbrev device : SimulatedDriver ℕ
device = record {
  code = "TORQUE-1";
  steps = ("t", disconnect ∷ scripted_value (numeric 12) ∷ []) ∷ [];
  defaults = [];
  health = record {
    connected = true;
    consecutive_failures = 0;
    last_success = some 1;
    last_error = none;
  };
  writes = [];
  connected = true;
}

abbrev entry : Entry ℕ (SimulatedDriver ℕ)
entry = record {
  driver = device;
  config = config;
  backoff = record { initial = 1; max_delay = 10; factor = 2; attempt = 0 };
}

abbrev devices : DeviceRegistry ℕ (SimulatedDriver ℕ)
devices = ("TORQUE-1", entry) ∷ []

abbrev clock : Clock
clock = record { first = 5; connecting = 6; second = 7; seed = 3 }

abbrev sample : RawSample ℕ
sample = record { point = "t"; value = numeric 12; raw = "n"; recorded_at = 7 }

found : get_entry "TORQUE-1" devices ≡ some entry
unfolding get_entry
found = refl

next : queue_of "t" device.steps ≡ disconnect ∷ scripted_value (numeric 12) ∷ []
unfolding queue_of
next = refl

read-ok_iff_example :
    ((Registry.read (driver floats) clock devices "TORQUE-1" "t").1 ≡ ok sample) ↔ (
      (e : Entry ℕ (SimulatedDriver ℕ)) × (get_entry "TORQUE-1" devices ≡ some e)
      × HasRead (driver floats) clock "t" e sample)
read-ok_iff_example = read-ok_iff (driver floats) clock "t" devices "TORQUE-1" sample

abbrev refusal : DeviceError
refusal = bad_config "TORQUE-1" "host"

abbrev keyed : ManualDriver ℕ
keyed = Manual.new "ST-01"

run_driver-refines_example :
    run_driver floats keyed
      (submitting "t" (numeric 1) ∷ submitting "t" (numeric 2) ∷ reading 5 "t" ∷ reading 6 "t" ∷ [])
    ≡ run_table floats keyed.code (view keyed) (
        submitting "t" (numeric 1)
        ∷ submitting "t" (numeric 2)
        ∷ reading 5 "t"
        ∷ reading 6 "t"
        ∷ [])
run_driver-refines_example =
    run_driver-refines floats
      (submitting "t" (numeric 1) ∷ submitting "t" (numeric 2) ∷ reading 5 "t" ∷ reading 6 "t" ∷ [])
      keyed

-- A parser that knows two numbers.
abbrev parse : List ℕ → Option ℕ
parse number =
    if bytes_eq number (b'-' ∷ b'7' ∷ [])
    then some 107
    else if bytes_eq number (b'7' ∷ [])
    then some 7
    else none

abbrev reader : Reader ℕ
reader = record { chars = λ s. []; parse = parse }

parse_line-sign_blind_example :
    parse_line reader (b'G' ∷ b'-' ∷ b' ' ∷ b'7' ∷ [])
    ≡ parse_line reader (b'G' ∷ b'+' ∷ b' ' ∷ b'7' ∷ [])
unfolding bytes_eq
parse_line-sign_blind_example = parse_line-sign_blind reader refl refl (b'G' ∷ []) (b'7' ∷ [])
