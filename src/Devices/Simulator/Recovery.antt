-- ===== src/Devices/Simulator/Recovery.antt =====
-- The registry over a simulated device: a dropped connection is healed within the read.
use traceability.Base.{String, true, List, [], ◌∷◌, some, ◌≡◌, refl, inl, inr, str_eq, Bool-cases}
use traceability.Core.Dcp.{Float64}
use traceability.Devices.Driver.{PointRef, is_transient}
use traceability.Devices.Registry
use traceability.Devices.Registry.{Entry, DeviceRegistry, Clock, get_entry, read_entry}
use traceability.Devices.Simulator.{
  SimulatedDriver, Scripted, disconnect, queue_of, drop_step, tail, scripted_answer, read, connect,
  driver,
}

module _ {F : Type 0} where
  queue_of-drop_step :
      (point : String) (steps : List (String × List (Scripted F)))
      → queue_of point (drop_step point steps) ≡ tail (queue_of point steps)
  unfolding queue_of drop_step
  queue_of-drop_step point [] = refl
  queue_of-drop_step point ((p, queue) ∷ rest) = elim (Bool-cases (str_eq p point)) [
    | inl hit ↦ rw (hit, hit) refl
    | inr miss ↦ rw (miss, miss) (queue_of-drop_step point rest)
  ]

-- Where the cable of a connected device is pulled at a read, the registry answers that read with what
-- stands next in the script for the point, as the device that is connected again gives it.
pub read-cable_pull :
    {F J : Type 0} (f : Float64 F) (clock : Clock) (devices : DeviceRegistry J (SimulatedDriver F))
    (code : String) (point : PointRef) {entry : Entry J (SimulatedDriver F)}
    {queue : List (Scripted F)}
    → get_entry code devices ≡ some entry
    → entry.driver.connected ≡ true
    → queue_of point entry.driver.steps ≡ disconnect ∷ queue
    → (Registry.read (driver f) clock devices code point).1
      ≡ scripted_answer f clock.second point entry.config.code entry.driver.defaults queue
unfolding Registry.read read_entry read connect scripted_answer is_transient
read-cable_pull f clock devices code point {entry} {queue} found up next =
    rw (found, up, next) (rw (queue_of-drop_step point entry.driver.steps, next) refl)
