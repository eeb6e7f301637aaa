-- ===== src/Devices/Registry.antt =====
-- crates/trace-devices/src/registry.rs: the drivers of a station by device code. A driver is a
-- parameter, so `S` holds the state of whichever driver an entry owns. The map is its list of entries
-- in the order of their codes. A call reads the clock up to three times, for a read, a connect and a
-- second read, and the seed of the jitter once.
pub mod Reading
pub mod Connecting
use Prim.Native.Nat.Ordering.{lt, eq, gt}
use Prim.Native.String.{compare}
use traceability.Base.{
  ℕ, String, Bool, List, [], ◌∷◌, map, Option, none, some, Result, ok, err, if◌then◌else◌, str_eq,
}
use traceability.Core.Dcp.{Value}
use traceability.Devices.Retry.{Backoff, default_backoff, next_delay, reset}
use traceability.Devices.Driver.{
  DeviceError, is_transient, unknown_point, PointRef, RawSample, DeviceHealth, DeviceConfig,
  DeviceDriver,
}

pub record Entry (J S : Type 0) : Type 0 where
  pub driver : S
  pub config : DeviceConfig J
  pub backoff : Backoff

abbrev pub DeviceRegistry : (J S : Type 0) → Type 0
DeviceRegistry J S = List (String × Entry J S)

-- The instants that a call of the registry reads, and the seed of the jitter.
pub record Clock : Type 0 where
  pub first : ℕ
  pub connecting : ℕ
  pub second : ℕ
  pub seed : ℕ

module _ {J S : Type 0} where
  -- `BTreeMap::insert`
  unfoldable pub insert_at : String → Entry J S → DeviceRegistry J S → DeviceRegistry J S
  insert_at code entry [] = (code, entry) ∷ []
  insert_at code entry ((c, e) ∷ rest) = elim (compare code c) [
    | lt ↦ (code, entry) ∷ (c, e) ∷ rest
    | eq ↦ (c, entry) ∷ rest
    | gt ↦ (c, e) ∷ insert_at code entry rest
  ]

  unfoldable pub insert : DeviceRegistry J S → DeviceConfig J → S → DeviceRegistry J S
  insert devices config driver =
      insert_at config.code (record { driver = driver; config = config; backoff = default_backoff })
        devices

  unfoldable pub codes : DeviceRegistry J S → List String
  codes devices = map (λ d. d.0) devices

  -- `BTreeMap::get`
  unfoldable pub get_entry : String → DeviceRegistry J S → Option (Entry J S)
  get_entry code [] = none
  get_entry code ((c, e) ∷ rest) = if str_eq c code then some e else get_entry code rest

  -- What is left in the map after a change through `get_mut`.
  unfoldable pub put_entry : String → Entry J S → DeviceRegistry J S → DeviceRegistry J S
  put_entry code entry [] = []
  put_entry code entry ((c, e) ∷ rest) =
      if str_eq c code then (c, entry) ∷ rest else (c, e) ∷ put_entry code entry rest

  -- `get_mut` with `ok_or_else`, and the operation on the entry that it finds.
  abbrev pub with_entry :
      {A : Type 0}
      → DeviceRegistry J S
      → String
      → PointRef
      → Option (Entry J S)
      → (Entry J S → Entry J S × Result DeviceError A)
      → DeviceRegistry J S × Result DeviceError A
  with_entry devices code point none run = (devices, err (unknown_point code point))
  with_entry devices code point (some entry) run =
      let (entry', result) = run entry in (put_entry code entry' devices, result)

module _ {F J S : Type 0} (drv : DeviceDriver F J S) where
  unfoldable pub health : DeviceRegistry J S → List (String × DeviceHealth)
  health devices = map (λ d. (d.0, drv.health d.1.driver)) devices

  -- What is kept of one device's connection, in front of the rest.
  abbrev pub connected :
      String
      → Entry J S
      → S × Result DeviceError (Unit {0})
      → DeviceRegistry J S × List (String × DeviceError)
      → DeviceRegistry J S × List (String × DeviceError)
  connected code entry (s, ok done) (devices, failures) =
      ((code, record entry { driver = s }) ∷ devices, failures)
  connected code entry (s, err problem) (devices, failures) =
      ((code, record entry { driver = s }) ∷ devices, (code, problem) ∷ failures)

  -- The instants stand in a function of the code.
  unfoldable pub connect_all :
      (String → ℕ) → DeviceRegistry J S → DeviceRegistry J S × List (String × DeviceError)
  connect_all now [] = ([], [])
  connect_all now ((code, entry) ∷ rest) =
      connected code entry (drv.connect (now code) entry.config entry.driver) (connect_all now rest)

  abbrev pub second_read :
      Clock
      → PointRef
      → Entry J S
      → S × Result DeviceError (Unit {0})
      → Entry J S × Result DeviceError (RawSample F)
  second_read clock point entry (s, err problem) = (record entry { driver = s }, err problem)
  second_read clock point entry (s, ok done) =
      let (s', result) = drv.read clock.second point s in (record entry { driver = s' }, result)

  -- The branch of a transient failure.
  abbrev pub reconnect : Clock → PointRef → Entry J S → Entry J S × Result DeviceError (RawSample F)
  reconnect clock point entry =
      let (backoff, delay) = next_delay clock.seed entry.backoff in
      second_read clock point (record entry { backoff = backoff })
        (drv.connect clock.connecting entry.config entry.driver)

  abbrev pub first_read :
      Clock
      → PointRef
      → Entry J S
      → S × Result DeviceError (RawSample F)
      → Entry J S × Result DeviceError (RawSample F)
  first_read clock point entry (s, ok sample) =
      (record { driver = s; config = entry.config; backoff = reset entry.backoff }, ok sample)
  first_read clock point entry (s, err problem) =
      if is_transient problem
      then reconnect clock point (record entry { driver = s })
      else (record entry { driver = s }, err problem)

  unfoldable pub read_entry :
      Clock → PointRef → Entry J S → Entry J S × Result DeviceError (RawSample F)
  read_entry clock point entry =
      first_read clock point entry (drv.read clock.first point entry.driver)

  unfoldable pub read :
      Clock
      → DeviceRegistry J S
      → String
      → PointRef
      → DeviceRegistry J S × Result DeviceError (RawSample F)
  read clock devices code point =
      with_entry devices code point (get_entry code devices) (read_entry clock point)

  abbrev pub write_done :
      Entry J S → S × Result DeviceError (Unit {0}) → Entry J S × Result DeviceError (Unit {0})
  write_done entry (s, result) = (record entry { driver = s }, result)

  unfoldable pub write :
      DeviceRegistry J S
      → String
      → PointRef
      → Value F
      → DeviceRegistry J S × Result DeviceError (Unit {0})
  write devices code point value =
      with_entry devices code point (get_entry code devices)
        (λ entry. write_done entry (drv.write point value entry.driver))
