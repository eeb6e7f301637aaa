-- ===== src/Devices/Registry/Reading.antt =====
-- What `DeviceRegistry::read` answers, and what it leaves alone.
use traceability.Base.{
  String, true, false, [], ◌∷◌, some, Result, ok, err, ◌≡◌, refl, ◌↔◌, ◌⊎◌, inl, inr, arith, str_eq,
  str_eq_iff, Bool-cases, Option-cases,
}
use traceability.Devices.Retry.{next_delay}
use traceability.Devices.Driver.{DeviceError, is_transient, PointRef, RawSample, DeviceDriver}
use traceability.Devices.Registry.{
  Entry, DeviceRegistry, Clock, get_entry, put_entry, read_entry, read, first_read, second_read,
}

module _ {J S : Type 0} where
  put_entry-other :
      (code other : String) (entry : Entry J S) (devices : DeviceRegistry J S)
      → str_eq other code ≡ false
      → get_entry other (put_entry code entry devices) ≡ get_entry other devices
  unfolding get_entry put_entry
  put_entry-other code other entry [] differ = refl
  put_entry-other code other entry ((c, e) ∷ rest) differ = elim (Bool-cases (str_eq c code)) [
    | inl same ↦
        let gone : str_eq c other ≡ false = elim (Bool-cases (str_eq c other)) [
          | inl hit ↦ absurd (cc (differ, (str_eq_iff c other).0 hit, same))
          | inr miss ↦ miss
        ] in
        rw (same, gone) refl
    | inr miss ↦ elim (Bool-cases (str_eq c other)) [
      | inl hit ↦ rw (miss, hit) refl
      | inr next ↦ rw (miss, next) (put_entry-other code other entry rest differ)
    ]
  ]

module _ {F J S : Type 0} (drv : DeviceDriver F J S) (clock : Clock) (point : PointRef) where
  -- A read of one device leaves every other one with the state and the backoff it had.
  pub read-others :
      (devices : DeviceRegistry J S) (code other : String)
      → str_eq other code ≡ false
      → get_entry other (read drv clock devices code point).0 ≡ get_entry other devices
  unfolding read
  read-others devices code other differ = elim (Option-cases (get_entry code devices)) [
    | inl missing ↦ rw missing refl
    | inr (entry, e) ↦ rw e (put_entry-other code other _ devices differ)
  ]

  -- It failed for the moment, connected again, and gave the sample to the second read.
  pub record IsRecovered (answer : S × Result DeviceError (RawSample F)) (entry : Entry J S)
      (sample : RawSample F) : Type 0 where
    pub problem : DeviceError
    pub dropped : answer.1 ≡ err problem
    pub transient : is_transient problem ≡ true
    pub reconnected : (drv.connect clock.connecting entry.config answer.0).1 ≡ ok tt
    pub again :
        (drv.read clock.second point (drv.connect clock.connecting entry.config answer.0).0).1
        ≡ ok sample

  abbrev pub HasRead : Entry J S → RawSample F → Type 0
  HasRead entry sample =
      let answer = drv.read clock.first point entry.driver in
      (answer.1 ≡ ok sample) ⊎ IsRecovered answer entry sample

  second_read-ok :
      (entry : Entry J S) (sample : RawSample F) (link : S × Result DeviceError (Unit {0}))
      → (second_read drv clock point entry link).1 ≡ ok sample
      → (link.1 ≡ ok tt) × ((drv.read clock.second point link.0).1 ≡ ok sample)
  second_read-ok entry sample (s, err problem) h = absurd (cc h)
  second_read-ok entry sample (s, ok done) h = (refl, h)

  first_read-ok :
      (entry : Entry J S) (sample : RawSample F) (answer : S × Result DeviceError (RawSample F))
      → (first_read drv clock point entry answer).1 ≡ ok sample
      → (answer.1 ≡ ok sample) ⊎ IsRecovered answer entry sample
  first_read-ok entry sample (s, ok found) h = inl h
  first_read-ok entry sample (s, err problem) h = elim (Bool-cases (is_transient problem)) [
    | inl transient ↦
        let (linked, again) =
          second_read-ok
            (record {
              driver = s;
              config = entry.config;
              backoff = (next_delay clock.seed entry.backoff).0;
            })
            sample (drv.connect clock.connecting entry.config s) (rw transient at h) in
        inr (record {
          problem = problem;
          dropped = refl;
          transient = transient;
          reconnected = linked;
          again = again;
        })
    | inr lasting ↦ absurd (cc (rw lasting at h))
  ]

  first_read-returns :
      (entry : Entry J S) (sample : RawSample F) (answer : S × Result DeviceError (RawSample F))
      → (answer.1 ≡ ok sample) ⊎ IsRecovered answer entry sample
      → (first_read drv clock point entry answer).1 ≡ ok sample
  first_read-returns entry sample (s, ok found) (inl h) = h
  first_read-returns entry sample (s, ok found) (inr r) = absurd (cc r.dropped)
  first_read-returns entry sample (s, err problem) (inl h) = absurd (cc h)
  first_read-returns entry sample (s, err problem) (inr r) =
      let transient : is_transient problem ≡ true = ground (arith, r.dropped, r.transient) in
      rw transient (rw r.reconnected r.again)

  -- A read answers with a sample exactly if the device is registered and its driver gave that sample
  -- at once, or failed with a transient error, connected again and gave it to one more read.
  pub read-ok_iff :
      (devices : DeviceRegistry J S) (code : String) (sample : RawSample F)
      → ((read drv clock devices code point).1 ≡ ok sample)
        ↔ ((entry : Entry J S) × (get_entry code devices ≡ some entry) × HasRead entry sample)
  unfolding read read_entry
  read-ok_iff devices code sample = elim (Option-cases (get_entry code devices)) [
    | inl missing ↦ rw missing (λ h. absurd (cc h), λ (entry, e, how). absurd (cc e))
    | inr (entry, e) ↦ rw e (
      λ h. (entry, refl, first_read-ok entry sample (drv.read clock.first point entry.driver) h),
      λ (entry', e', how).
          let same : entry ≡ entry' = ground (arith, e') in
          first_read-returns entry sample (drv.read clock.first point entry.driver) (rw same how),
    )
  ]
