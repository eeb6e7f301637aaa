-- ===== src/Devices/Registry/Connecting.antt =====
-- What `DeviceRegistry::connect_all` reports.
use traceability.Base.{
  ℕ, String, List, [], ◌∷◌, Memᴰ, Result, ok, err, ◌≡◌, sym, ap, ◌∙◌, ◌↔◌, ◌⊎◌, inl, inr,
}
use traceability.Devices.Driver.{DeviceError, DeviceDriver}
use traceability.Devices.Registry.{Entry, DeviceRegistry, connected, connect_all}

module _ {F J S : Type 0} (drv : DeviceDriver F J S) (now : String → ℕ) where
  -- The device is registered, and its driver does not connect.
  abbrev pub Refused : DeviceRegistry J S → String → DeviceError → Type 0
  Refused devices code problem =
      (entry : Entry J S) × Memᴰ (code, entry) devices
      × ((drv.connect (now code) entry.config entry.driver).1 ≡ err problem)

  connected-mem :
      (c : String) (e : Entry J S) (answer : S × Result DeviceError (Unit {0}))
      (below : DeviceRegistry J S × List (String × DeviceError)) (code : String)
      (problem : DeviceError)
      → Memᴰ (code, problem) (connected drv c e answer below).1
        ↔ (((code ≡ c) × (answer.1 ≡ err problem)) ⊎ Memᴰ (code, problem) below.1)
  connected-mem c e (s, ok done) (devices, failures) code problem =
      (inr, λ h. elim h [ inl (same, refused) ↦ absurd (cc refused) | inr m ↦ m ])
  connected-mem c e (s, err found) (devices, failures) code problem = (
    λ m. reported m,
    λ h. elim h [ inl (same, refused) ↦ Memᴰ.head (cc (same, refused)) | inr m ↦ Memᴰ.tail m ],
  )
    where
      reported :
          Memᴰ {A = String × DeviceError} (code, problem) ((c, found) ∷ failures)
          → ((code ≡ c) × (◌≡◌ {A = Result DeviceError (Unit {0})} (err found) (err problem)))
            ⊎ Memᴰ (code, problem) failures
      reported (Memᴰ.head same) = inl (ap (λ x. x.0) same, cc same)
      reported (Memᴰ.tail m) = inr m

  at_head :
      (c : String) (e : Entry J S) (rest : DeviceRegistry J S) (code : String)
      (problem : DeviceError)
      → Refused ((c, e) ∷ rest) code problem
      → ((code ≡ c) × ((drv.connect (now c) e.config e.driver).1 ≡ err problem))
        ⊎ Refused rest code problem
  at_head c e rest code problem (entry, Memᴰ.head same, refused) = inl (
    ap (λ x. x.0) same,
    sym (ap (λ x. (drv.connect (now x.0) x.1.config x.1.driver).1) same) ∙ refused,
  )
  at_head c e rest code problem (entry, Memᴰ.tail m, refused) = inr (entry, m, refused)

  -- `connect_all` reports exactly the devices that do not connect, each with its error.
  pub connect_all-failures_iff :
      (devices : DeviceRegistry J S) (code : String) (problem : DeviceError)
      → Memᴰ (code, problem) (connect_all drv now devices).1 ↔ Refused devices code problem
  unfolding connect_all
  connect_all-failures_iff [] code problem = (λ m. elim m [ ], λ (entry, m, e). elim m [ ])
  connect_all-failures_iff ((c, e) ∷ rest) code problem =
      let (to, from) =
        connected-mem c e (drv.connect (now c) e.config e.driver) (connect_all drv now rest) code
          problem in
      let (deeper, back) = connect_all-failures_iff rest code problem in
      (
        λ m. elim (to m) [
          | inl (same, refused) ↦ (e, Memᴰ.head (ap (λ x. (x, e)) same), rw same refused)
          | inr m' ↦ let (entry, m'', refused) = deeper m' in (entry, Memᴰ.tail m'', refused)
        ],
        λ r. elim (at_head c e rest code problem r) [
          | inl here ↦ from (inl here)
          | inr r' ↦ from (inr (back r'))
        ],
      )
