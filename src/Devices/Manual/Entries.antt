-- ===== src/Devices/Manual/Entries.antt =====
-- The manual driver as a table from points to values: an entry replaces the one before, and a read
-- takes it away.
use mathlib.Core.Path.{fun_ext}
use traceability.Base.{
  ℕ, String, true, false, List, [], ◌∷◌, ◌++◌, Option, none, some, Result, ok, err, ◌≡◌, refl, sym,
  ap, ◌∙◌, inl, inr, if◌then◌else◌, str_eq, str_eq_iff, Bool-cases, Option-cases,
}
use traceability.Core.Dcp.{Float64, Value, canonical}
use traceability.Devices.Driver.{DeviceError, timed_out, PointRef, RawSample}
use traceability.Devices.Manual.{
  ManualDriver, find_value, without, submit, drain_into, drain, read_pending, read,
}

pub data Call (F : Type 0) : Type 0 where
  submitting : (point : String) → (value : Value F) → Call F
  reading : (now : ℕ) → (point : PointRef) → Call F

abbrev pub Table : Type 0 → Type 0
Table F = String → Option (Value F)

module _ {F : Type 0} where
  -- The table with another entry for one point.
  abbrev pub updated : Table F → String → Option (Value F) → Table F
  updated table point entry p = if str_eq point p then entry else table p

  -- What the next read finds for each point.
  abbrev pub view : ManualDriver F → Table F
  view d p = find_value p (drain_into d.pending d.rx)

  abbrev or_same : Option (ManualDriver F) → ManualDriver F → ManualDriver F
  or_same none d = d
  or_same (some d') d = d'

  drain_into-append :
      (pending queue : List (String × Value F)) (entry : String × Value F)
      → drain_into pending (queue ++ entry ∷ []) ≡ entry ∷ drain_into pending queue
  unfolding drain_into
  drain_into-append pending [] entry = refl
  drain_into-append pending (e ∷ queue) entry = drain_into-append (e ∷ pending) queue entry

  find_value-same :
      (q p : String) (pending : List (String × Value F))
      → str_eq q p ≡ true
      → find_value p pending ≡ find_value q pending
  find_value-same q p pending h = ap (λ x. find_value x pending) (sym ((str_eq_iff q p).0 h))

  find_value-without :
      (q p : String) (pending : List (String × Value F))
      → find_value p (without q pending) ≡ (if str_eq q p then none else find_value p pending)
  unfolding find_value without
  find_value-without q p [] = elim (Bool-cases (str_eq q p)) [
    | inl same ↦ rw same refl
    | inr other ↦ rw other refl
  ]
  find_value-without q p ((k, value) ∷ rest) = elim (Bool-cases (str_eq k q)) [
    | inl gone ↦
        let k=q : k ≡ q = (str_eq_iff k q).0 gone in
        elim (Bool-cases (str_eq q p)) [
          | inl same ↦ let below = find_value-without q p rest in rw (gone, same) (rw same at below)
          | inr other ↦
              let below = find_value-without q p rest in
              let differ : str_eq k p ≡ false = rw k=q other in
              rw (gone, other, differ) (rw other at below)
        ]
    | inr kept ↦
        let below = find_value-without q p rest in
        elim (Bool-cases (str_eq k p)) [
          | inl hit ↦
              let differ : str_eq q p ≡ false = elim (Bool-cases (str_eq q p)) [
                | inl same ↦ absurd (
                    cc (
                      kept,
                      (str_eq_iff k q).1 ((str_eq_iff k p).0 hit ∙ sym ((str_eq_iff q p).0 same)),
                    ))
                | inr other ↦ other
              ] in
              rw (kept, hit, differ) refl
          | inr miss ↦ rw (kept, miss) below
        ]
  ]

  view-submit :
      (d : ManualDriver F) (point : String) (value : Value F)
      → view (or_same (submit (some d) point value).0 d) ≡ updated (view d) point (some value)
  unfolding submit find_value
  view-submit d point value = fun_ext λ p. rw (drain_into-append d.pending d.rx (point, value)) refl

module _ {F : Type 0} (f : Float64 F) where
  -- The answer to a read, by the entry for the point.
  abbrev pub reply : ℕ → PointRef → String → Option (Value F) → Result DeviceError (RawSample F)
  reply now point code none = err (timed_out code point 0)
  reply now point code (some value) =
      ok (record { point = point; value = value; raw = canonical f value; recorded_at = now })

  -- What the reads among the calls answer, by the driver and by the table.
  unfoldable pub run_driver :
      ManualDriver F → List (Call F) → List (Result DeviceError (RawSample F))
  run_driver d [] = []
  run_driver d (submitting point value ∷ calls) =
      run_driver (or_same (submit (some d) point value).0 d) calls
  run_driver d (reading now point ∷ calls) =
      let (d', result) = read f now point d in result ∷ run_driver d' calls

  unfoldable pub run_table :
      String → Table F → List (Call F) → List (Result DeviceError (RawSample F))
  run_table code table [] = []
  run_table code table (submitting point value ∷ calls) =
      run_table code (updated table point (some value)) calls
  run_table code table (reading now point ∷ calls) =
      reply now point code (table point) ∷ run_table code (updated table point none) calls

  read-reply :
      (d : ManualDriver F) (now : ℕ) (point : PointRef)
      → (read f now point d).1 ≡ reply now point d.code (view d point)
  unfolding read drain read_pending
  read-reply d now point = elim (Option-cases (view d point)) [
    | inl missing ↦ rw missing refl
    | inr (value, e) ↦ rw e refl
  ]

  view-read :
      (d : ManualDriver F) (now : ℕ) (point : PointRef)
      → view (read f now point d).0 ≡ updated (view d) point none
  unfolding read drain read_pending drain_into
  view-read d now point = elim (Option-cases (view d point)) [
    | inl missing ↦ rw missing (
        fun_ext λ p. elim (Bool-cases (str_eq point p)) [
          | inl same ↦ rw same (find_value-same point p (drain_into d.pending d.rx) same ∙ missing)
          | inr other ↦ rw other refl
        ])
    | inr (value, e) ↦ rw e (fun_ext λ p. find_value-without point p (drain_into d.pending d.rx))
  ]

  code-read :
      (d : ManualDriver F) (now : ℕ) (point : PointRef) → (read f now point d).0.code ≡ d.code
  unfolding read drain read_pending
  code-read d now point = elim (Option-cases (view d point)) [
    | inl missing ↦ rw missing refl
    | inr (value, e) ↦ rw e refl
  ]

  -- However entries and reads follow each other, the reads answer as those of a table would, in which
  -- an entry replaces the one for its point and a read takes the entry away, or times out without one.
  pub run_driver-refines :
      (calls : List (Call F)) (d : ManualDriver F)
      → run_driver d calls ≡ run_table d.code (view d) calls
  unfolding run_driver run_table submit
  run_driver-refines [] d = refl
  run_driver-refines (submitting point value ∷ calls) d =
      rw (run_driver-refines calls _, view-submit d point value) refl
  run_driver-refines (reading now point ∷ calls) d =
      rw
        (
          read-reply d now point,
          run_driver-refines calls _,
          code-read d now point,
          view-read d now point,
        )
        refl
