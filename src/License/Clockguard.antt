-- ===== src/License/Clockguard.antt =====
-- crates/trace-license/src/clockguard.rs: the monotonic high-water mark. An instant is a number of
-- nanoseconds.
use traceability.Base.{
  ℕ, ◌+◌, ◌-◌, ◌*◌, ◌/◌, ◌≤◌, ◌<◌, suc, Bool, true, false, List, [], ◌∷◌, ◌≡◌, refl, sym, ap, ◌∙◌,
  ◌⊎◌, inl, inr, arith, ltb, leb, if◌then◌else◌, Bool-cases, leb→le, ℤ, pos, at_most,
}

abbrev pub Instant : Type 0
Instant = ℕ

abbrev pub nanos : ℕ
nanos = 1000000000

-- `num_seconds` of a difference that is not negative.
unfoldable pub num_seconds : ℕ → ℕ
num_seconds d = d / nanos

abbrev default_tolerance_secs : ℤ
default_tolerance_secs = pos 300

pub data ClockVerdict : Type 0 where
  trusted : ClockVerdict
  wound_back : (by_seconds : ℕ) → ClockVerdict

unfoldable pub is_trusted : ClockVerdict → Bool
is_trusted trusted = true
is_trusted (wound_back by_seconds) = false

pub record ClockGuard : Type 0 where
  pub high_water : Instant
  pub tolerance_secs : ℤ

unfoldable pub new : Instant → ClockGuard
new seed = record { high_water = seed; tolerance_secs = default_tolerance_secs }

-- The guard after the call, and what the call returns.
pub record Observed : Type 0 where
  pub guard : ClockGuard
  pub used : Instant
  pub verdict : ClockVerdict

unfoldable pub observe : ClockGuard → Instant → Observed
observe g reported =
    if leb g.high_water reported
    then record {
      guard = record { high_water = reported; tolerance_secs = g.tolerance_secs };
      used = reported;
      verdict = trusted;
    }
    else (let back = num_seconds (g.high_water - reported) in
        if at_most back g.tolerance_secs
        then record { guard = g; used = reported; verdict = trusted }
        else record { guard = g; used = g.high_water; verdict = wound_back back })

unfoldable pub bump : ClockGuard → Instant → ClockGuard
bump g t =
    if ltb g.high_water t then record { high_water = t; tolerance_secs = g.tolerance_secs } else g

-- What the callers do to a guard, in any order.
pub data Call : Type 0 where
  observing bumping : (t : Instant) → Call

unfoldable pub after : ClockGuard → Call → ClockGuard
after g (observing t) = (observe g t).guard
after g (bumping t) = bump g t

unfoldable pub run : ClockGuard → List Call → ClockGuard
run g [] = g
run g (c ∷ cs) = run (after g c) cs

unfoldable pub instant : Call → Instant
instant (observing t) = t
instant (bumping t) = t

-- The latest of an instant and of all the instants in the calls.
unfoldable pub latest : Instant → List Call → Instant
latest t [] = t
latest t (c ∷ cs) = latest (if leb t (instant c) then instant c else t) cs

after_high_water :
    (g : ClockGuard) (c : Call)
    → ((after g c).high_water ≡ (if leb g.high_water (instant c) then instant c else g.high_water))
      × ((after g c).tolerance_secs ≡ g.tolerance_secs)
unfolding after observe bump instant
after_high_water g (observing t) = elim (Bool-cases (leb g.high_water t)) [
  | inl newer ↦ (ground (arith, newer), ground (arith, newer))
  | inr older ↦ elim (Bool-cases (at_most (num_seconds (g.high_water - t)) g.tolerance_secs)) [
    | inl near ↦ (ground (arith, older, near), ground (arith, older, near))
    | inr far ↦ (ground (arith, older, far), ground (arith, older, far))
  ]
]
after_high_water g (bumping t) = elim (Bool-cases (ltb g.high_water t)) [
  | inl newer ↦ (ground (arith, newer), ground (arith, newer))
  | inr older ↦ (ground (arith, older), ground (arith, older))
]

-- However the guard is used, its mark is the latest instant of the seed and of everything that was
-- observed or bumped, and its tolerance stays.
pub run-high_water :
    (g : ClockGuard) (cs : List Call)
    → ((run g cs).high_water ≡ latest g.high_water cs)
      × ((run g cs).tolerance_secs ≡ g.tolerance_secs)
unfolding run latest
run-high_water g [] = (refl, refl)
run-high_water g (c ∷ cs) =
    let (mark, kept) = after_high_water g c in
    let (marks, keeps) = run-high_water (after g c) cs in
    (marks ∙ ap (λ t. latest t cs) mark, keeps ∙ kept)

-- A reported time is trusted exactly if it is not behind the mark, or behind it by no more whole
-- seconds than the tolerance; it is then the instant to use, and otherwise the mark is.
observe_cases :
    (g : ClockGuard) (reported : Instant)
    → (((observe g reported).verdict ≡ trusted)
        × ((observe g reported).used ≡ reported)
        × ((g.high_water ≤ reported)
            ⊎ (at_most (num_seconds (g.high_water - reported)) g.tolerance_secs ≡ true)))
      ⊎ (((observe g reported).verdict ≡ wound_back (num_seconds (g.high_water - reported)))
          × ((observe g reported).used ≡ g.high_water)
          × (reported < g.high_water)
          × (at_most (num_seconds (g.high_water - reported)) g.tolerance_secs ≡ false))
unfolding observe
observe_cases g reported = elim (Bool-cases (leb g.high_water reported)) [
  | inl newer ↦
      inl (ground (arith, newer), ground (arith, newer), inl (leb→le g.high_water reported newer))
  | inr older ↦
      elim (Bool-cases (at_most (num_seconds (g.high_water - reported)) g.tolerance_secs)) [
        | inl near ↦ inl (ground (arith, older, near), ground (arith, older, near), inr near)
        | inr far ↦
            inr (ground (arith, older, far), ground (arith, older, far), ground (arith, older), far)
      ]
]

-- The instant to use lies less than the tolerance and one second behind the mark, whatever the
-- clock reports.
pub observe-used_bound :
    (g : ClockGuard) (tolerance : ℕ) (reported : Instant)
    → g.tolerance_secs ≡ pos tolerance
    → (observe g reported).guard.high_water < (observe g reported).used + suc tolerance * nanos
unfolding observe at_most num_seconds
observe-used_bound g tolerance reported t = elim (Bool-cases (leb g.high_water reported)) [
  | inl newer ↦ ground (arith, newer)
  | inr older ↦
      elim (Bool-cases (at_most (num_seconds (g.high_water - reported)) g.tolerance_secs)) [
        | inl near ↦
            let close : at_most (num_seconds (g.high_water - reported)) (pos tolerance) ≡ true =
              ap (at_most (num_seconds (g.high_water - reported))) (sym t) ∙ near in
            ground (arith, older, near, close)
        | inr far ↦ ground (arith, older, far)
      ]
]

-- Observing never lowers the mark.
pub observe-mark_le :
    (g : ClockGuard) (reported : Instant) → g.high_water ≤ (observe g reported).guard.high_water
unfolding after instant
observe-mark_le g reported = ground (arith, (after_high_water g (observing reported)).0)
