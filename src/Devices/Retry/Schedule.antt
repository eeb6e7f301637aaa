-- ===== src/Devices/Retry/Schedule.antt =====
-- The delays of `Backoff` (crates/trace-devices/src/retry.rs).
use traceability.Base.{
  ℕ, zero, suc, ◌+◌, ◌*◌, ◌%◌, ◌^◌, ◌≤◌, ◌<◌, ◌≡◌, sym, ap, ◌∙◌, inl, inr, arith, leb, Bool-cases,
}
use native.Mathlib.Nat.{
  pow-zero, mul-one, pow-suc, mod-lt, mod-le, mul_assoc, mul_comm, le-mul_of_pos_right, one-le-pow,
}
use traceability.Devices.Retry.{
  Duration, duration_max, min, max, saturating_mul, Backoff, scale, ceiling, mixed, jitter,
  next_delay,
}

power_step : (d f n : ℕ) → d * f ^ suc n ≡ d * f * f ^ n
power_step d f n = ap (λ x. d * x) (pow-suc f n ∙ mul_comm (f ^ n) f) ∙ sym (mul_assoc d f (f ^ n))

power_zero : (d f : ℕ) → d * f ^ 0 ≡ d
power_zero d f = ap (λ x. d * x) (pow-zero f) ∙ mul-one d

le_power : (d f n : ℕ) → 0 < f → d ≤ d * f ^ n
le_power d f n p = le-mul_of_pos_right d (one-le-pow n f p)

scale-min :
    (limit factor d n : ℕ)
    → 0 < factor
    → limit ≤ duration_max
    → scale limit factor d n ≡ min (d * factor ^ n) limit
unfolding scale saturating_mul
scale-min limit factor d zero p l = ap (λ x. min x limit) (sym (power_zero d factor))
scale-min limit factor d (suc n) p l = elim (Bool-cases (leb limit (saturating_mul d factor))) [
  | inl capped ↦ ground (arith, capped, power_step d factor n, le_power (d * factor) factor n p)
  | inr under ↦
      let exact : saturating_mul d factor ≡ d * factor = ground (arith, under) in
      rw (under, exact, power_step d factor n) (scale-min limit factor (d * factor) n p l)
]

-- For a factor that is not zero (`new` makes it so) and a maximum that is a duration, the ceiling of
-- the n-th attempt is `initial * factor ^ n`, cut off at the maximum.
pub ceiling-closed_form :
    (b : Backoff)
    → 0 < b.factor
    → b.max_delay ≤ duration_max
    → ceiling b ≡ min (b.initial * b.factor ^ b.attempt) b.max_delay
unfolding ceiling
ceiling-closed_form b p l = scale-min b.max_delay b.factor b.initial b.attempt p l

max_one : (n : ℕ) → max n 1 ≤ suc n
max_one n = ground arith

max-pos : (n : ℕ) → 0 < max n 1
max-pos n = ground arith

jitter_le : (seed : ℕ) (limit : Duration) → jitter seed limit ≤ limit
unfolding jitter
jitter_le seed limit = omega (
  arith,
  mod-lt (mixed seed) (max-pos limit),
  mod-le (mixed seed % max limit 1) (2 ^ 64),
  max_one limit,
)

-- For a factor that is not zero and a maximum that is a duration, whatever the clock reads: a delay is
-- at most the ceiling and the maximum, and the ceiling after it is that of one more attempt, where
-- the count of the attempts saturates.
pub next_delay-bound :
    (seed : ℕ) (b : Backoff)
    → 0 < b.factor
    → b.max_delay ≤ duration_max
    → ((next_delay seed b).1 ≤ ceiling b)
      × ((next_delay seed b).1 ≤ b.max_delay)
      × (ceiling (next_delay seed b).0
          ≡ min (b.initial * b.factor ^ min (b.attempt + 1) 4294967295) b.max_delay)
unfolding next_delay
next_delay-bound seed b p l =
    let small = jitter_le seed (ceiling b) in
    (
      small,
      ground (arith, small, ceiling-closed_form b p l),
      ceiling-closed_form (next_delay seed b).0 p l,
    )
