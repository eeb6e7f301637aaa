-- ===== src/Devices/Retry.antt =====
-- crates/trace-devices/src/retry.rs: exponential backoff. A duration is a number of nanoseconds; the
-- nanoseconds since the epoch that `jitter` reads are an argument.
pub mod Schedule
use traceability.Base.{
  ℕ, zero, suc, ◌+◌, ◌-◌, ◌*◌, ◌/◌, ◌%◌, ◌^◌, ◌≤◌, ◌<◌, Bool, true, false, ◌≡◌, refl, sym, ap, ◌∙◌,
  ◌↔◌, inl, inr, arith, ltb, leb, if◌then◌else◌, Bool-cases,
}

abbrev pub Duration : Type 0
Duration = ℕ

-- `Duration::MAX`: `u64::MAX` seconds and 999,999,999 nanoseconds.
abbrev pub duration_max : ℕ
duration_max = 18446744073709551615 * 1000000000 + 999999999

abbrev u32_max : ℕ
u32_max = 4294967295

abbrev pub min : ℕ → ℕ → ℕ
min a b = if leb a b then a else b

abbrev pub max : ℕ → ℕ → ℕ
max a b = if leb a b then b else a

unfoldable pub saturating_mul : Duration → ℕ → Duration
saturating_mul d factor = min (d * factor) duration_max

pub record Backoff : Type 0 where
  pub initial : Duration
  pub max_delay : Duration
  pub factor : ℕ
  pub attempt : ℕ

unfoldable pub new : Duration → Duration → ℕ → Backoff
new initial max_delay factor = record {
  initial = initial;
  max_delay = max_delay;
  factor = max factor 1;
  attempt = 0;
}

-- `default`
abbrev pub default_backoff : Backoff
default_backoff = new 250000000 30000000000 2

-- `for _ in 0..self.attempt`, with what follows it.
unfoldable pub scale : Duration → ℕ → Duration → ℕ → Duration
scale max_delay factor d zero = min d max_delay
scale max_delay factor d (suc n) =
    let d' = saturating_mul d factor in
    let rest = scale max_delay factor d' n in if leb max_delay d' then max_delay else rest

unfoldable pub ceiling : Backoff → Duration
ceiling b = scale b.max_delay b.factor b.initial b.attempt

-- `rotate_left(17)` of a `u128`
abbrev rotate_left17 : ℕ → ℕ
rotate_left17 x = x * 2 ^ 17 % 2 ^ 128 + x / 2 ^ 111

abbrev mixed : ℕ → ℕ
mixed seed = rotate_left17 (seed * 6364136223846793005 % 2 ^ 128)

unfoldable pub jitter : ℕ → Duration → Duration
jitter seed bound = mixed seed % max bound 1 % 2 ^ 64

-- The policy after the call, and the delay.
unfoldable pub next_delay : ℕ → Backoff → Backoff × Duration
next_delay seed b = (
  record {
    initial = b.initial;
    max_delay = b.max_delay;
    factor = b.factor;
    attempt = min (b.attempt + 1) u32_max;
  },
  jitter seed (ceiling b),
)

unfoldable pub reset : Backoff → Backoff
reset b = record { initial = b.initial; max_delay = b.max_delay; factor = b.factor; attempt = 0 }
