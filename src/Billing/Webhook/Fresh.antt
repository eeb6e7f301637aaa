-- ===== src/Billing/Webhook/Fresh.antt =====
-- The age check of a webhook (crates/trace-billing/src/webhook.rs), with the wrapping of a release build.
use traceability.Base.{ℕ, ◌+◌, ◌-◌, ◌%◌, ◌^◌, ◌≤◌, ◌<◌, false, ◌≡◌, ◌↔◌, arith, ltb, dec_le}
use traceability.Billing.Webhook.{WebhookVerifier, sub_i64, abs_i64, greater_i64, is_stale}

sub_i64-behind : (a b : ℕ) → a < 2 ^ 62 → b ≤ a → sub_i64 a b ≡ a - b
unfolding sub_i64
sub_i64-behind a b small le = omega (arith, small, le)

sub_i64-ahead : (a b : ℕ) → b < 2 ^ 62 → a < b → sub_i64 a b ≡ 2 ^ 64 - (b - a)
unfolding sub_i64
sub_i64-ahead a b small lt = omega (arith, small, lt)

abs_i64-small : (n : ℕ) → n < 2 ^ 63 → abs_i64 n ≡ n
unfolding abs_i64
abs_i64-small n h = ground (arith, h)

abs_i64-negative : (n : ℕ) → 0 < n → n < 2 ^ 63 → abs_i64 (2 ^ 64 - n) ≡ n
unfolding abs_i64
abs_i64-negative n pos_n h = ground (arith, pos_n, h)

greater_i64-small : (a b : ℕ) → a < 2 ^ 63 → b < 2 ^ 63 → greater_i64 a b ≡ ltb b a
unfolding greater_i64
greater_i64-small a b h k = ground (arith, h, k)

-- Where the instants and the tolerance are below 2 ^ 62 seconds, a timestamp is fresh exactly if it lies
-- no further than the tolerance before or after the present.
pub is_stale_iff :
    (verifier : WebhookVerifier) (now timestamp : ℕ)
    → now < 2 ^ 62
    → timestamp < 2 ^ 62
    → verifier.tolerance_secs < 2 ^ 62
    → (is_stale verifier now timestamp ≡ false)
      ↔ ((now ≤ timestamp + verifier.tolerance_secs) × (timestamp ≤ now + verifier.tolerance_secs))
unfolding is_stale
is_stale_iff verifier now timestamp h k l = elim (dec_le timestamp now) [
  | yes before ↦
      rw
        (
          sub_i64-behind now timestamp h before,
          abs_i64-small (now - timestamp) (omega (arith, h)),
          greater_i64-small (now - timestamp) verifier.tolerance_secs (omega (arith, h))
              (omega (arith, l)),
        )
        (ground (arith, before))
  | no later ↦
      let gap = timestamp - now in
      rw
        (
          sub_i64-ahead now timestamp k (omega (arith, later)),
          abs_i64-negative gap (omega (arith, later)) (omega (arith, k)),
          greater_i64-small gap verifier.tolerance_secs (omega (arith, k)) (omega (arith, l)),
        )
        (ground (arith, later))
]

-- The timestamp that lies half of the range away from a present below 2 ^ 63 seconds is fresh for every
-- tolerance below 2 ^ 63 seconds.
pub is_stale-half_range :
    (verifier : WebhookVerifier) (now : ℕ)
    → now < 2 ^ 63
    → verifier.tolerance_secs < 2 ^ 63
    → is_stale verifier now ((now + 2 ^ 63) % 2 ^ 64) ≡ false
unfolding is_stale
is_stale-half_range verifier now h k =
    let gap : sub_i64 now ((now + 2 ^ 63) % 2 ^ 64) ≡ 2 ^ 63 = unfold sub_i64 in omega (arith, h) in
    rw gap (unfold abs_i64 greater_i64 in ground (arith, k))
