-- ===== src/Samples/Webhooks.antt =====
-- Examples for the webhooks.
use traceability.Base.{
  ℕ, ◌+◌, ◌%◌, ◌^◌, String, true, false, [], ◌∷◌, Result, ok, ◌≡◌, ◌↔◌, refl, arith, pos, all,
}
use traceability.Billing.Webhook.{
  Text, WebhookVerifier, StripeEvent, is_stale, sub_i64, abs_i64, greater_i64, compute, verify,
  sign_for_test,
}
use traceability.Billing.Webhook.Fresh.{is_stale-half_range}
use traceability.Billing.Webhook.Accepted.{IsSound, webhook_verify_iff}
use traceability.Billing.Webhook.Signed.{is_hex, sign_for_test-verify}

abbrev hmac_hex : Text → Text → Text
hmac_hex secret message = b'a' ∷ b'1' ∷ []

abbrev event : StripeEvent ℕ
event = record { id = "evt_1"; event_type = "invoice.paid"; created = pos 5; object = 0 }

abbrev from_slice : Text → Result String (StripeEvent ℕ)
from_slice body = ok event

abbrev verifier : WebhookVerifier
verifier = record { secret = []; tolerance_secs = 300 }

webhook_verify_iff_example :
    (verify hmac_hex from_slice verifier [] (b't' ∷ []) 1000 ≡ ok event)
    ↔ IsSound hmac_hex from_slice verifier [] (b't' ∷ []) 1000 event
webhook_verify_iff_example =
    webhook_verify_iff hmac_hex from_slice verifier [] (b't' ∷ []) 1000 event

is_stale-half_range_example : is_stale verifier 1000 ((1000 + 2 ^ 63) % 2 ^ 64) ≡ false
is_stale-half_range_example = is_stale-half_range verifier 1000 (omega arith) (omega arith)

fresh : is_stale verifier 1000 800 ≡ false
unfolding is_stale sub_i64 abs_i64 greater_i64
fresh = refl

in_hex : all is_hex (compute hmac_hex verifier 800 []) ≡ true
unfolding compute
in_hex = refl

sign_for_test-verify_example :
    verify hmac_hex from_slice verifier [] (sign_for_test hmac_hex verifier [] 800) 1000 ≡ ok event
sign_for_test-verify_example =
    sign_for_test-verify hmac_hex from_slice verifier [] 800 1000 {event = event} (omega arith)
      in_hex fresh refl
