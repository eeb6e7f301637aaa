-- ===== src/Billing/Webhook.antt =====
-- crates/trace-billing/src/webhook.rs: the `Stripe-Signature` header and its check. A text is the list of
-- its characters, an `i64` its 64 bits, with the arithmetic of a release build, which wraps. The HMAC as
-- hexadecimal text and `serde_json::from_slice` are parameters, and so is `J`, the JSON of an object.
pub mod Fresh
pub mod Accepted
pub mod Signed
use traceability.Base.{
  ℕ, zero, suc, ◌+◌, ◌-◌, ◌%◌, ◌^◌, String, Bool, true, false, not, ◌&&◌, ◌||◌, List, [], ◌∷◌, ◌++◌,
  Option, none, some, Result, ok, err, ◌>>=◌, ltb, leb, ◌==◌, if◌then◌else◌, any, all, is_empty,
  bytes_eq, str_eq, decimal, is_digit, digits_value, trim, ℤ, pos, neg,
}
use traceability.Billing.{
  BillingError, webhook_signature, webhook_replay, no_timestamp, no_v1, no_match,
}

abbrev pub Text : Type 0
Text = List ℕ

-- Arithmetic on the bits of an `i64`.
abbrev pub is_negative : ℕ → Bool
is_negative bits = leb (2 ^ 63) bits

unfoldable pub sub_i64 : ℕ → ℕ → ℕ
sub_i64 a b = (a + (2 ^ 64 - b)) % 2 ^ 64

unfoldable pub abs_i64 : ℕ → ℕ
abs_i64 bits = if is_negative bits then (2 ^ 64 - bits) % 2 ^ 64 else bits

-- `a > b`: the same order as that of the bits with the sign turned over.
unfoldable pub greater_i64 : ℕ → ℕ → Bool
greater_i64 a b = ltb ((b + 2 ^ 63) % 2 ^ 64) ((a + 2 ^ 63) % 2 ^ 64)

abbrev pub to_signed : ℕ → ℤ
to_signed bits = if is_negative bits then neg (2 ^ 64 - bits) else pos bits

-- `i64::to_string`
unfoldable pub show_i64 : ℕ → Text
show_i64 bits = if is_negative bits then b'-' ∷ decimal (2 ^ 64 - bits) else decimal bits

abbrev pub parse_digits : ℕ → Text → Option ℕ
parse_digits bound digits =
    if not (is_empty digits) && (all is_digit digits && ltb (digits_value digits 0) bound)
    then some (digits_value digits 0)
    else none

abbrev negated : Option ℕ → Option ℕ
negated none = none
negated (some n) = some ((2 ^ 64 - n) % 2 ^ 64)

-- `str::parse::<i64>().ok()`
unfoldable pub parse_i64 : Text → Option ℕ
parse_i64 [] = none
parse_i64 (c ∷ rest) =
    if c == b'-'
    then negated (parse_digits (2 ^ 63 + 1) rest)
    else if c == b'+'
    then parse_digits (2 ^ 63) rest
    else parse_digits (2 ^ 63) (c ∷ rest)

abbrev pub put : ℕ → List Text → List Text
put c [] = (c ∷ []) ∷ []
put c (part ∷ parts) = (c ∷ part) ∷ parts

-- `split(',')`
unfoldable pub split_commas : Text → List Text
split_commas [] = [] ∷ []
split_commas (c ∷ raw) = let rest = split_commas raw in if c == b',' then [] ∷ rest else put c rest

abbrev in_front : ℕ → Option (Text × Text) → Option (Text × Text)
in_front c none = none
in_front c (some (before, behind)) = some (c ∷ before, behind)

-- `split_once('=')`
unfoldable pub split_once : Text → Option (Text × Text)
split_once [] = none
split_once (c ∷ part) =
    let rest = split_once part in if c == b'=' then some ([], part) else in_front c rest

pub record Parsed : Type 0 where
  pub timestamp : Option ℕ
  pub v1 : List Text

-- The `match` on the key of a part.
abbrev pub read_pair : Parsed → Option (Text × Text) → Parsed
read_pair parsed none = parsed
read_pair parsed (some (k, v)) =
    if bytes_eq k (b't' ∷ [])
    then record parsed { timestamp = parse_i64 v }
    else if bytes_eq k (b'v' ∷ b'1' ∷ [])
    then record parsed { v1 = parsed.v1 ++ v ∷ [] }
    else parsed

unfoldable pub read_parts : Parsed → List Text → Parsed
read_parts parsed [] = parsed
read_parts parsed (part ∷ parts) = read_parts (read_pair parsed (split_once (trim part))) parts

pub record SignatureHeader : Type 0 where
  pub timestamp : ℕ
  pub v1 : List Text

abbrev pub header_of : Option ℕ → List Text → Result BillingError SignatureHeader
header_of none v1 = err (webhook_signature no_timestamp)
header_of (some timestamp) v1 =
    if is_empty v1
    then err (webhook_signature no_v1)
    else ok (record { timestamp = timestamp; v1 = v1 })

unfoldable pub parse_header : Text → Result BillingError SignatureHeader
parse_header raw =
    let parsed = read_parts (record { timestamp = none; v1 = [] }) (split_commas raw) in
    header_of parsed.timestamp parsed.v1

pub record StripeEvent (J : Type 0) : Type 0 where
  pub id : String
  pub event_type : String
  pub created : ℤ
  pub object : J

unfoldable pub affects_entitlement : {J : Type 0} → StripeEvent J → Bool
affects_entitlement event =
    any (λ name. str_eq event.event_type name)
      ("customer.subscription.created" ∷ "customer.subscription.updated"
        ∷ "customer.subscription.deleted" ∷ "customer.subscription.paused"
        ∷ "customer.subscription.resumed" ∷ "invoice.paid" ∷ "invoice.payment_failed"
        ∷ "checkout.session.completed" ∷ [])

-- `object.get(key).and_then(Value::as_str)` is a parameter.
abbrev own_id : Bool → Option String → Option String
own_id true id = id
own_id false id = none

abbrev named_first : Option String → Option String → Option String
named_first (some subscription) otherwise = some subscription
named_first none otherwise = otherwise

abbrev is_text : String → Option String → Bool
is_text expected none = false
is_text expected (some found) = str_eq found expected

unfoldable pub subscription_id :
    {J : Type 0} → (J → String → Option String) → StripeEvent J → Option String
subscription_id get_str event =
    named_first (get_str event.object "subscription")
      (own_id (is_text "subscription" (get_str event.object "object")) (get_str event.object "id"))

pub record WebhookVerifier : Type 0 where
  pub secret : Text
  pub tolerance_secs : ℕ

unfoldable pub new : Text → WebhookVerifier
new secret = record { secret = secret; tolerance_secs = 300 }

unfoldable pub with_tolerance_secs : WebhookVerifier → ℕ → WebhookVerifier
with_tolerance_secs verifier secs = record verifier { tolerance_secs = secs }

unfoldable pub is_stale : WebhookVerifier → ℕ → ℕ → Bool
is_stale verifier now timestamp =
    greater_i64 (abs_i64 (sub_i64 now timestamp)) verifier.tolerance_secs

abbrev pub parsed_event :
    {J : Type 0} → Result String (StripeEvent J) → Result BillingError (StripeEvent J)
parsed_event (ok event) = ok event
parsed_event (err detail) = err (BillingError.parse detail)

module _ (hmac_hex : Text → Text → Text) where
  unfoldable pub compute : WebhookVerifier → ℕ → Text → Text
  compute verifier timestamp body = hmac_hex verifier.secret (show_i64 timestamp ++ b'.' ∷ body)

  unfoldable pub sign_for_test : WebhookVerifier → Text → ℕ → Text
  sign_for_test verifier body timestamp =
      b't'
      ∷ b'='
      ∷ (show_i64 timestamp ++ b',' ∷ b'v' ∷ b'1' ∷ b'=' ∷ compute verifier timestamp body)

  module _ {J : Type 0} (from_slice : Text → Result String (StripeEvent J)) where
    abbrev pub check_header :
        WebhookVerifier → Text → ℕ → SignatureHeader → Result BillingError (StripeEvent J)
    check_header verifier body now header =
        if is_stale verifier now header.timestamp
        then err (
            webhook_replay (to_signed (sub_i64 now header.timestamp))
              (to_signed verifier.tolerance_secs))
        else if not (
            any (λ candidate. bytes_eq candidate (compute verifier header.timestamp body))
              header.v1)
        then err (webhook_signature no_match)
        else parsed_event (from_slice body)

    -- `now` is `now.timestamp()`.
    unfoldable pub verify : WebhookVerifier → Text → Text → ℕ → Result BillingError (StripeEvent J)
    verify verifier body signature_header now =
        parse_header signature_header >>= check_header verifier body now
