-- ===== src/Billing/Webhook/Signed.antt =====
-- The header that `sign_for_test` makes (crates/trace-billing/src/webhook.rs) is read back and accepted.
use traceability.Base.{
  ℕ, ◌<◌, ◌^◌, String, Bool, true, false, not, ◌&&◌, ◌||◌, [], ◌∷◌, ◌++◌, some, Result, ok, ◌≡◌,
  refl, ap, ◌∙◌, arith, ltb, leb, ◌==◌, all, is_empty, Memᴰ, lacks, bytes_eq, decimal, is_digit,
  decimal-digits, digits_value, decimal-value, decimal-not_empty, is_whitespace, is_solid,
  trim-solid,
}
use traceability.Billing.Webhook.{
  Text, WebhookVerifier, StripeEvent, show_i64, parse_i64, split_commas, split_once, read_parts,
  parse_header, is_stale, compute, verify, sign_for_test,
}
use traceability.Billing.Webhook.Accepted.{webhook_verify_iff}

-- A digit of `hex::encode`.
abbrev pub is_hex : ℕ → Bool
is_hex c = is_digit c || not (ltb c b'a') && ltb c b'g'

is_hex-plain : (c : ℕ) → is_hex c ≡ true → ((c == b',') ≡ false) × (is_solid c ≡ true)
unfolding is_whitespace
is_hex-plain c h = (ground (arith, h), ground (arith, h))

is_digit-is_hex : (d : Text) → all is_digit d ≡ true → all is_hex d ≡ true
is_digit-is_hex [] h = refl
is_digit-is_hex (c ∷ d) h = ground (arith, h, is_digit-is_hex d)

is_hex-lacks : (t : Text) → all is_hex t ≡ true → lacks b',' t ≡ true
is_hex-lacks [] h = refl
is_hex-lacks (c ∷ t) h = ground (arith, h, is_hex-plain c, is_hex-lacks t)

is_hex-solid : (t : Text) → all is_hex t ≡ true → all is_solid t ≡ true
is_hex-solid [] h = refl
is_hex-solid (c ∷ t) h =
    let (no_comma, solid) = is_hex-plain c (ground (arith, h)) in
    rw solid (is_hex-solid t (ground (arith, h)))

split_commas-last : (a : Text) → lacks b',' a ≡ true → split_commas a ≡ a ∷ []
unfolding split_commas
split_commas-last [] h = refl
split_commas-last (c ∷ a) h =
    let plain : (c == b',') ≡ false = ground (arith, h) in
    rw (plain, split_commas-last a (ground (arith, h))) refl

split_commas-first :
    (a b : Text) → lacks b',' a ≡ true → split_commas (a ++ b',' ∷ b) ≡ a ∷ split_commas b
unfolding split_commas
split_commas-first [] b h = refl
split_commas-first (c ∷ a) b h =
    let plain : (c == b',') ≡ false = ground (arith, h) in
    rw (plain, split_commas-first a b (ground (arith, h))) refl

parse_i64-digits :
    (d : Text)
    → all is_digit d ≡ true
    → is_empty d ≡ false
    → digits_value d 0 < 2 ^ 63
    → parse_i64 d ≡ some (digits_value d 0)
unfolding parse_i64
parse_i64-digits [] h full small = absurd (cc full)
parse_i64-digits (c ∷ d) h full small =
    let minus : (c == b'-') ≡ false = ground (arith, h) in
    let plus : (c == b'+') ≡ false = ground (arith, h) in
    let below : ltb (digits_value (c ∷ d) 0) (2 ^ 63) ≡ true = ground (arith, small) in
    rw (minus, plus, h, below) refl

-- A timestamp that is not negative is read as it was printed.
parse-show_i64 : (t : ℕ) → t < 2 ^ 63 → parse_i64 (show_i64 t) ≡ some t
unfolding show_i64
parse-show_i64 t h =
    let plus : leb (2 ^ 63) t ≡ false = ground (arith, h) in
    let e = decimal-value t in
    rw plus
      (parse_i64-digits (decimal t) (decimal-digits t) (decimal-not_empty t) (rw e h) ∙ ap some e)

abbrev timed : Text → Text
timed shown = b't' ∷ b'=' ∷ shown

abbrev keyed : Text → Text
keyed signature = b'v' ∷ b'1' ∷ b'=' ∷ signature

timed-solid : (shown : Text) → all is_hex shown ≡ true → all is_solid (timed shown) ≡ true
unfolding is_whitespace
timed-solid shown h = is_hex-solid shown h

keyed-solid :
    (signature : Text) → all is_hex signature ≡ true → all is_solid (keyed signature) ≡ true
unfolding is_whitespace
keyed-solid signature h = is_hex-solid signature h

parse_header-two :
    (shown signature : Text) {t : ℕ}
    → all is_hex shown ≡ true
    → all is_hex signature ≡ true
    → parse_i64 shown ≡ some t
    → parse_header (timed shown ++ b',' ∷ keyed signature)
      ≡ ok (record { timestamp = t; v1 = signature ∷ [] })
unfolding parse_header read_parts split_once bytes_eq
parse_header-two shown signature digits hex parsed =
    rw
      (
        split_commas-first (timed shown) (keyed signature) (is_hex-lacks shown digits),
        split_commas-last (keyed signature) (is_hex-lacks signature hex),
      )
      (rw
        (
          trim-solid (timed shown) (timed-solid shown digits),
          trim-solid (keyed signature) (keyed-solid signature hex),
          parsed,
        )
        refl)

show_i64-hex : (t : ℕ) → t < 2 ^ 63 → all is_hex (show_i64 t) ≡ true
unfolding show_i64
show_i64-hex t h =
    let plus : leb (2 ^ 63) t ≡ false = ground (arith, h) in
    rw plus (is_digit-is_hex (decimal t) (decimal-digits t))

module _ (hmac_hex : Text → Text → Text) where
  parse_header-sign :
      (verifier : WebhookVerifier) (body : Text) (t : ℕ)
      → t < 2 ^ 63
      → all is_hex (compute hmac_hex verifier t body) ≡ true
      → parse_header (sign_for_test hmac_hex verifier body t)
        ≡ ok (record { timestamp = t; v1 = compute hmac_hex verifier t body ∷ [] })
  unfolding sign_for_test
  parse_header-sign verifier body t h hex =
      parse_header-two (show_i64 t) (compute hmac_hex verifier t body) (show_i64-hex t h) hex
        (parse-show_i64 t h)

  -- The header that is made for a body at a time that is not negative is accepted with this body while
  -- it is not stale, where the signature is written in hexadecimal digits and the body reads as an event.
  pub sign_for_test-verify :
      {J : Type 0} (from_slice : Text → Result String (StripeEvent J)) (verifier : WebhookVerifier)
      (body : Text) (t now : ℕ) {event : StripeEvent J}
      → t < 2 ^ 63
      → all is_hex (compute hmac_hex verifier t body) ≡ true
      → is_stale verifier now t ≡ false
      → from_slice body ≡ ok event
      → verify hmac_hex from_slice verifier body (sign_for_test hmac_hex verifier body t) now
        ≡ ok event
  sign_for_test-verify from_slice verifier body t now {event} h hex fresh readable =
      (webhook_verify_iff hmac_hex from_slice verifier body (sign_for_test hmac_hex verifier body t)
          now event).1
        (record {
          header = record { timestamp = t; v1 = compute hmac_hex verifier t body ∷ [] };
          well_formed = parse_header-sign verifier body t h hex;
          fresh = fresh;
          signature = Memᴰ.head refl;
          readable = readable;
        })
