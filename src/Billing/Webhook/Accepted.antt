-- ===== src/Billing/Webhook/Accepted.antt =====
-- Which webhooks are accepted (crates/trace-billing/src/webhook.rs).
use traceability.Base.{
  ℕ, String, true, false, List, [], ◌∷◌, Result, ok, err, ◌≡◌, refl, sym, ◌↔◌, inl, inr, arith, any,
  Memᴰ, bytes_eq, bytes_eq_refl, eq_of_bytes_eq, >>=-eq-ok, Bool-cases,
}
use traceability.Billing.Webhook.{
  Text, WebhookVerifier, SignatureHeader, StripeEvent, parse_header, is_stale, compute,
  parsed_event, check_header, verify,
}

any-bytes_eq_iff :
    (expected : Text) (candidates : List Text)
    → (any (λ candidate. bytes_eq candidate expected) candidates ≡ true) ↔ Memᴰ expected candidates
any-bytes_eq_iff expected [] = (λ h. absurd (cc h), λ m. elim m [ ])
any-bytes_eq_iff expected (c ∷ candidates) =
    let (to, from) = any-bytes_eq_iff expected candidates in
    (
      λ h. elim (Bool-cases (bytes_eq c expected)) [
        | inl same ↦ Memᴰ.head (sym (eq_of_bytes_eq c expected same))
        | inr other ↦ Memᴰ.tail (to (rw other at h))
      ],
      λ m. found from m,
    )
  where
    found :
        (Memᴰ expected candidates
          → any (λ candidate. bytes_eq candidate expected) candidates ≡ true)
        → Memᴰ expected (c ∷ candidates)
        → any (λ candidate. bytes_eq candidate expected) (c ∷ candidates) ≡ true
    found from (Memᴰ.head e) = rw (sym e) (rw (bytes_eq_refl expected) refl)
    found from (Memᴰ.tail m) = ground (arith, from m)

parsed_event-ok :
    {J : Type 0} (found : Result String (StripeEvent J)) (event : StripeEvent J)
    → parsed_event found ≡ ok event
    → found ≡ ok event
parsed_event-ok (ok x) event h = cc h
parsed_event-ok (err detail) event h = absurd (cc h)

module _ {J : Type 0} (hmac_hex : Text → Text → Text)
    (from_slice : Text → Result String (StripeEvent J)) where
  -- What an accepted webhook has: a header with a timestamp that is not stale and, among its
  -- signatures, that of this body under this timestamp; and a body that is an event.
  pub record IsSound (verifier : WebhookVerifier) (body raw : Text) (now : ℕ)
      (event : StripeEvent J) : Type 0 where
    pub header : SignatureHeader
    pub well_formed : parse_header raw ≡ ok header
    pub fresh : is_stale verifier now header.timestamp ≡ false
    pub signature : Memᴰ (compute hmac_hex verifier header.timestamp body) header.v1
    pub readable : from_slice body ≡ ok event

  -- A webhook is accepted as an event exactly if its header is well formed, its timestamp is not stale,
  -- one of its v1 signatures is that of the body under this timestamp, and the body reads as the event.
  pub webhook_verify_iff :
      (verifier : WebhookVerifier) (body raw : Text) (now : ℕ) (event : StripeEvent J)
      → (verify hmac_hex from_slice verifier body raw now ≡ ok event)
        ↔ IsSound verifier body raw now event
  unfolding verify
  webhook_verify_iff verifier body raw now event = (
    λ h.
        let (header, parsed, checked) =
          >>=-eq-ok (parse_header raw) (check_header hmac_hex from_slice verifier body now) h in
        sound header parsed checked,
    λ s.
        let hit =
          (any-bytes_eq_iff (compute hmac_hex verifier s.header.timestamp body) s.header.v1).1
            s.signature in
        rw (s.well_formed, s.fresh, hit, s.readable) refl,
  )
    where
      sound :
          (header : SignatureHeader)
          → parse_header raw ≡ ok header
          → check_header hmac_hex from_slice verifier body now header ≡ ok event
          → IsSound verifier body raw now event
      sound header parsed checked = elim (Bool-cases (is_stale verifier now header.timestamp)) [
        | inl stale ↦ absurd (cc (rw stale at checked))
        | inr fresh ↦
            elim (Bool-cases (
              any
                (λ candidate. bytes_eq candidate (compute hmac_hex verifier header.timestamp body))
                header.v1)) [
                  | inl hit ↦ record {
                    header = header;
                    well_formed = parsed;
                    fresh = fresh;
                    signature =
                        (any-bytes_eq_iff (compute hmac_hex verifier header.timestamp body)
                            header.v1).0
                          hit;
                    readable = parsed_event-ok (from_slice body) event (rw (fresh, hit) at checked);
                  }
                  | inr miss ↦ absurd (cc (rw (fresh, miss) at checked))
                ]
      ]
