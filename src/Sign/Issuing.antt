-- ===== src/Sign/Issuing.antt =====
-- What is signed is accepted (`Issuer::sign` and `TrustedKey::verify`, crates/trace-sign/src/lib.rs).
use traceability.Base.{ok, >>=-eq-ok, ok_inj, ◌≡◌, refl, sym, ap, ◌∙◌, true, length}
use traceability.Core.Chain.{Bytes}
use traceability.Sign.{serialise, Envelope, Crates, map_err, verify}
use traceability.Sign.Envelopes.{map_err-eq-ok, signed, envelope_verify_iff}
use traceability.Sign.Canonical.{Json, Signing, write_canonical, canonical_json, sign}

-- Documented of the crates: Base64 decodes what it encodes, and a signature has 64 bytes and verifies
-- under the key that belongs to the secret one.
pub record IsMatching {Secret Key T Scalar : Type 0} (s : Signing Secret Key T Scalar)
    (c : Crates Key T) : Type 0 where
  pub decode_encode : (bytes : Bytes) → c.decode (s.encode bytes) ≡ ok bytes
  pub signature_length : (secret : Secret) (bytes : Bytes) → length (s.sign secret bytes) ≡ 64
  pub checks_sign :
      (secret : Secret) (bytes : Bytes)
      → c.checks (s.verifying_key secret) bytes (s.sign secret bytes) ≡ true

-- serde reads the document from the JSON text of its value.
abbrev pub IsReadBack :
    {Secret Key T Scalar : Type 0} → Signing Secret Key T Scalar → Crates Key T → T → Type 0
IsReadBack {Scalar = Scalar} s c doc =
    (value : Json Scalar)
    → s.to_value doc ≡ ok value
    → c.from_slice (write_canonical s.encoders value) ≡ ok doc

module _ {Secret Key T Scalar : Type 0} (s : Signing Secret Key T Scalar) (c : Crates Key T)
    (matching : IsMatching s c) where
  -- The envelope that signing makes is accepted as the document that was signed.
  pub sign-verify :
      (secret : Secret) (doc : T) (env : Envelope)
      → IsReadBack s c doc
      → sign s secret doc ≡ ok env
      → verify c (s.verifying_key secret) env ≡ ok doc
  unfolding sign canonical_json
  sign-verify secret doc env reads h =
      let (payload, p, made) = >>=-eq-ok (canonical_json s doc) _ h in
      let (value, v, written) = >>=-eq-ok (map_err serialise (s.to_value doc)) _ p in
      let text : write_canonical s.encoders value ≡ payload = ok_inj written in
      rw (sym (ok_inj made)) (
        (envelope_verify_iff c (s.verifying_key secret) _ doc).1 (
          refl,
          signed payload (s.sign secret payload) (matching.decode_encode payload)
              (matching.decode_encode (s.sign secret payload))
              (matching.signature_length secret payload) (matching.checks_sign secret payload)
              (ap c.from_slice (sym text)
                ∙ reads value ((map_err-eq-ok serialise (s.to_value doc)).0 v)),
        ))
