-- ===== src/Sign/Envelopes.antt =====
-- What a successful check of an envelope (`TrustedKey::verify`, crates/trace-sign/src/lib.rs) means.
use traceability.Base.{
  true, not, Result, ok, err, >>=-eq-ok, ◌≡◌, refl, ap, ◌∙◌, ◌↔◌, inl, inr, arith, ◌==◌, str_eq,
  str_eq_iff, if◌then◌else◌, Bool-cases, length,
}
use traceability.Core.Chain.{Bytes}
use traceability.Sign.{
  serialise, malformed_signature_text, bad_signature, alg_ed25519, Envelope, Crates, map_err,
  signature_bytes, verify,
}

pub map_err-eq-ok :
    {A E E' : Type 0} (f : E → E') (r : Result E A) {a : A} → (map_err f r ≡ ok a) ↔ (r ≡ ok a)
unfolding map_err
map_err-eq-ok f (ok a) = (λ h. cc, λ h. cc)
map_err-eq-ok f (err e) = (λ h. cc, λ h. cc)

signature_bytes-eq-ok : (s t : Bytes) → (signature_bytes s ≡ ok t) ↔ ((length s ≡ 64) × (s ≡ t))
unfolding signature_bytes
signature_bytes-eq-ok s t = elim (Bool-cases (length s == 64)) [
  | inl is64 ↦
      (λ h. (ground (arith, is64), ground (arith, is64, h)), λ (l, e). ground (arith, is64, e))
  | inr other ↦
      (λ h. absurd (ground (arith, other, h)), λ (l, e). absurd (ground (arith, other, l)))
]

-- The bytes that the envelope carries are signed by the holder of the key, and are the document.
pub data IsSigned {Key T : Type 0} (c : Crates Key T) (key : Key) (env : Envelope) (doc : T)
    : Type 0 where
  signed :
      (payload signature : Bytes)
      → c.decode env.payload_b64 ≡ ok payload
      → c.decode env.signature_b64 ≡ ok signature
      → length signature ≡ 64
      → c.checks key payload signature ≡ true
      → c.from_slice payload ≡ ok doc
      → IsSigned c key env doc

-- An envelope is accepted as a document exactly if it names Ed25519, both its texts decode, the
-- signature has 64 bytes and verifies under the key over the decoded payload, and the document is what
-- that same payload deserialises to.
pub envelope_verify_iff :
    {Key T : Type 0} (c : Crates Key T) (key : Key) (env : Envelope) (doc : T)
    → (verify c key env ≡ ok doc) ↔ ((env.alg ≡ alg_ed25519) × IsSigned c key env doc)
unfolding verify
envelope_verify_iff c key env doc = (to, from)
  where
    accepted :
        (payload bytes : Bytes)
        → (if not (c.checks key payload bytes)
            then err bad_signature
            else map_err serialise (c.from_slice payload))
          ≡ ok doc
        → (c.checks key payload bytes ≡ true) × (c.from_slice payload ≡ ok doc)
    accepted payload bytes h = elim (Bool-cases (c.checks key payload bytes)) [
      | inl good ↦ (good, (map_err-eq-ok serialise (c.from_slice payload)).0 (rw good at h))
      | inr bad ↦ absurd (ground (arith, bad, h))
    ]

    to : verify c key env ≡ ok doc → (env.alg ≡ alg_ed25519) × IsSigned c key env doc
    to h = elim (Bool-cases (str_eq env.alg alg_ed25519)) [
      | inr other ↦ absurd (ground (arith, other, h))
      | inl known ↦
          let (payload, d, h1) =
            >>=-eq-ok (map_err malformed_signature_text (c.decode env.payload_b64)) _
              (rw known at h) in
          let (raw, s, h2) =
            >>=-eq-ok (map_err malformed_signature_text (c.decode env.signature_b64)) _ h1 in
          let (bytes, l, h3) = >>=-eq-ok (signature_bytes raw) _ h2 in
          let (size, same) = (signature_bytes-eq-ok raw bytes).0 l in
          let (good, read) = accepted payload bytes h3 in
          (
            (str_eq_iff env.alg alg_ed25519).0 known,
            signed payload raw
                ((map_err-eq-ok malformed_signature_text (c.decode env.payload_b64)).0 d)
                ((map_err-eq-ok malformed_signature_text (c.decode env.signature_b64)).0 s) size
                (ap (c.checks key payload) same ∙ good) read,
          )
    ]

    from : (env.alg ≡ alg_ed25519) × IsSigned c key env doc → verify c key env ≡ ok doc
    from (known, signed payload signature d s l k r) =
        rw
          (
            (str_eq_iff env.alg alg_ed25519).1 known,
            (map_err-eq-ok malformed_signature_text (c.decode env.payload_b64)).1 d,
            (map_err-eq-ok malformed_signature_text (c.decode env.signature_b64)).1 s,
            (signature_bytes-eq-ok signature signature).1 (l, refl),
            k,
            (map_err-eq-ok serialise (c.from_slice payload)).1 r,
          )
          refl
