-- ===== src/Sign.antt =====
-- crates/trace-sign/src/lib.rs: the check of a signed envelope. Base64, Ed25519 and serde_json are
-- parameters.
pub mod Envelopes
pub mod Canonical
pub mod Issuing
pub mod Reordering
use traceability.Base.{
  ℕ, List, Bool, String, Result, ok, err, ◌>>=◌, not, ◌==◌, str_eq, if◌then◌else◌, length,
}
use traceability.Core.Chain.{Bytes}

pub data SignError : Type 0 where
  serialise malformed_signature_text : (detail : String) → SignError
  malformed_signature_length : (got : ℕ) → SignError
  bad_signature : SignError
  unsupported_algorithm : (alg : String) → SignError

abbrev pub alg_ed25519 : String
alg_ed25519 = "ed25519"

pub record Envelope : Type 0 where
  pub alg : String
  pub payload_b64 : String
  pub signature_b64 : String
  pub key_id : String

-- What the code uses of base64, ed25519-dalek (with the public key it holds) and serde_json.
pub record Crates (Key T : Type 0) : Type 0 where
  pub decode : String → Result String Bytes
  pub checks : Key → Bytes → Bytes → Bool
  pub from_slice : Bytes → Result String T

-- `map_err`
unfoldable pub map_err : {A E E' : Type 0} → (E → E') → Result E A → Result E' A
map_err f (ok a) = ok a
map_err f (err e) = err (f e)

-- `sig_raw.as_slice().try_into()` for `[u8; 64]`
unfoldable pub signature_bytes : Bytes → Result SignError Bytes
signature_bytes sig_raw =
    if length sig_raw == 64 then ok sig_raw else err (malformed_signature_length (length sig_raw))

-- `TrustedKey::verify`
unfoldable pub verify : {Key T : Type 0} → Crates Key T → Key → Envelope → Result SignError T
verify c key env =
    if not (str_eq env.alg alg_ed25519)
    then err (unsupported_algorithm env.alg)
    else (map_err malformed_signature_text (c.decode env.payload_b64) >>= λ payload.
        map_err malformed_signature_text (c.decode env.signature_b64) >>= λ sig_raw.
        signature_bytes sig_raw >>= λ sig_bytes.
        if not (c.checks key payload sig_bytes)
        then err bad_signature
        else map_err serialise (c.from_slice payload))
