-- ===== src/Sign/Canonical.antt =====
-- crates/trace-sign/src/lib.rs: the bytes that are signed, and the signing. serde_json's encoders,
-- Base64, Ed25519, SHA-256 and hex are parameters.
use traceability.Base.{
  String, Bool, true, false, List, [], ◌∷◌, ◌++◌, Result, ok, ◌>>=◌, ltb, ◌==◌, if◌then◌else◌, take,
}
use traceability.Core.Chain.{Bytes}
use traceability.Sign.{SignError, serialise, Envelope, alg_ed25519, map_err}

-- `serde_json::Value`. `Scalar` is a null, a truth value, a number or a string; a key is the bytes of
-- its text. The members stand in the order in which the map holds them.
mutual
  pub data Json (Scalar : Type 0) : Type 0 where
    object : (members : Members Scalar) → Json Scalar
    array : (items : Items Scalar) → Json Scalar
    other : (scalar : Scalar) → Json Scalar

  pub data Members (Scalar : Type 0) : Type 0 where
    no_members : Members Scalar
    member : (key : Bytes) → (value : Json Scalar) → (rest : Members Scalar) → Members Scalar

  pub data Items (Scalar : Type 0) : Type 0 where
    no_items : Items Scalar
    item : (value : Json Scalar) → (rest : Items Scalar) → Items Scalar

-- The order of texts: by bytes.
unfoldable pub bytes_less : Bytes → Bytes → Bool
bytes_less [] [] = false
bytes_less [] (b ∷ bs) = true
bytes_less (a ∷ as') [] = false
bytes_less (a ∷ as') (b ∷ bs) = if a == b then bytes_less as' bs else ltb a b

-- `sort_unstable` of the keys, each with what is written for it.
unfoldable pub insert_sorted : Bytes → Bytes → List (Bytes × Bytes) → List (Bytes × Bytes)
insert_sorted key text [] = (key, text) ∷ []
insert_sorted key text ((k, t) ∷ rest) =
    if bytes_less key k then (key, text) ∷ (k, t) ∷ rest else (k, t) ∷ insert_sorted key text rest

abbrev pub separated : List Bytes → Bytes
separated [] = []
separated (text ∷ []) = text
separated (text ∷ next ∷ rest) = text ++ b',' ∷ separated (next ∷ rest)

-- serde_json's encoding of a scalar and of a key.
pub record Encoders (Scalar : Type 0) : Type 0 where
  pub show : Scalar → Bytes
  pub quote : Bytes → Bytes

module _ {Scalar : Type 0} (encoders : Encoders Scalar) where
  abbrev pub write_members : List (Bytes × Bytes) → List Bytes
  write_members [] = []
  write_members ((key, text) ∷ rest) = (encoders.quote key ++ b':' ∷ text) ∷ write_members rest

  unfoldable mutual
    pub write_canonical : Json Scalar → Bytes
    write_canonical (object members) =
        b'{' ∷ (separated (write_members (sorted_members members)) ++ b'}' ∷ [])
    write_canonical (array items) = b'[' ∷ (separated (write_items items) ++ b']' ∷ [])
    write_canonical (other scalar) = encoders.show scalar

    pub sorted_members : Members Scalar → List (Bytes × Bytes)
    sorted_members no_members = []
    sorted_members (member key value rest) =
        insert_sorted key (write_canonical value) (sorted_members rest)

    pub write_items : Items Scalar → List Bytes
    write_items no_items = []
    write_items (item value rest) = write_canonical value ∷ write_items rest

-- What the code uses of serde, base64, ed25519-dalek, sha2 and hex to sign.
pub record Signing (Secret Key T Scalar : Type 0) : Type 0 where
  pub encoders : Encoders Scalar
  pub to_value : T → Result String (Json Scalar)
  pub encode : Bytes → String
  pub sign : Secret → Bytes → Bytes
  pub verifying_key : Secret → Key
  pub to_bytes : Key → Bytes
  pub sha256 : Bytes → Bytes
  pub hex : Bytes → String

module _ {Secret Key T Scalar : Type 0} (s : Signing Secret Key T Scalar) where
  unfoldable pub canonical_json : T → Result SignError Bytes
  canonical_json doc =
      map_err serialise (s.to_value doc) >>= λ value. ok (write_canonical s.encoders value)

  unfoldable pub short_key_id : Key → String
  short_key_id key = s.hex (take 4 (s.sha256 (s.to_bytes key)))

  -- `Issuer::sign`
  unfoldable pub sign : Secret → T → Result SignError Envelope
  sign secret doc = canonical_json doc >>= λ payload. ok record {
    alg = alg_ed25519;
    payload_b64 = s.encode payload;
    signature_b64 = s.encode (s.sign secret payload);
    key_id = short_key_id (s.verifying_key secret);
  }
