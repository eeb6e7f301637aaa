-- ===== src/Core/Chain.antt =====
-- crates/trace-core/src/hash.rs: the append-only hash chain of a unit. Texts stand as lists of bytes.
-- `sha256_hex`, the hex text of the SHA-256 digest, is a parameter; several `update` calls digest the
-- concatenation.
pub mod Tampering
use traceability.Base.{
  ℕ, zero, suc, ◌+◌, ◌/◌, ◌%◌, ◌^◌, Bool, true, false, not, ◌&&◌, List, [], ◌∷◌, ◌++◌, Option, none,
  some, Result, ok, err, ◌==◌, if◌then◌else◌, length, bytes_eq,
}
use traceability.Core.Error.{CoreError, hash_chain_broken, hash, payloads}

abbrev pub Bytes : Type 0
Bytes = List ℕ

abbrev pub replicate : ℕ → ℕ → Bytes
replicate zero b = []
replicate (suc n) b = b ∷ replicate n b

-- Sixty-four zeros.
unfoldable pub genesis : Bytes
genesis = replicate 64 b'0'

pub record ChainLink : Type 0 where
  pub seq : ℕ
  pub prev_hash : Bytes
  pub row_hash : Bytes

-- The low `k` bytes of a number, the highest first: `to_be_bytes` at 8.
unfoldable pub be_bytes : ℕ → ℕ → Bytes
be_bytes zero n = []
be_bytes (suc k) n = n / 256 ^ k % 256 ∷ be_bytes k n

-- What is digested for a row.
unfoldable pub row_input : Bytes → Bytes → Bytes
unfolding be_bytes
row_input prev_hash payload = prev_hash ++ (be_bytes 8 (length payload) ++ payload)

module _ (sha256_hex : Bytes → Bytes) where
  unfoldable pub row_hash : Bytes → Bytes → Bytes
  row_hash prev_hash payload = sha256_hex (row_input prev_hash payload)

  -- `seq` is a `u64`.
  unfoldable pub append : Option ChainLink → Bytes → ChainLink
  append (some t) payload = record {
    seq = (t.seq + 1) % 2 ^ 64;
    prev_hash = t.row_hash;
    row_hash = row_hash t.row_hash payload;
  }
  append none payload = record { seq = 0; prev_hash = genesis; row_hash = row_hash genesis payload }

  -- The loop of `verify`, over the zipped lists.
  unfoldable pub verify_rows : Bytes → List ChainLink → List Bytes → Result CoreError (Unit {0})
  verify_rows expected_prev (link ∷ links) (payload ∷ rest) =
      if not (bytes_eq link.prev_hash expected_prev)
      then err (hash_chain_broken link.seq (hash expected_prev) (hash link.prev_hash))
      else (let recomputed = row_hash link.prev_hash payload in
          if not (bytes_eq recomputed link.row_hash)
          then err (hash_chain_broken link.seq (hash recomputed) (hash link.row_hash))
          else verify_rows link.row_hash links rest)
  verify_rows expected_prev _ _ = ok tt

  unfoldable pub verify : List ChainLink → List Bytes → Result CoreError (Unit {0})
  verify links rows =
      if not (length links == length rows)
      then err (hash_chain_broken (length links) (payloads (length links)) (payloads (length rows)))
      else verify_rows genesis links rows

  -- A chain as it grows: each row is appended to the last link.
  unfoldable pub grow : Option ChainLink → List Bytes → List ChainLink
  grow tail [] = []
  grow tail (payload ∷ rest) = let link = append tail payload in link ∷ grow (some link) rest
