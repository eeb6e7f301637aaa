-- ===== src/Samples/Chains.antt =====
-- Examples for the hash chain.
use traceability.Base.{◌%◌, length, List, [], ◌∷◌, none, ok, ◌≡◌, refl, ◌⊎◌}
use traceability.Core.Chain.{
  Bytes, replicate, genesis, be_bytes, row_input, row_hash, append, grow, verify,
}
use traceability.Core.Chain.Tampering.{last_hash, Collision, grow-verify, verified-tamper_evident}

-- A digest of 64 bytes that depends only on the length of what it digests.
abbrev length_digest : Bytes → Bytes
length_digest m = length m % 256 ∷ replicate 63 0

length_digest_size : (m : Bytes) → length (length_digest m) ≡ 64
length_digest_size m = refl

abbrev history : List Bytes
history = (1 ∷ []) ∷ (2 ∷ 3 ∷ []) ∷ []

abbrev forged : List Bytes
forged = (4 ∷ []) ∷ (5 ∷ 6 ∷ []) ∷ []

history_verifies : verify length_digest (grow length_digest none history) history ≡ ok tt
history_verifies = grow-verify length_digest history

forged_verifies : verify length_digest (grow length_digest none forged) forged ≡ ok tt
forged_verifies = grow-verify length_digest forged

same_end :
    last_hash length_digest genesis (grow length_digest none history)
    ≡ last_hash length_digest genesis (grow length_digest none forged)
unfolding last_hash grow append row_hash row_input be_bytes genesis
same_end = refl

verified-tamper_evident_example : (history ≡ forged) ⊎ Collision length_digest
verified-tamper_evident_example =
    verified-tamper_evident length_digest (grow length_digest none history)
      (grow length_digest none forged) history forged length_digest_size history_verifies
      forged_verifies refl same_end
