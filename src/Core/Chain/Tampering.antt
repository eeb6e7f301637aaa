-- ===== src/Core/Chain/Tampering.antt =====
-- What `verify` (crates/trace-core/src/hash.rs) establishes about a unit's history.
use traceability.Base.{
  ℕ, zero, suc, List, [], ◌∷◌, ◌++◌, Option, none, some, ok, ◌≡◌, refl, sym, ap, ◌∙◌, ◌≢◌, ◌⊎◌, inl,
  inr, arith, ◌==◌, length, Bool-cases, ==_iff, bytes_eq, bytes_eq_refl, eq_of_bytes_eq,
  append_split,
}
use traceability.Core.Chain.{
  Bytes, genesis, ChainLink, be_bytes, row_input, row_hash, append, verify_rows, verify, grow,
}

length-be_bytes : (k n : ℕ) → length (be_bytes k n) ≡ k
unfolding be_bytes
length-be_bytes zero n = refl
length-be_bytes (suc k) n = ap suc (length-be_bytes k n)

-- The length prefix keeps rows apart: from what is digested, and the length of the hash before, both
-- parts can be read back.
row_input_injective :
    (h h' p p' : Bytes)
    → length h ≡ length h'
    → row_input h p ≡ row_input h' p'
    → (h ≡ h') × (p ≡ p')
unfolding row_input
row_input_injective h h' p p' l e =
    let n = be_bytes 8 (length p) in
    let n' = be_bytes 8 (length p') in
    let (same, rest) = append_split h h' (n ++ p) (n' ++ p') l e in
    (
      same,
      (append_split n n' p p' (length-be_bytes 8 (length p) ∙ sym (length-be_bytes 8 (length p')))
          rest).1,
    )

length-genesis : length genesis ≡ 64
unfolding genesis
length-genesis = refl

module _ (sha256_hex : Bytes → Bytes) where
  -- Two different inputs with one digest.
  pub record Collision : Type 0 where
    pub left : Bytes
    pub right : Bytes
    pub differ : left ≢ right
    pub collide : sha256_hex left ≡ sha256_hex right

  -- The hash of the last row, from the payloads alone.
  unfoldable pub digest : Bytes → List Bytes → Bytes
  digest h [] = h
  digest h (p ∷ rest) = digest (row_hash sha256_hex h p) rest

  -- The hash that the last link of a chain carries.
  unfoldable pub last_hash : Bytes → List ChainLink → Bytes
  last_hash h [] = h
  last_hash h (link ∷ links) = last_hash link.row_hash links

  verify_rows-digest :
      (prev : Bytes) (links : List ChainLink) (rows : List Bytes)
      → length links ≡ length rows
      → verify_rows sha256_hex prev links rows ≡ ok tt
      → last_hash prev links ≡ digest prev rows
  unfolding verify_rows last_hash digest
  verify_rows-digest prev [] [] l h = refl
  verify_rows-digest prev [] (p ∷ rows) l h = absurd (omega arith)
  verify_rows-digest prev (link ∷ links) [] l h = absurd (omega arith)
  verify_rows-digest prev (link ∷ links) (p ∷ rows) l h =
      elim (Bool-cases (bytes_eq link.prev_hash prev)) [
        | inr unequal ↦ absurd (ground (arith, unequal, h))
        | inl equal ↦
            elim (Bool-cases (bytes_eq (row_hash sha256_hex link.prev_hash p) link.row_hash)) [
              | inr unequal ↦ absurd (ground (arith, equal, unequal, h))
              | inl same ↦
                  let at = eq_of_bytes_eq link.prev_hash prev equal in
                  let made =
                    eq_of_bytes_eq (row_hash sha256_hex link.prev_hash p) link.row_hash same in
                  verify_rows-digest link.row_hash links rows (omega arith)
                    (ground (arith, equal, same, h))
                  ∙ ap (λ x. digest x rows) (sym made ∙ ap (λ x. row_hash sha256_hex x p) at)
            ]
      ]

  -- Equal digests of two histories of one length: the histories are equal, or there is a collision.
  digest_injective :
      ((m : Bytes) → length (sha256_hex m) ≡ 64)
      → (h h' : Bytes) (rows rows' : List Bytes) → length h ≡ 64
      → length h' ≡ 64
      → length rows ≡ length rows'
      → digest h rows ≡ digest h' rows'
      → ((h ≡ h') × (rows ≡ rows')) ⊎ Collision
  unfolding digest row_hash
  digest_injective hex h h' [] [] a b l e = inl (e, refl)
  digest_injective hex h h' [] (p' ∷ rows') a b l e = absurd (omega arith)
  digest_injective hex h h' (p ∷ rows) [] a b l e = absurd (omega arith)
  digest_injective hex h h' (p ∷ rows) (p' ∷ rows') a b l e =
      let m = row_input h p in
      let m' = row_input h' p' in
      elim (digest_injective hex (row_hash sha256_hex h p) (row_hash sha256_hex h' p') rows rows'
        (hex m) (hex m') (omega arith) e) [
          | inr c ↦ inr c
          | inl (same, rest) ↦ elim (Bool-cases (bytes_eq m m')) [
            | inl equal ↦
                let (at, row) =
                  row_input_injective h h' p p' (a ∙ sym b) (eq_of_bytes_eq m m' equal) in
                inl (at, ap (λ x. x ∷ rows) row ∙ ap (λ x. p' ∷ x) rest)
            | inr unequal ↦ inr record {
              left = m;
              right = m';
              differ = λ q. absurd (ground (arith, unequal, ap (bytes_eq m) q, bytes_eq_refl m));
              collide = same;
            }
          ]
        ]

  -- What the next link has to name.
  unfoldable pub tail_hash : Option ChainLink → Bytes
  tail_hash none = genesis
  tail_hash (some t) = t.row_hash

  length-grow :
      (tail : Option ChainLink) (rows : List Bytes)
      → length (grow sha256_hex tail rows) ≡ length rows
  unfolding grow
  length-grow tail [] = refl
  length-grow tail (p ∷ rows) = ap suc (length-grow (some (append sha256_hex tail p)) rows)

  grow-verify_rows :
      (tail : Option ChainLink) (rows : List Bytes)
      → verify_rows sha256_hex (tail_hash tail) (grow sha256_hex tail rows) rows ≡ ok tt
  unfolding verify_rows grow tail_hash append
  grow-verify_rows none [] = refl
  grow-verify_rows (some t) [] = refl
  grow-verify_rows none (p ∷ rows) =
      let link = append sha256_hex none p in
      ground (
        arith,
        bytes_eq_refl genesis,
        bytes_eq_refl link.row_hash,
        grow-verify_rows (some link) rows,
      )
  grow-verify_rows (some t) (p ∷ rows) =
      let link = append sha256_hex (some t) p in
      ground (
        arith,
        bytes_eq_refl t.row_hash,
        bytes_eq_refl link.row_hash,
        grow-verify_rows (some link) rows,
      )

  verify-rows :
      (links : List ChainLink) (rows : List Bytes)
      → verify sha256_hex links rows ≡ ok tt
      → (length links ≡ length rows) × (verify_rows sha256_hex genesis links rows ≡ ok tt)
  unfolding verify
  verify-rows links rows h = elim (Bool-cases (length links == length rows)) [
    | inl equal ↦
        (ground (arith, ==_iff (length links) (length rows), equal), ground (arith, equal, h))
    | inr unequal ↦ absurd (ground (arith, unequal, h))
  ]

  -- Every chain that was grown by `append` verifies against its payloads.
  pub grow-verify : (rows : List Bytes) → verify sha256_hex (grow sha256_hex none rows) rows ≡ ok tt
  unfolding verify tail_hash
  grow-verify rows = ground (
    arith,
    length-grow none rows,
    ==_iff (length (grow sha256_hex none rows)) (length rows),
    grow-verify_rows none rows,
  )

  -- Where every digest has 64 bytes, two chains of one length that both verify and end in the same
  -- hash cover the same payloads, or two different inputs have one digest.
  pub verified-tamper_evident :
      (links links' : List ChainLink) (rows rows' : List Bytes)
      → ((m : Bytes) → length (sha256_hex m) ≡ 64)
      → verify sha256_hex links rows ≡ ok tt
      → verify sha256_hex links' rows' ≡ ok tt
      → length rows ≡ length rows'
      → last_hash genesis links ≡ last_hash genesis links'
      → (rows ≡ rows') ⊎ Collision
  verified-tamper_evident links links' rows rows' hex v v' l e =
      let (n, w) = verify-rows links rows v in
      let (n', w') = verify-rows links' rows' v' in
      let d = verify_rows-digest genesis links rows n w in
      let d' = verify_rows-digest genesis links' rows' n' w' in
      elim (digest_injective hex genesis genesis rows rows' length-genesis length-genesis l
        (sym d ∙ (e ∙ d'))) [ inl (_, same) ↦ inl same | inr c ↦ inr c ]
