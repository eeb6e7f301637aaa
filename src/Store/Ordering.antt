-- ===== src/Store/Ordering.antt =====
-- Links in the order of their positions: what `ORDER BY chain_seq` makes of two tables.
use traceability.Base.{
  ℕ, ◌+◌, ◌<◌, ◌^◌, true, false, List, [], ◌∷◌, ◌++◌, Option, none, some, ◌≡◌, refl, ap, arith, inl,
  inr, leb, All, length, Bool-cases,
}
use traceability.Core.Chain.{Bytes, ChainLink, append, grow}
use traceability.Store.{insert_link, order_links, last_or}

-- Every link stands before a position.
abbrev pub Below : ℕ → List ChainLink → Type 0
Below n links = All (λ (l : ChainLink). l.seq < n) links

insert_link-Below :
    (n : ℕ) (x : ChainLink) (links : List ChainLink)
    → Below n (insert_link x links)
    → (x.seq < n) × Below n links
insert_link-Below n x [] h = h
insert_link-Below n x (y ∷ links) h = elim (Bool-cases (leb x.seq y.seq)) [
  | inl before ↦ rw before at h
  | inr behind ↦
      let (first, rest) = rw behind at h in
      let (at, below) = insert_link-Below n x links rest in (at, (first, below))
]

insert_link-last :
    (x : ChainLink) (links : List ChainLink)
    → Below x.seq links
    → insert_link x links ≡ links ++ x ∷ []
insert_link-last x [] h = refl
insert_link-last x (y ∷ links) h =
    let behind : leb x.seq y.seq ≡ false = ground (arith, h.0) in
    rw behind (ap (◌∷◌ y) (insert_link-last x links h.1))

insert_link-append :
    (x y : ChainLink) (links : List ChainLink)
    → y.seq < x.seq
    → insert_link y (links ++ x ∷ []) ≡ insert_link y links ++ x ∷ []
insert_link-append x y [] h =
    let before : leb y.seq x.seq ≡ true = ground (arith, h) in rw before refl
insert_link-append x y (z ∷ links) h = elim (Bool-cases (leb y.seq z.seq)) [
  | inl before ↦ rw before refl
  | inr behind ↦ rw behind (ap (◌∷◌ z) (insert_link-append x y links h))
]

-- A link behind all the others comes last, wherever it stands.
pub order_links-last :
    (x : ChainLink) (xs ys : List ChainLink)
    → Below x.seq (order_links (xs ++ ys))
    → order_links (xs ++ x ∷ ys) ≡ order_links (xs ++ ys) ++ x ∷ []
unfolding order_links
order_links-last x [] ys h = insert_link-last x (order_links ys) h
order_links-last x (y ∷ xs) ys h =
    let (before, rest) = insert_link-Below x.seq y (order_links (xs ++ ys)) h in
    rw (order_links-last x xs ys rest) (insert_link-append x y (order_links (xs ++ ys)) before)

-- The position of the next link.
abbrev pub next_seq : Option ChainLink → ℕ
next_seq none = 0
next_seq (some tail) = tail.seq + 1

module _ (sha256_hex : Bytes → Bytes) where
  pub append-seq :
      (tail : Option ChainLink) (payload : Bytes)
      → next_seq tail < 2 ^ 64
      → (append sha256_hex tail payload).seq ≡ next_seq tail
  unfolding append
  append-seq none payload h = refl
  append-seq (some tail) payload h = omega (arith, h)

  -- A chain grows at its end.
  pub grow-append :
      (tail : Option ChainLink) (payloads : List Bytes) (payload : Bytes)
      → grow sha256_hex tail (payloads ++ payload ∷ [])
        ≡ grow sha256_hex tail payloads
          ++ append sha256_hex (last_or tail (grow sha256_hex tail payloads)) payload ∷ []
  unfolding grow
  grow-append tail [] payload = refl
  grow-append tail (q ∷ payloads) payload =
      ap (◌∷◌ (append sha256_hex tail q))
        (grow-append (some (append sha256_hex tail q)) payloads payload)

  pub next_seq-grow :
      (tail : Option ChainLink) (payloads : List Bytes)
      → next_seq tail + length payloads < 2 ^ 64
      → next_seq (last_or tail (grow sha256_hex tail payloads)) ≡ next_seq tail + length payloads
  unfolding grow
  next_seq-grow tail [] h = omega arith
  next_seq-grow tail (q ∷ payloads) h =
      let at = append-seq tail q (omega (arith, h)) in
      let deeper =
        next_seq-grow (some (append sha256_hex tail q)) payloads (omega (arith, h, at)) in
      omega (arith, at, deeper)

  pub grow-Below :
      (tail : Option ChainLink) (payloads : List Bytes)
      → next_seq tail + length payloads < 2 ^ 64
      → Below (next_seq tail + length payloads) (grow sha256_hex tail payloads)
  unfolding grow
  grow-Below tail [] h = tt
  grow-Below tail (q ∷ payloads) h =
      let at = append-seq tail q (omega (arith, h)) in
      let same : (append sha256_hex tail q).seq + 1 + length payloads
          ≡ next_seq tail + length (q ∷ payloads) =
        omega (arith, at) in
      (
        omega (arith, at),
        rw same at (grow-Below (some (append sha256_hex tail q)) payloads (omega (arith, h, at))),
      )
