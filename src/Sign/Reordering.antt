-- ===== src/Sign/Reordering.antt =====
-- The text that is signed does not depend on the order in which members stand
-- (`write_canonical`, crates/trace-sign/src/lib.rs).
use traceability.Base.{
  true, false, List, [], ◌∷◌, ◌≡◌, ◌≢◌, refl, sym, ap, ◌∙◌, inl, inr, ◌==◌, Bool-cases, arith,
  ==_iff,
}
use traceability.Core.Chain.{Bytes}
use traceability.Sign.Canonical.{
  Json, object, array, other, Members, no_members, member, Items, no_items, item, bytes_less,
  insert_sorted, Encoders, write_canonical, sorted_members, write_items,
}

-- The same document: members may stand in another order, at any depth.
mutual
  pub data IsReordered {Scalar : Type 0} : Json Scalar → Json Scalar → Type 0 where
    same_scalar : (s t : Scalar) → s ≡ t → IsReordered (other s) (other t)
    objects : (m n : Members Scalar) → AreReordered m n → IsReordered (object m) (object n)
    arrays : (m n : Items Scalar) → AreMatched m n → IsReordered (array m) (array n)

  pub data AreReordered {Scalar : Type 0} : Members Scalar → Members Scalar → Type 0 where
    none_left : AreReordered no_members no_members
    kept :
        (k : Bytes) (v w : Json Scalar) (m n : Members Scalar)
        → IsReordered v w
        → AreReordered m n
        → AreReordered (member k v m) (member k w n)
    swapped :
        (k l : Bytes) (v w : Json Scalar) (m : Members Scalar)
        → k ≢ l
        → AreReordered (member k v (member l w m)) (member l w (member k v m))
    composed : (m n o : Members Scalar) → AreReordered m n → AreReordered n o → AreReordered m o

  pub data AreMatched {Scalar : Type 0} : Items Scalar → Items Scalar → Type 0 where
    no_more : AreMatched no_items no_items
    next :
        (v w : Json Scalar) (m n : Items Scalar)
        → IsReordered v w
        → AreMatched m n
        → AreMatched (item v m) (item w n)

less-asym : (a b : Bytes) → bytes_less a b ≡ true → bytes_less b a ≡ false
unfolding bytes_less
less-asym [] [] h = cc
less-asym [] (y ∷ b) h = refl
less-asym (x ∷ a) [] h = cc
less-asym (x ∷ a) (y ∷ b) h = elim (Bool-cases (x == y)) [
  | inl same ↦
      let back : y == x ≡ true = ground (arith, same) in rw back (less-asym a b (rw same at h))
  | inr other_head ↦
      let back : y == x ≡ false = ground (arith, other_head) in
      rw back (let below = rw other_head at h in ground (arith, below))
]

less-total : (a b : Bytes) → bytes_less a b ≡ false → bytes_less b a ≡ false → a ≡ b
unfolding bytes_less
less-total [] [] h g = refl
less-total [] (y ∷ b) h g = cc
less-total (x ∷ a) [] h g = cc
less-total (x ∷ a) (y ∷ b) h g = elim (Bool-cases (x == y)) [
  | inl same ↦
      let back : y == x ≡ true = ground (arith, same) in
      let tails = less-total a b (rw same at h) (rw back at g) in
      rw ((==_iff x y).0 same, tails) refl
  | inr other_head ↦
      let back : y == x ≡ false = ground (arith, other_head) in
      let h' = rw other_head at h in
      let g' = rw back at g in absurd (ground (arith, other_head, h', g'))
]

less_trans : (a b c : Bytes) → bytes_less a b ≡ true → bytes_less b c ≡ true → bytes_less a c ≡ true
unfolding bytes_less
less_trans [] [] c h g = cc
less_trans [] (y ∷ b) [] h g = cc
less_trans [] (y ∷ b) (z ∷ c) h g = refl
less_trans (x ∷ a) [] c h g = cc
less_trans (x ∷ a) (y ∷ b) [] h g = cc
less_trans (x ∷ a) (y ∷ b) (z ∷ c) h g = elim (Bool-cases (x == y)) [
  | inl xy ↦ elim (Bool-cases (y == z)) [
    | inl yz ↦
        let xz : x == z ≡ true = ground (arith, xy, yz) in
        rw xz (less_trans a b c (rw xy at h) (rw yz at g))
    | inr yz ↦
        let xz : x == z ≡ false = ground (arith, xy, yz) in
        let g' = rw yz at g in rw xz (ground (arith, xy, g'))
  ]
  | inr xy ↦ elim (Bool-cases (y == z)) [
    | inl yz ↦
        let xz : x == z ≡ false = ground (arith, xy, yz) in
        let h' = rw xy at h in rw xz (ground (arith, yz, h'))
    | inr yz ↦
        let h' = rw xy at h in
        let g' = rw yz at g in
        let xz : x == z ≡ false = ground (arith, h', g') in rw xz (ground (arith, h', g'))
  ]
]

not-less : (a b c : Bytes) → bytes_less b c ≡ true → bytes_less a c ≡ false → bytes_less a b ≡ false
not-less a b c h g = elim (Bool-cases (bytes_less a b)) [
  | inl below ↦ let above = less_trans a b c below h in cc
  | inr d ↦ d
]

insert-front :
    (k x q t : Bytes) (r : List (Bytes × Bytes))
    → bytes_less k q ≡ true
    → insert_sorted k x ((q, t) ∷ r) ≡ (k, x) ∷ (q, t) ∷ r
unfolding insert_sorted
insert-front k x q t r h = rw h refl

insert_second :
    (k l x y : Bytes) (q : Bytes × Bytes) (r : List (Bytes × Bytes))
    → k ≢ l
    → bytes_less k q.0 ≡ true
    → bytes_less l q.0 ≡ true
    → insert_sorted k x ((l, y) ∷ q ∷ r) ≡ insert_sorted l y ((k, x) ∷ q ∷ r)
unfolding insert_sorted
insert_second k l x y (q, t) r d hk hl = elim (Bool-cases (bytes_less k l)) [
  | inl before ↦ rw (before, less-asym k l before, hl) refl
  | inr not_before ↦ elim (Bool-cases (bytes_less l k)) [
    | inl after ↦ rw (not_before, after, hk) refl
    | inr not_after ↦ absurd (d (less-total k l not_before not_after))
  ]
]

insert-commutes :
    (k l x y : Bytes) (r : List (Bytes × Bytes))
    → k ≢ l
    → insert_sorted k x (insert_sorted l y r) ≡ insert_sorted l y (insert_sorted k x r)
unfolding insert_sorted
insert-commutes k l x y [] d = elim (Bool-cases (bytes_less k l)) [
  | inl before ↦ rw (before, less-asym k l before) refl
  | inr not_before ↦ elim (Bool-cases (bytes_less l k)) [
    | inl after ↦ rw (not_before, after) refl
    | inr not_after ↦ absurd (d (less-total k l not_before not_after))
  ]
]
insert-commutes k l x y ((q, t) ∷ r) d = elim (Bool-cases (bytes_less l q)) [
  | inl lq ↦ elim (Bool-cases (bytes_less k q)) [
    | inl kq ↦
        ap (insert_sorted k x) (insert-front l y q t r lq)
        ∙ insert_second k l x y (q, t) r d kq lq
        ∙ ap (insert_sorted l y) (sym (insert-front k x q t r kq))
    | inr kq ↦ rw (lq, kq, not-less k l q lq kq, lq) refl
  ]
  | inr lq ↦ elim (Bool-cases (bytes_less k q)) [
    | inl kq ↦ rw (lq, kq, not-less l k q kq lq, lq) refl
    | inr kq ↦ rw (lq, kq, insert-commutes k l x y r d, lq) refl
  ]
]

module _ {Scalar : Type 0} (encoders : Encoders Scalar) where
  mutual
    unfolding write_canonical

    text-same :
        (a b : Json Scalar)
        → IsReordered a b
        → write_canonical encoders a ≡ write_canonical encoders b
    text-same a b (same_scalar s t e) = ap encoders.show e
    text-same a b (objects m n h) = rw (sorted_members-same m n h) refl
    text-same a b (arrays m n h) = rw (write_items-same m n h) refl

    sorted_members-same :
        (m n : Members Scalar)
        → AreReordered m n
        → sorted_members encoders m ≡ sorted_members encoders n
    sorted_members-same m n none_left = refl
    sorted_members-same m n (kept k v w m' n' h t) =
        rw (text-same v w h, sorted_members-same m' n' t) refl
    sorted_members-same m n (swapped k l v w m' d) =
        insert-commutes k l (write_canonical encoders v) (write_canonical encoders w)
          (sorted_members encoders m') d
    sorted_members-same m n (composed m' o n' h t) =
        sorted_members-same m' o h ∙ sorted_members-same o n' t

    write_items-same :
        (m n : Items Scalar) → AreMatched m n → write_items encoders m ≡ write_items encoders n
    write_items-same m n no_more = refl
    write_items-same m n (next v w m' n' h t) = rw (text-same v w h, write_items-same m' n' t) refl

  -- Documents that differ in the order of their members, at any depth, have one canonical text.
  pub write_canonical-same :
      (a b : Json Scalar)
      → IsReordered a b
      → write_canonical encoders a ≡ write_canonical encoders b
  write_canonical-same = text-same
