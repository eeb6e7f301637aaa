-- ===== src/Core/Route/Index.antt =====
-- `BTreeMap<OperationSeq, V>` as crates/trace-core/src/route.rs uses it: an association list in the
-- order of its keys, with the laws of each operation. Iteration runs through the list.
use traceability.Base.{
  ℕ, zero, suc, ◌+◌, ◌++◌, ◌≡◌, refl, false, List, [], ◌∷◌, Option, none, some, arith, ltb, ◌==◌,
  if◌then◌else◌, length,
}

abbrev pub Index {ℓ} : Type ℓ → Type ℓ
Index V = List (ℕ × V)

module _ {ℓ} {V : Type ℓ} where
  unfoldable pub get : ℕ → Index V → Option V
  get k [] = none
  get k ((j, w) ∷ m) = if j == k then some w else get k m

  -- `BTreeMap::insert`, which keeps the keys in ascending order.
  unfoldable pub insert : ℕ → V → Index V → Index V
  insert k v [] = (k, v) ∷ []
  insert k v ((j, w) ∷ m) =
      if ltb k j then (k, v) ∷ (j, w) ∷ m else if j == k then (k, v) ∷ m else (j, w) ∷ insert k v m

  -- A write through `get_mut`, at a key that is there.
  unfoldable pub write : ℕ → V → Index V → Index V
  write k v [] = []
  write k v ((j, w) ∷ m) = if j == k then (j, v) ∷ m else (j, w) ∷ write k v m

  pub get-insert :
      (k j : ℕ) (v : V) (m : Index V) → get j (insert k v m) ≡ (if k == j then some v else get j m)
  unfolding get insert
  get-insert k j v [] = refl
  get-insert k j v ((i, w) ∷ m) = ground (arith, get-insert k j v m)

  -- A write changes the value at its key, if the key is there, and no other.
  pub get-write_self :
      (k : ℕ) (v w : V) (m : Index V) → get k m ≡ some w → get k (write k v m) ≡ some v
  unfolding get write
  get-write_self k v w [] h = absurd (ground arith)
  get-write_self k v w ((i, u) ∷ m) h = ground (arith, get-write_self k v w m)

  pub get-write_ne :
      (k j : ℕ) (v : V) (m : Index V) → (k == j) ≡ false → get j (write k v m) ≡ get j m
  unfolding get write
  get-write_ne k j v [] h = refl
  get-write_ne k j v ((i, u) ∷ m) h = ground (arith, get-write_ne k j v m h)

  pub length-insert :
      (k : ℕ) (v : V) (m : Index V) → get k m ≡ none → length (insert k v m) ≡ suc (length m)
  unfolding get insert
  length-insert k v [] h = refl
  length-insert k v ((i, u) ∷ m) h = ground (arith, length-insert k v m)

  -- No key stands twice.
  abbrev pub IsUnique : Index V → Type ℓ
  IsUnique [] = Unit
  IsUnique ((k, v) ∷ m) = (get k m ≡ none) × IsUnique m

-- `count k xs`: how often `k` stands in the list.
unfoldable pub count : ℕ → List ℕ → ℕ
count k [] = 0
count k (x ∷ xs) = if x == k then suc (count k xs) else count k xs

pub count-append : (k : ℕ) (xs ys : List ℕ) → count k (xs ++ ys) ≡ count k xs + count k ys
unfolding count
count-append k [] ys = omega arith
count-append k (x ∷ xs) ys = ground (arith, count-append k xs ys)

-- 1 for zero and 0 for any other number, and the other way round.
abbrev pub is_zero : ℕ → ℕ
is_zero zero = 1
is_zero (suc n) = 0

abbrev pub is_pos : ℕ → ℕ
is_pos zero = 0
is_pos (suc n) = 1

-- The keys whose value is zero, in order, and the number of the other entries.
unfoldable pub zeros : Index ℕ → List ℕ
zeros [] = []
zeros ((k, d) ∷ m) = if d == 0 then k ∷ zeros m else zeros m

unfoldable pub positives : Index ℕ → List ℕ
positives [] = []
positives ((k, d) ∷ m) = if ltb 0 d then k ∷ positives m else positives m

-- 1 where the index has zero at `k`.
unfoldable pub zero_at : ℕ → Index ℕ → ℕ
unfolding get
zero_at k m = elim (get k m) [ none ↦ 0 | some d ↦ is_zero d ]

pub length-zeros-add-positives : (m : Index ℕ) → length (zeros m) + length (positives m) ≡ length m
unfolding zeros positives
length-zeros-add-positives [] = omega arith
length-zeros-add-positives ((k, d) ∷ m) = ground (arith, length-zeros-add-positives m)

count-zeros_absent : (k : ℕ) (m : Index ℕ) → get k m ≡ none → count k (zeros m) ≡ 0
unfolding get zeros count
count-zeros_absent k [] h = refl
count-zeros_absent k ((j, d) ∷ m) h = ground (arith, count-zeros_absent k m)

pub count-zeros : (k : ℕ) (m : Index ℕ) → IsUnique m → count k (zeros m) ≡ zero_at k m
unfolding get zeros count zero_at
count-zeros k [] u = refl
count-zeros k ((j, d) ∷ m) u = ground (arith, count-zeros k m u.1, count-zeros_absent j m u.0)

-- A write at a key moves the number of positive entries by what it changes there.
pub length-positives-write :
    (k v w : ℕ) (m : Index ℕ)
    → get k m ≡ some w
    → length (positives (write k v m)) + is_pos w ≡ length (positives m) + is_pos v
unfolding get write positives
length-positives-write k v w [] h = absurd (ground arith)
length-positives-write k v w ((j, d) ∷ m) h = ground (arith, length-positives-write k v w m)

pub zero_of_positives-nil :
    (k d : ℕ) (m : Index ℕ) → length (positives m) ≡ 0 → get k m ≡ some d → d ≡ 0
unfolding get positives
zero_of_positives-nil k d [] h g = absurd (ground arith)
zero_of_positives-nil k d ((j, e) ∷ m) h g = ground (arith, zero_of_positives-nil k d m)

pub positives-nil_of_zero :
    (m : Index ℕ) → IsUnique m → ((k d : ℕ) → get k m ≡ some d → d ≡ 0) → length (positives m) ≡ 0
unfolding get positives
positives-nil_of_zero [] u h = refl
positives-nil_of_zero ((j, e) ∷ m) u h =
    ground (arith, h j e, positives-nil_of_zero m u.1 (λ k d g. h k d (ground (arith, g, u.0))))

module _ {ℓ} {V : Type ℓ} where
  pub insert-IsUnique :
      (k : ℕ) (v : V) (m : Index V) → get k m ≡ none → IsUnique m → IsUnique (insert k v m)
  unfolding get insert
  insert-IsUnique k v [] h u = (refl, tt)
  insert-IsUnique k v ((j, w) ∷ m) h u = ground (arith, get-insert k j v m, insert-IsUnique k v m)

  pub write-IsUnique : (k : ℕ) (v : V) (m : Index V) → IsUnique m → IsUnique (write k v m)
  unfolding get write
  write-IsUnique k v [] u = tt
  write-IsUnique k v ((j, w) ∷ m) u = ground (arith, get-write_ne k j v m, write-IsUnique k v m u.1)
