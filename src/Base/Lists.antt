-- ===== src/Base/Lists.antt =====
-- Lists over the native numbers, under the library's names, with the tests that the code makes.
use Prim.Native.Nat.{ℕ, suc, ◌+◌}
use mathlib.Core.Path.{◌≡◌, refl, ap}
use mathlib.Core.Bool.{Bool, true, false, ◌&&◌, ◌||◌}
use mathlib.Core.Logic.{inl, inr}
use mathlib.Core.Option.{Option, none, some}
use mathlib.Core.List.{List, [], ◌∷◌, ◌++◌, map, Memᴰ}
use native.Mathlib.Omega.{arith}
use traceability.Base.Tests.{if◌then◌else◌, Bool-cases}

module _ {ℓ} {A : Type ℓ} where
  abbrev pub length : List A → ℕ
  length [] = 0
  length (x ∷ xs) = suc (length xs)

  -- `Iterator::filter`, `find`, `any` and `all`, by a Boolean test.
  abbrev pub filter : (A → Bool) → List A → List A
  filter p [] = []
  filter p (x ∷ xs) = if p x then x ∷ filter p xs else filter p xs

  abbrev pub find? : (A → Bool) → List A → Option A
  find? p [] = none
  find? p (x ∷ xs) = if p x then some x else find? p xs

  abbrev pub any : (A → Bool) → List A → Bool
  any p [] = false
  any p (x ∷ xs) = p x || any p xs

  abbrev pub all : (A → Bool) → List A → Bool
  all p [] = true
  all p (x ∷ xs) = p x && all p xs

  abbrev pub is_empty : List A → Bool
  is_empty [] = true
  is_empty (x ∷ xs) = false

  -- A predicate of every element, by recursion, so that it computes to a tuple.
  abbrev pub All {κ} : (A → Type κ) → List A → Type κ
  All P [] = Unit
  All P (x ∷ xs) = P x × All P xs

  pub length-append : (xs ys : List A) → length (xs ++ ys) ≡ length xs + length ys
  length-append [] ys = omega arith
  length-append (x ∷ xs) ys = omega (arith, length-append xs ys)

module _ {ℓ} {A : Type ℓ} where
  pub All-get {κ} : (P : A → Type κ) {x : A} (xs : List A) → All P xs → Memᴰ x xs → P x
  All-get P [] h m = elim m [ ]
  All-get P (y ∷ ys) h (Memᴰ.head e) = rw e h.0
  All-get P (y ∷ ys) h (Memᴰ.tail m) = All-get P ys h.1 m

  pub All-intro {κ} : (P : A → Type κ) (xs : List A) → ((x : A) → Memᴰ x xs → P x) → All P xs
  All-intro P [] f = tt
  All-intro P (x ∷ xs) f = (f x (Memᴰ.head refl), All-intro P xs (λ y m. f y (Memᴰ.tail m)))

  pub mem-filter :
      {x : A} (p : A → Bool) (xs : List A) → Memᴰ x xs → p x ≡ true → Memᴰ x (filter p xs)
  mem-filter p [] m h = elim m [ ]
  mem-filter {x} p (y ∷ ys) (Memᴰ.head e) h = let h' : p y ≡ true = rw e at h in rw h' (Memᴰ.head e)
  mem-filter {x} p (y ∷ ys) (Memᴰ.tail m) h = elim (Bool-cases (p y)) [
    | inl kept ↦ rw kept (Memᴰ.tail (mem-filter p ys m h))
    | inr dropped ↦ rw dropped (mem-filter p ys m h)
  ]

  pub mem_of_filter :
      {x : A} (p : A → Bool) (xs : List A) → Memᴰ x (filter p xs) → Memᴰ x xs × (p x ≡ true)
  mem_of_filter p [] m = elim m [ ]
  mem_of_filter {x} p (y ∷ ys) m = elim (Bool-cases (p y)) [
    | inl kept ↦ at_kept kept (mem_of_filter p ys) (rw kept at m)
    | inr dropped ↦ let (m', h) = mem_of_filter p ys (rw dropped at m) in (Memᴰ.tail m', h)
  ]
    where
      at_kept :
          p y ≡ true
          → (Memᴰ x (filter p ys) → Memᴰ x ys × (p x ≡ true))
          → Memᴰ x (y ∷ filter p ys)
          → Memᴰ x (y ∷ ys) × (p x ≡ true)
      at_kept kept rec (Memᴰ.head e) = (Memᴰ.head e, rw e kept)
      at_kept kept rec (Memᴰ.tail m') = let (m'', h) = rec m' in (Memᴰ.tail m'', h)

  pub all-eq-false :
      (p : A → Bool) (xs : List A) → all p xs ≡ false → (x : A) × Memᴰ x xs × (p x ≡ false)
  all-eq-false p [] h = cc
  all-eq-false p (x ∷ xs) h = elim (Bool-cases (p x)) [
    | inl good ↦
        let (y, m, bad) = all-eq-false p xs (ground (arith, good, h)) in (y, Memᴰ.tail m, bad)
    | inr bad ↦ (x, Memᴰ.head refl, bad)
  ]

  pub all-intro :
      (p : A → Bool) (xs : List A) → ((x : A) → Memᴰ x xs → p x ≡ true) → all p xs ≡ true
  all-intro p [] f = refl
  all-intro p (x ∷ xs) f =
      ground (arith, f x (Memᴰ.head refl), all-intro p xs (λ y m. f y (Memᴰ.tail m)))

  pub all-get : {x : A} (p : A → Bool) (xs : List A) → all p xs ≡ true → Memᴰ x xs → p x ≡ true
  all-get p [] h m = elim m [ ]
  all-get p (y ∷ ys) h (Memᴰ.head e) = ground (arith, h, e)
  all-get p (y ∷ ys) h (Memᴰ.tail m) = all-get p ys (ground (arith, h)) m

  pub find?-eq-some :
      (p : A → Bool) (xs : List A) {x : A} → find? p xs ≡ some x → Memᴰ x xs × (p x ≡ true)
  find?-eq-some p [] h = absurd (ground (arith, h))
  find?-eq-some p (y ∷ ys) h = elim (Bool-cases (p y)) [
    | inl hit ↦ (Memᴰ.head (ground (arith, hit, h)), ground (arith, hit, h))
    | inr miss ↦ let (m, e) = find?-eq-some p ys (ground (arith, miss, h)) in (Memᴰ.tail m, e)
  ]

  pub find?-eq-none :
      {x : A} (p : A → Bool) (xs : List A) → find? p xs ≡ none → Memᴰ x xs → p x ≡ false
  find?-eq-none p [] h m = elim m [ ]
  find?-eq-none p (y ∷ ys) h (Memᴰ.head e) = ground (arith, h, e)
  find?-eq-none p (y ∷ ys) h (Memᴰ.tail m) = find?-eq-none p ys (ground (arith, h)) m

pub mem-map {ℓ κ} :
    {A : Type ℓ} {B : Type κ} (f : A → B) {x : A} (xs : List A) → Memᴰ x xs → Memᴰ (f x) (map f xs)
mem-map f [] m = elim m [ ]
mem-map f (y ∷ ys) (Memᴰ.head e) = Memᴰ.head (ap f e)
mem-map f (y ∷ ys) (Memᴰ.tail m) = Memᴰ.tail (mem-map f ys m)

module _ {ℓ} {A : Type ℓ} where
  pub filter-empty :
      {x : A} (p : A → Bool) (xs : List A) → is_empty (filter p xs) ≡ true → Memᴰ x xs → p x ≡ false
  filter-empty p [] h m = elim m [ ]
  filter-empty p (y ∷ ys) h (Memᴰ.head e) = ground (arith, h, e)
  filter-empty p (y ∷ ys) h (Memᴰ.tail m) = filter-empty p ys (ground (arith, h)) m

  pub empty-filter :
      (p : A → Bool) (xs : List A)
      → ((x : A) → Memᴰ x xs → p x ≡ false)
      → is_empty (filter p xs) ≡ true
  empty-filter p [] f = refl
  empty-filter p (y ∷ ys) f =
      ground (arith, f y (Memᴰ.head refl), empty-filter p ys (λ x m. f x (Memᴰ.tail m)))

  pub find?-none :
      (p : A → Bool) (xs : List A) → ((x : A) → Memᴰ x xs → p x ≡ false) → find? p xs ≡ none
  find?-none p [] f = refl
  find?-none p (y ∷ ys) f =
      ground (arith, f y (Memᴰ.head refl), find?-none p ys (λ x m. f x (Memᴰ.tail m)))
