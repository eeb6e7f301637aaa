-- ===== src/Base/Texts.antt =====
-- Texts as lists of bytes.
use Prim.Native.Nat.{ℕ, zero, suc}
use mathlib.Core.Path.{◌≡◌, refl}
use mathlib.Core.Bool.{Bool, true, false, not, ◌&&◌}
use mathlib.Core.List.{List, [], ◌∷◌, ◌++◌}
use native.Mathlib.Omega.{arith}
use traceability.Base.Tests.{◌==◌}
use traceability.Base.Lists.{all, length}

abbrev pub take {ℓ} : {A : Type ℓ} → ℕ → List A → List A
take zero xs = []
take (suc n) [] = []
take (suc n) (x ∷ xs) = x ∷ take n xs

-- Equality of texts.
unfoldable pub bytes_eq : List ℕ → List ℕ → Bool
bytes_eq [] [] = true
bytes_eq (a ∷ as') (b ∷ bs) = a == b && bytes_eq as' bs
bytes_eq _ _ = false

pub bytes_eq_refl : (a : List ℕ) → bytes_eq a a ≡ true
unfolding bytes_eq
bytes_eq_refl [] = refl
bytes_eq_refl (a ∷ as') = ground (arith, bytes_eq_refl as')

pub eq_of_bytes_eq : (a b : List ℕ) → bytes_eq a b ≡ true → a ≡ b
unfolding bytes_eq
eq_of_bytes_eq [] [] h = refl
eq_of_bytes_eq (a ∷ as') (b ∷ bs) h = ground (arith, h, eq_of_bytes_eq as' bs)
eq_of_bytes_eq _ _ h = cc

-- The byte does not occur.
abbrev pub lacks : ℕ → List ℕ → Bool
lacks b text = all (λ x. not (x == b)) text

-- Lists that agree as a whole agree part by part, where the first parts are of one length.
pub append_split : (a b c d : List ℕ) → length a ≡ length b → a ++ c ≡ b ++ d → (a ≡ b) × (c ≡ d)
append_split [] [] c d h e = (refl, e)
append_split [] (y ∷ b) c d h e = absurd (omega arith)
append_split (x ∷ a) [] c d h e = absurd (omega arith)
append_split (x ∷ a) (y ∷ b) c d h e =
    let (p, q) = append_split a b c d (omega arith) (ground (arith, e)) in (ground (arith, e, p), q)

-- A separator that occurs in neither part tells where the parts end.
pub separator_split :
    (sep : ℕ) (a b c d : List ℕ)
    → lacks sep a ≡ true
    → lacks sep b ≡ true
    → a ++ sep ∷ c ≡ b ++ sep ∷ d
    → (a ≡ b) × (c ≡ d)
separator_split sep [] [] c d h k e = (refl, ground (arith, e))
separator_split sep [] (y ∷ b) c d h k e = absurd (ground (arith, e, k))
separator_split sep (x ∷ a) [] c d h k e = absurd (ground (arith, e, h))
separator_split sep (x ∷ a) (y ∷ b) c d h k e =
    let (p, q) =
      separator_split sep a b c d (ground (arith, h)) (ground (arith, k)) (ground (arith, e)) in
    (ground (arith, e, p), q)
