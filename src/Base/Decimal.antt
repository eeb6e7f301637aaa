-- ===== src/Base/Decimal.antt =====
-- Numbers as `format!` writes them.
use Prim.Native.Nat.{ℕ, zero, suc, ◌+◌, ◌*◌, ◌-◌, ◌/◌, ◌%◌, ◌<◌}
use mathlib.Core.Path.{◌≡◌, refl, sym, ap, ◌∙◌}
use mathlib.Core.Logic.{inl, inr}
use mathlib.Core.Bool.{Bool, true, false, not, ◌&&◌}
use mathlib.Core.List.{List, [], ◌∷◌}
use native.Mathlib.Omega.{arith}
use traceability.Base.Tests.{ltb, ltb→lt, if◌then◌else◌, Bool-cases}
use traceability.Base.Lists.{all, is_empty}

-- The digits of a number in front of a text. They are fewer than the number and one.
digits_onto : ℕ → ℕ → List ℕ → List ℕ
digits_onto zero n rest = rest
digits_onto (suc fuel) n rest =
    if ltb n 10 then (48 + n) ∷ rest else digits_onto fuel (n / 10) ((48 + n % 10) ∷ rest)

pub decimal : ℕ → List ℕ
decimal n = digits_onto (suc n) n []

-- The number that digits stand for, behind what was read.
abbrev pub digits_value : List ℕ → ℕ → ℕ
digits_value [] n = n
digits_value (d ∷ rest) n = digits_value rest (n * 10 + (d - 48))

digits_onto-value :
    (fuel n : ℕ) (rest : List ℕ)
    → n < fuel
    → digits_value (digits_onto fuel n rest) 0 ≡ digits_value rest n
unfolding digits_onto
digits_onto-value zero n rest h = absurd (omega arith)
digits_onto-value (suc fuel) n rest h = elim (Bool-cases (ltb n 10)) [
  | inl small ↦ rw small (ap (digits_value rest) (omega arith))
  | inr large ↦
      let big : 9 < n = ground (arith, large) in
      rw large (
        digits_onto-value fuel (n / 10) ((48 + n % 10) ∷ rest) (omega (arith, big, h))
        ∙ ap (digits_value rest) (omega arith))
]

pub decimal-injective : (m n : ℕ) → decimal m ≡ decimal n → m ≡ n
unfolding decimal
decimal-injective m n h =
    sym (digits_onto-value (suc m) m [] (omega arith))
    ∙ ap (λ t. digits_value t 0) h
    ∙ digits_onto-value (suc n) n [] (omega arith)

abbrev pub is_digit : ℕ → Bool
is_digit c = not (ltb c 48) && ltb c 58

digits_onto-all :
    (fuel n : ℕ) (rest : List ℕ)
    → all is_digit rest ≡ true
    → all is_digit (digits_onto fuel n rest) ≡ true
unfolding digits_onto
digits_onto-all zero n rest h = h
digits_onto-all (suc fuel) n rest h = elim (Bool-cases (ltb n 10)) [
  | inl small ↦ rw small (push n (ltb→lt n 10 small))
  | inr large ↦
      rw large (digits_onto-all fuel (n / 10) ((48 + n % 10) ∷ rest) (push (n % 10) (omega arith)))
]
  where
    push : (d : ℕ) → d < 10 → all is_digit ((48 + d) ∷ rest) ≡ true
    push d small = ground (arith, small, h)

pub decimal-digits : (n : ℕ) → all is_digit (decimal n) ≡ true
unfolding decimal
decimal-digits n = digits_onto-all (suc n) n [] refl

pub decimal-value : (n : ℕ) → digits_value (decimal n) 0 ≡ n
unfolding decimal
decimal-value n = digits_onto-value (suc n) n [] (omega arith)

digits_onto-not_empty :
    (fuel n d : ℕ) (rest : List ℕ) → is_empty (digits_onto fuel n (d ∷ rest)) ≡ false
unfolding digits_onto
digits_onto-not_empty zero n d rest = refl
digits_onto-not_empty (suc fuel) n d rest = elim (Bool-cases (ltb n 10)) [
  | inl small ↦ rw small refl
  | inr large ↦ rw large (digits_onto-not_empty fuel (n / 10) (48 + n % 10) (d ∷ rest))
]

pub decimal-not_empty : (n : ℕ) → is_empty (decimal n) ≡ false
unfolding decimal digits_onto
decimal-not_empty n = elim (Bool-cases (ltb n 10)) [
  | inl small ↦ rw small refl
  | inr large ↦ rw large (digits_onto-not_empty n (n / 10) (48 + n % 10) [])
]
