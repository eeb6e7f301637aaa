-- ===== src/Base/Outcome.antt =====
-- `Result<T, E>`, with `?` as bind.
use mathlib.Core.Path.{◌≡◌, refl}
use mathlib.Core.Logic.{◌⊎◌, inl, inr}

pub data Result {ℓ κ} (E : Type ℓ) (A : Type κ) : Type (ℓ ⊔ κ) where
  ok : A → Result E A
  err : E → Result E A

infixl 5 ◌>>=◌
-- `?`, followed by the rest of the function.
abbrev pub ◌>>=◌ : {E A B : Type 0} → Result E A → (A → Result E B) → Result E B
err problem >>= next = err problem
ok found >>= next = next found

infixl 5 ◌>>◌
-- `?` on a result without a value.
abbrev pub ◌>>◌ : {E B : Type 0} → Result E (Unit {0}) → Result E B → Result E B
checked >> rest = checked >>= λ done. rest

-- If a function returns a value, the part before a `?` found one and the rest used it.
pub >>=-eq-ok :
    {E A B : Type 0} (first : Result E A) (next : A → Result E B) {value : B}
    → (first >>= next) ≡ ok value
    → (found : A) × (first ≡ ok found) × (next found ≡ ok value)
>>=-eq-ok (err problem) next returned = cc
>>=-eq-ok (ok found) next returned = (found, refl, returned)

pub >>-eq-ok :
    {E B : Type 0} (check : Result E (Unit {0})) (rest : Result E B) {value : B}
    → (check >> rest) ≡ ok value
    → (check ≡ ok tt) × (rest ≡ ok value)
>>-eq-ok (err problem) rest returned = cc
>>-eq-ok (ok done) rest returned = (refl, returned)

pub ok_inj : {E A : Type 0} {a b : A} → ◌≡◌ {A = Result E A} (ok a) (ok b) → a ≡ b
ok_inj h = cc

pub Result-cases :
    {E A : Type 0} (r : Result E A)
    → ((found : A) × (r ≡ ok found)) ⊎ ((problem : E) × (r ≡ err problem))
Result-cases (ok found) = inl (found, refl)
Result-cases (err problem) = inr (problem, refl)
