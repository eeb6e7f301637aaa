-- ===== src/Base/Spaces.antt =====
-- White space around a text, which is the list of its characters by code point.
use Prim.Native.Nat.{ℕ}
use mathlib.Core.Path.{◌≡◌, refl}
use mathlib.Core.Bool.{Bool, true, false, not, ◌&&◌, ◌||◌}
use native.Mathlib.Omega.{arith}
use mathlib.Core.List.{List, [], ◌∷◌}
use traceability.Base.Tests.{◌==◌, leb, if◌then◌else◌}
use traceability.Base.Lists.{is_empty, all}

-- `char::is_whitespace`
unfoldable pub is_whitespace : ℕ → Bool
is_whitespace c =
    leb 9 c && leb c 13
    || (c == 32
        || (c == 0x85
            || (c == 0xA0
                || (c == 0x1680
                    || (leb 0x2000 c && leb c 0x200A
                        || (c == 0x2028
                            || (c == 0x2029 || (c == 0x202F || (c == 0x205F || c == 0x3000)))))))))

unfoldable pub trim_start : List ℕ → List ℕ
trim_start [] = []
trim_start (c ∷ text) = if is_whitespace c then trim_start text else c ∷ text

abbrev pub push_trimmed : ℕ → List ℕ → List ℕ
push_trimmed c text = if is_empty text && is_whitespace c then [] else c ∷ text

unfoldable pub trim_end : List ℕ → List ℕ
trim_end [] = []
trim_end (c ∷ text) = push_trimmed c (trim_end text)

unfoldable pub trim : List ℕ → List ℕ
trim text = trim_end (trim_start text)

abbrev pub is_solid : ℕ → Bool
is_solid c = not (is_whitespace c)

trim_start-solid : (t : List ℕ) → all is_solid t ≡ true → trim_start t ≡ t
unfolding trim_start
trim_start-solid [] h = refl
trim_start-solid (c ∷ t) h = ground (arith, h)

trim_end-solid : (t : List ℕ) → all is_solid t ≡ true → trim_end t ≡ t
unfolding trim_end
trim_end-solid [] h = refl
trim_end-solid (c ∷ t) h =
    let solid : is_whitespace c ≡ false = ground (arith, h) in
    rw (trim_end-solid t (ground (arith, h)), solid) (ground arith)

-- A text without white space is its own trimming.
pub trim-solid : (t : List ℕ) → all is_solid t ≡ true → trim t ≡ t
unfolding trim
trim-solid t h = rw (trim_start-solid t h) (trim_end-solid t h)
