-- ===== src/Mark/Zpl/Commands.antt =====
-- Which commands a printer reads in a label (crates/trace-mark/src/zpl.rs).
use traceability.Base.{
  decimal, is_digit, decimal-digits, ℕ, Bool, true, false, not, ◌||◌, List, [], ◌∷◌, ◌++◌, Option,
  none, some, ◌≡◌, refl, sym, ◌==◌, if◌then◌else◌, take, all, inl, inr, Bool-cases, append_assoc,
  arith,
}
use traceability.Mark.Binding.{Text}
use traceability.Mark.Template.{
  Symbology, code128, qr, data_matrix, Align, left, center, right, Element, text, barcode, box,
  Floats, LabelTemplate,
}
use traceability.Mark.Zpl.{
  escape_char, escape_field, render_barcode, render_element, render_elements, render_darkness,
  render_header,
}

-- The two characters that a printer takes for the start of a command, wherever they stand.
abbrev pub is_introducer : ℕ → Bool
is_introducer c = c == b'^' || c == b'~'

-- Each with the two characters that name the command.
abbrev pub commands : Text → List Text
commands [] = []
commands (c ∷ rest) = if is_introducer c then (c ∷ take 2 rest) ∷ commands rest else commands rest

-- A text without introducers.
abbrev pub is_plain : Text → Bool
is_plain t = all (λ c. not (is_introducer c)) t

-- A text that has these commands, whatever follows.
abbrev pub Emits : Text → List Text → Type 0
Emits t cs = (rest : Text) → commands (t ++ rest) ≡ cs ++ commands rest

pub plain-Emits : (t : Text) → is_plain t ≡ true → Emits t []
plain-Emits [] h rest = refl
plain-Emits (c ∷ t) h rest = elim (Bool-cases (is_introducer c)) [
  | inl bad ↦ absurd (ground (arith, bad, h))
  | inr good ↦ rw good (plain-Emits t (ground (arith, good, h)) rest)
]

pub append-Emits :
    (a b : Text) (cs ds : List Text) → Emits a cs → Emits b ds → Emits (a ++ b) (cs ++ ds)
append-Emits a b cs ds ha hb rest =
    rw (append_assoc a b rest, ha (b ++ rest), hb rest) (sym (append_assoc cs ds (commands rest)))

digits-plain : (t : Text) → all is_digit t ≡ true → is_plain t ≡ true
digits-plain [] h = refl
digits-plain (c ∷ t) h = ground (arith, h, digits-plain t (ground (arith, h)))

decimal-Emits : (n : ℕ) → Emits (decimal n) []
decimal-Emits n = plain-Emits (decimal n) (digits-plain (decimal n) (decimal-digits n))

plain-append : (a b : Text) → is_plain a ≡ true → is_plain b ≡ true → is_plain (a ++ b) ≡ true
plain-append [] b h k = k
plain-append (c ∷ a) b h k = ground (arith, h, plain-append a b (ground (arith, h)) k)

escape_char-plain : (c : ℕ) → is_plain (escape_char c) ≡ true
unfolding escape_char
escape_char-plain c = ground arith

-- What the field holds is plain once it is escaped.
pub escape_field-plain : (value : Text) → is_plain (escape_field value) ≡ true
unfolding escape_field
escape_field-plain [] = refl
escape_field-plain (c ∷ value) =
    plain-append (escape_char c) (escape_field value) (escape_char-plain c)
      (escape_field-plain value)

escape_field-Emits : (value : Text) → Emits (escape_field value) []
escape_field-Emits value = plain-Emits (escape_field value) (escape_field-plain value)

ruleset zpl_texts = (append_assoc, decimal-Emits, escape_field-Emits)

abbrev pub command : ℕ → ℕ → Text
command a b = b'^' ∷ a ∷ b ∷ []

abbrev placed_commands : List Text → List Text
placed_commands cs = command b'F' b'O' ∷ (cs ++ command b'F' b'S' ∷ [])

abbrev justify_commands : Align → List Text
justify_commands left = []
justify_commands center = command b'F' b'B' ∷ []
justify_commands right = command b'F' b'B' ∷ []

abbrev barcode_commands : Symbology → List Text
barcode_commands code128 = command b'B' b'Y' ∷ command b'B' b'C' ∷ command b'F' b'D' ∷ []
barcode_commands qr = command b'B' b'Q' ∷ command b'F' b'D' ∷ []
barcode_commands data_matrix = command b'B' b'X' ∷ command b'F' b'D' ∷ []

-- The commands of an element, which its value takes no part in.
abbrev pub element_commands : Element → List Text
element_commands (text x y height width value align) =
    placed_commands (justify_commands align ++ command b'A' b'0' ∷ command b'F' b'D' ∷ [])
element_commands (barcode x y symbology module_size height value human_readable) =
    placed_commands (barcode_commands symbology)
element_commands (box x y w h thickness) = placed_commands (command b'G' b'B' ∷ [])

abbrev pub darkness_commands : Option ℕ → List Text
darkness_commands none = []
darkness_commands (some d) = command b'M' b'D' ∷ []

render_darkness-Emits :
    (darkness : Option ℕ) → Emits (render_darkness darkness) (darkness_commands darkness)
render_darkness-Emits none rest = refl
render_darkness-Emits (some d) rest = simp zpl_texts

pub render_element-Emits : (el : Element) → Emits (render_element el) (element_commands el)
unfolding render_element render_barcode
render_element-Emits (text x y height width value left) rest = simp zpl_texts
render_element-Emits (text x y height width value center) rest = simp zpl_texts
render_element-Emits (text x y height width value right) rest = simp zpl_texts
render_element-Emits (barcode x y code128 module_size height value true) rest = simp zpl_texts
render_element-Emits (barcode x y code128 module_size height value false) rest = simp zpl_texts
render_element-Emits (barcode x y qr module_size height value hr) rest = simp zpl_texts
render_element-Emits (barcode x y data_matrix module_size height value hr) rest = simp zpl_texts
render_element-Emits (box x y w h thickness) rest = simp zpl_texts

abbrev pub elements_commands : List Element → List Text
elements_commands [] = []
elements_commands (el ∷ rest) = element_commands el ++ elements_commands rest

pub render_elements-Emits :
    (els : List Element) → Emits (render_elements els) (elements_commands els)
unfolding render_elements
render_elements-Emits [] rest = refl
render_elements-Emits (el ∷ els) rest =
    append-Emits (render_element el) (render_elements els) (element_commands el)
      (elements_commands els) (render_element-Emits el) (render_elements-Emits els) rest

abbrev pub header_commands : Option ℕ → List Text
header_commands darkness =
    command b'X' b'A'
    ∷ command b'P' b'W'
    ∷ command b'L' b'L'
    ∷ command b'L' b'H'
    ∷ darkness_commands darkness

-- The commands of a label: those of its layout.
abbrev pub label_commands : {F : Type 0} → LabelTemplate F → List Text
label_commands t =
    header_commands t.darkness ++ elements_commands t.elements ++ command b'X' b'Z' ∷ []

module _ {F : Type 0} (floats : Floats F) where
  render_header-Emits :
      (t : LabelTemplate F) → Emits (render_header floats t) (header_commands t.darkness)
  unfolding render_header
  render_header-Emits t rest = simp (zpl_texts, render_darkness-Emits)

  pub label-commands :
      (t : LabelTemplate F)
      → commands
          (render_header floats t ++ render_elements t.elements ++ (b'^' ∷ b'X' ∷ b'Z' ∷ 10 ∷ []))
        ≡ label_commands t
  label-commands t = simp (append_assoc, render_header-Emits, render_elements-Emits)
