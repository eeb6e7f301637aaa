-- ===== src/Mark/Zpl/Fields.antt =====
-- What a printer prints in the fields of a label (crates/trace-mark/src/zpl.rs).
use traceability.Base.{
  decimal, decimal-digits, is_digit, >>=-eq-ok, ok, ok_inj, ℕ, ◌+◌, ◌*◌, ◌-◌, Bool, true, false,
  ◌&&◌, List, [], ◌∷◌, ◌++◌, Option, none, some, ◌≡◌, refl, sym, ap, ◌∙◌, ◌==◌, leb, if◌then◌else◌,
  take, all, bytes_eq, inl, inr, Bool-cases, append_assoc, append-nil, arith,
}
use traceability.Mark.Binding.{Text}
use traceability.Mark.Template.{
  code128, qr, data_matrix, left, center, right, Element, text, barcode, box, Floats, LabelTemplate,
  validate,
}
use traceability.Mark.Zpl.{
  escape_field, render_barcode, render_element, render_elements, render_darkness, render_header,
  render_zpl, check_resolved,
}
use traceability.Mark.Zpl.Commands.{is_introducer, is_plain, escape_field-plain}

-- Of the language ZPL II: a field is what stands between `^FD` and the next command. A `^FH` before it, up
-- to `^FS`, makes `_` and two hexadecimal digits in a field a character.
abbrev is_command : ℕ → ℕ → ℕ → Text → Bool
is_command a b c rest = c == b'^' && bytes_eq (take 2 rest) (a ∷ b ∷ [])

abbrev until_command : Text → Text
until_command [] = []
until_command (c ∷ rest) =
    let behind = until_command rest in if is_introducer c then [] else c ∷ behind

abbrev hex_digit : ℕ → ℕ
hex_digit c = if leb b'A' c then c - b'A' + 10 else c - b'0'

abbrev hex_decoded : Text → Text
hex_decoded [] = []
hex_decoded (c ∷ []) = c ∷ []
hex_decoded (c ∷ d ∷ []) = c ∷ d ∷ []
hex_decoded (c ∷ d ∷ e ∷ rest) =
    let coded = hex_decoded rest in
    let plain = hex_decoded (d ∷ e ∷ rest) in
    if c == b'_' then (hex_digit d * 16 + hex_digit e) ∷ coded else c ∷ plain

abbrev field_of : Bool → Text → Text
field_of hex held = if hex then hex_decoded held else held

abbrev hex_after : Bool → ℕ → Text → Bool
hex_after hex c rest =
    if is_command b'F' b'H' c rest then true else if is_command b'F' b'S' c rest then false else hex

-- What stands behind the two letters of a command.
abbrev behind_name : Text → Text
behind_name (a ∷ b ∷ rest) = rest
behind_name _ = []

-- The texts of the fields, in order.
abbrev pub printed_fields : Bool → Text → List Text
printed_fields hex [] = []
printed_fields hex (c ∷ rest) =
    let behind = printed_fields (hex_after hex c rest) rest in
    if is_command b'F' b'D' c rest
    then field_of hex (until_command (behind_name rest)) ∷ behind
    else behind

-- A text that prints these fields, whatever follows, and leaves `^FH` off.
abbrev Prints : Text → List Text → Type 0
Prints t fs = (rest : Text) → printed_fields false (t ++ rest) ≡ fs ++ printed_fields false rest

plain-Prints : (t : Text) → is_plain t ≡ true → Prints t []
plain-Prints [] h rest = refl
plain-Prints (c ∷ t) h rest = elim (Bool-cases (c == b'^')) [
  | inl bad ↦ absurd (ground (arith, bad, h))
  | inr good ↦ rw good (plain-Prints t (ground (arith, good, h)) rest)
]

until-plain : (t rest : Text) → is_plain t ≡ true → until_command (t ++ b'^' ∷ rest) ≡ t
until-plain [] rest h = refl
until-plain (c ∷ t) rest h = elim (Bool-cases (is_introducer c)) [
  | inl bad ↦ absurd (ground (arith, bad, h))
  | inr good ↦ rw good (ap (◌∷◌ c) (until-plain t rest (ground (arith, good, h))))
]

digits-plain : (t : Text) → all is_digit t ≡ true → is_plain t ≡ true
digits-plain [] h = refl
digits-plain (c ∷ t) h = ground (arith, h, digits-plain t (ground (arith, h)))

append-Prints :
    (a b : Text) (fs gs : List Text) → Prints a fs → Prints b gs → Prints (a ++ b) (fs ++ gs)
append-Prints a b fs gs ha hb rest =
    rw (append_assoc a b rest, ha (b ++ rest), hb rest)
      (sym (append_assoc fs gs (printed_fields false rest)))

decimal-Prints : (n : ℕ) → Prints (decimal n) []
decimal-Prints n = plain-Prints (decimal n) (digits-plain (decimal n) (decimal-digits n))

escape_field-Prints : (value : Text) → Prints (escape_field value) []
escape_field-Prints value = plain-Prints (escape_field value) (escape_field-plain value)

until-escape_field :
    (value rest : Text) → until_command (escape_field value ++ b'^' ∷ rest) ≡ escape_field value
until-escape_field value rest = until-plain (escape_field value) rest (escape_field-plain value)

ruleset field_texts = (append_assoc, decimal-Prints, escape_field-Prints, until-escape_field)

-- What the field of an element is to hold: its value, behind the two letters and the comma of a QR code.
abbrev pub intended : (Text → Text) → Element → List Text
intended shown (text x y height width value align) = shown value ∷ []
intended shown (barcode x y code128 module_size height value human_readable) = shown value ∷ []
intended shown (barcode x y qr module_size height value human_readable) =
    (b'Q' ∷ b'A' ∷ b',' ∷ shown value) ∷ []
intended shown (barcode x y data_matrix module_size height value human_readable) = shown value ∷ []
intended shown (box x y w h thickness) = []

abbrev pub intended_fields : (Text → Text) → List Element → List Text
intended_fields shown [] = []
intended_fields shown (el ∷ rest) = intended shown el ++ intended_fields shown rest

render_element-Prints : (el : Element) → Prints (render_element el) (intended escape_field el)
unfolding render_element render_barcode bytes_eq
render_element-Prints (text x y height width value left) rest = simp field_texts
render_element-Prints (text x y height width value center) rest = simp field_texts
render_element-Prints (text x y height width value right) rest = simp field_texts
render_element-Prints (barcode x y code128 module_size height value true) rest = simp field_texts
render_element-Prints (barcode x y code128 module_size height value false) rest = simp field_texts
render_element-Prints (barcode x y qr module_size height value hr) rest = simp field_texts
render_element-Prints (barcode x y data_matrix module_size height value hr) rest = simp field_texts
render_element-Prints (box x y w h thickness) rest = simp field_texts

render_elements-Prints :
    (els : List Element) → Prints (render_elements els) (intended_fields escape_field els)
unfolding render_elements
render_elements-Prints [] rest = refl
render_elements-Prints (el ∷ els) rest =
    append-Prints (render_element el) (render_elements els) (intended escape_field el)
      (intended_fields escape_field els) (render_element-Prints el) (render_elements-Prints els)
      rest

render_darkness-Prints : (darkness : Option ℕ) → Prints (render_darkness darkness) []
unfolding bytes_eq
render_darkness-Prints none rest = refl
render_darkness-Prints (some d) rest = simp field_texts

module _ {F : Type 0} (floats : Floats F) where
  render_header-Prints : (t : LabelTemplate F) → Prints (render_header floats t) []
  unfolding render_header bytes_eq
  render_header-Prints t rest = simp (field_texts, render_darkness-Prints)

  label-fields :
      (t : LabelTemplate F)
      → printed_fields false
          (render_header floats t ++ render_elements t.elements ++ (b'^' ∷ b'X' ∷ b'Z' ∷ 10 ∷ []))
        ≡ intended_fields escape_field t.elements
  unfolding bytes_eq
  label-fields t = simp (append_assoc, append-nil, render_header-Prints, render_elements-Prints)

  pub render_zpl-fields :
      (t : LabelTemplate F) (z : Text)
      → render_zpl floats t ≡ ok z
      → printed_fields false z ≡ intended_fields escape_field t.elements
  unfolding render_zpl
  render_zpl-fields t z h =
      let (u, p, h1) = >>=-eq-ok (validate floats t) _ h in
      let (v, q, h2) = >>=-eq-ok (check_resolved t.elements) _ h1 in
      ap (printed_fields false) (sym (ok_inj h2)) ∙ label-fields t
