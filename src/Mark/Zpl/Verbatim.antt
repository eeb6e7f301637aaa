-- ===== src/Mark/Zpl/Verbatim.antt =====
-- When a label shows the values of its elements as they are (crates/trace-mark/src/zpl.rs).
use traceability.Base.{
  ok, ℕ, Bool, true, false, not, ◌||◌, List, [], ◌∷◌, ◌++◌, Option, none, some, ◌≡◌, ◌≢◌, ◌↔◌, refl,
  sym, ◌∙◌, ◌==◌, all, inl, inr, Bool-cases, arith,
}
use traceability.Mark.Binding.{Text}
use traceability.Mark.Template.{
  code128, qr, data_matrix, Element, text, barcode, box, Floats, LabelTemplate,
}
use traceability.Mark.Zpl.{escape_char, escape_field, render_zpl, value_of}
use traceability.Mark.Zpl.Commands.{is_introducer}
use traceability.Mark.Zpl.Fields.{printed_fields, intended, intended_fields, render_zpl-fields}

tail_eq : {c d : ℕ} {a b : Text} → c ∷ a ≡ d ∷ b → a ≡ b
tail_eq h = cc

-- Characters that are printed as others.
abbrev pub is_special : ℕ → Bool
is_special c = is_introducer c || (c == b'\\' || (c == 10 || c == 13))

escape_char-same : (c : ℕ) → is_special c ≡ false → escape_char c ≡ c ∷ []
unfolding escape_char
escape_char-same c h = ground (arith, h)

escape_char_differs :
    (c : ℕ) (rest value : Text) → is_special c ≡ true → escape_char c ++ rest ≢ c ∷ value
unfolding escape_char
escape_char_differs c rest value h e = ground (arith, h, e)

escape_field-same_iff :
    (value : Text) → (escape_field value ≡ value) ↔ (all (λ c. not (is_special c)) value ≡ true)
unfolding escape_field
escape_field-same_iff [] = (λ h. refl, λ h. refl)
escape_field-same_iff (c ∷ value) = elim (Bool-cases (is_special c)) [
  | inl special ↦ (
    λ e. absurd (escape_char_differs c (escape_field value) value special e),
    λ h. absurd (ground (arith, special, h)),
  )
  | inr same ↦
      let (to, from) = escape_field-same_iff value in
      (
        λ e. rw same (to (tail_eq (rw (escape_char-same c same) at e))),
        λ h. rw (escape_char-same c same, from (rw same at h)) refl,
      )
]

abbrev pub is_printable : Option Text → Bool
is_printable none = true
is_printable (some value) = all (λ c. not (is_special c)) value

cons_eq : {a b : Text} {us bs : List Text} → a ∷ us ≡ b ∷ bs → (a ≡ b) × (us ≡ bs)
cons_eq h = (cc, cc)

-- The rest of a label apart, an element prints its value exactly if it is printable.
intended-same :
    (el : Element) (us bs : List Text)
    → (intended escape_field el ++ us ≡ intended (λ v. v) el ++ bs)
      ↔ ((is_printable (value_of el) ≡ true) × (us ≡ bs))
intended-same (text x y height width value align) us bs =
    let (to, from) = escape_field-same_iff value in
    (λ h. (to (cons_eq h).0, (cons_eq h).1), λ (p, e). rw (from p, e) refl)
intended-same (barcode x y code128 module_size height value hr) us bs =
    let (to, from) = escape_field-same_iff value in
    (λ h. (to (cons_eq h).0, (cons_eq h).1), λ (p, e). rw (from p, e) refl)
intended-same (barcode x y qr module_size height value hr) us bs =
    let (to, from) = escape_field-same_iff value in
    (
      λ h. (to (tail_eq (tail_eq (tail_eq (cons_eq h).0))), (cons_eq h).1),
      λ (p, e). rw (from p, e) refl,
    )
intended-same (barcode x y data_matrix module_size height value hr) us bs =
    let (to, from) = escape_field-same_iff value in
    (λ h. (to (cons_eq h).0, (cons_eq h).1), λ (p, e). rw (from p, e) refl)
intended-same (box x y w h thickness) us bs = (λ e. (refl, e), λ (p, e). e)

intended_fields-same_iff :
    (els : List Element)
    → (intended_fields escape_field els ≡ intended_fields (λ v. v) els)
      ↔ (all (λ el. is_printable (value_of el)) els ≡ true)
intended_fields-same_iff [] = (λ h. refl, λ h. refl)
intended_fields-same_iff (el ∷ els) =
    let (to, from) = intended_fields-same_iff els in
    let (here, back) =
      intended-same el (intended_fields escape_field els) (intended_fields (λ v. v) els) in
    (
      λ h. let (p, e) = here h in rw p (to e),
      λ h. elim (Bool-cases (is_printable (value_of el))) [
        | inl p ↦ back (p, from (rw p at h))
        | inr bad ↦ absurd (ground (arith, bad, h))
      ],
    )

module _ {F : Type 0} (floats : Floats F) where
  -- The fields that a printer prints from a rendered label are the values of its elements, in their order
  -- and as they are (behind `QA,` in a QR code), exactly if no value has a caret, a tilde, a backslash or a
  -- line break.
  pub render_zpl-prints_iff :
      (t : LabelTemplate F) (z : Text)
      → render_zpl floats t ≡ ok z
      → (printed_fields false z ≡ intended_fields (λ v. v) t.elements)
        ↔ (all (λ el. is_printable (value_of el)) t.elements ≡ true)
  render_zpl-prints_iff t z h =
      let (to, from) = intended_fields-same_iff t.elements in
      let e = render_zpl-fields floats t z h in (λ k. to (sym e ∙ k), λ p. e ∙ from p)
