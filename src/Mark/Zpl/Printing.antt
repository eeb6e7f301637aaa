-- ===== src/Mark/Zpl/Printing.antt =====
-- What reaches the printer (crates/trace-mark/src/template.rs and zpl.rs): the bindings are put in, the
-- template is checked, and the label is rendered.
use traceability.Base.{
  ℕ, false, List, [], ◌∷◌, ◌++◌, Option, none, some, ok, >>=-eq-ok, ok_inj, ◌≡◌, ◌↔◌, refl, sym, ap,
  ◌∙◌, All, map, is_empty, ◌+◌, arith,
}
use traceability.Mark.Binding.{Text, Chrono, BindingContext, is_some, split_pair, render_expression}
use traceability.Mark.Template.{
  Element, text, barcode, box, origin, Floats, LabelTemplate, width_dots, height_dots, validate,
  validate_elements, binding_result, bind_element, bind_elements, bind,
}
use traceability.Mark.Zpl.{
  value_of, check_value, check_resolved, render_zpl, render_header, render_elements,
}
use traceability.Mark.Zpl.Commands.{
  commands, element_commands, elements_commands, label_commands, label-commands,
}

cons_head : {x y : Element} {xs ys : List Element} → x ∷ xs ≡ y ∷ ys → x ≡ y
cons_head h = cc

cons_tail : {x y : Element} {xs ys : List Element} → x ∷ xs ≡ y ∷ ys → xs ≡ ys
cons_tail h = cc

-- No binding is left in a value.
abbrev pub IsResolved : Option Text → Type 0
IsResolved none = Unit
IsResolved (some value) = is_some (split_pair b'{' value) ≡ false

-- The element's layout: all but its value.
abbrev pub layout : Element → Element
layout (text x y height width value align) = text x y height width [] align
layout (barcode x y symbology module_size height value human_readable) =
    barcode x y symbology module_size height [] human_readable
layout (box x y w h thickness) = box x y w h thickness

commands-layout : (el : Element) → element_commands (layout el) ≡ element_commands el
commands-layout (text x y height width value align) = refl
commands-layout (barcode x y symbology module_size height value human_readable) = refl
commands-layout (box x y w h thickness) = refl

origin-layout : (el : Element) → origin (layout el) ≡ origin el
unfolding origin
origin-layout (text x y height width value align) = refl
origin-layout (barcode x y symbology module_size height value human_readable) = refl
origin-layout (box x y w h thickness) = refl

elements_commands-layout :
    (a b : List Element) → map layout a ≡ map layout b → elements_commands a ≡ elements_commands b
elements_commands-layout [] [] h = refl
elements_commands-layout [] (y ∷ b) h = cc
elements_commands-layout (x ∷ a) [] h = cc
elements_commands-layout (x ∷ a) (y ∷ b) h =
    let e : element_commands x ≡ element_commands y =
      sym (commands-layout x) ∙ ap element_commands (cons_head h) ∙ commands-layout y in
    rw (e, elements_commands-layout a b (cons_tail h)) refl

module _ {Instant : Type 0} (chrono : Chrono Instant) (ctx : BindingContext Instant) where
  bind_element-layout :
      (el bound : Element) → bind_element chrono ctx el ≡ ok bound → layout bound ≡ layout el
  unfolding bind_element
  bind_element-layout (text x y height width value align) bound h =
      let (v, p, q) = >>=-eq-ok (binding_result (render_expression chrono value ctx)) _ h in
      let e : text x y height width v align ≡ bound = cc in rw (sym e) refl
  bind_element-layout (barcode x y symbology module_size height value human_readable) bound h =
      let (v, p, q) = >>=-eq-ok (binding_result (render_expression chrono value ctx)) _ h in
      let e : barcode x y symbology module_size height v human_readable ≡ bound = cc in
      rw (sym e) refl
  bind_element-layout (box x y w h thickness) bound e = ground (arith, e)

  bind_elements-layout :
      (els bound : List Element)
      → bind_elements chrono ctx els ≡ ok bound
      → map layout bound ≡ map layout els
  unfolding bind_elements
  bind_elements-layout [] bound h = let e : [] ≡ bound = cc in rw (sym e) refl
  bind_elements-layout (el ∷ els) bound h =
      let (x, p, h1) = >>=-eq-ok (bind_element chrono ctx el) _ h in
      let (xs, q, h2) = >>=-eq-ok (bind_elements chrono ctx els) _ h1 in
      let e : x ∷ xs ≡ bound = cc in
      rw (sym e, bind_element-layout el x p, bind_elements-layout els xs q) refl

  bind-elements :
      {F : Type 0} (t bound : LabelTemplate F)
      → bind chrono ctx t ≡ ok bound
      → (els : List Element) × (map layout els ≡ map layout t.elements)
        × (record t { elements = els } ≡ bound)
  unfolding bind
  bind-elements t bound h =
      let (els, p, e) = >>=-eq-ok (bind_elements chrono ctx t.elements) _ h in
      (els, bind_elements-layout t.elements els p, ok_inj e)

is_empty-layout : (a b : List Element) → map layout a ≡ map layout b → is_empty a ≡ is_empty b
is_empty-layout [] [] e = refl
is_empty-layout [] (y ∷ b) e = cc
is_empty-layout (x ∷ a) [] e = cc
is_empty-layout (x ∷ a) (y ∷ b) e = refl

check_value_iff : (v : Option Text) → (check_value v ≡ ok tt) ↔ IsResolved v
check_value_iff none = (λ h. tt, λ h. refl)
check_value_iff (some value) = (λ h. ground (arith, h), λ h. rw h refl)

check_resolved-All :
    (els : List Element) → check_resolved els ≡ ok tt → All (λ el. IsResolved (value_of el)) els
unfolding check_resolved
check_resolved-All [] h = tt
check_resolved-All (el ∷ els) h =
    let (u, p, q) = >>=-eq-ok (check_value (value_of el)) _ h in
    ((check_value_iff (value_of el)).0 p, check_resolved-All els q)

check_resolved_of_All :
    (els : List Element) → All (λ el. IsResolved (value_of el)) els → check_resolved els ≡ ok tt
unfolding check_resolved
check_resolved_of_All [] h = refl
check_resolved_of_All (el ∷ els) h =
    rw ((check_value_iff (value_of el)).1 h.0) (check_resolved_of_All els h.1)

module _ {F : Type 0} (floats : Floats F) where
  validate_elements-layout :
      (w h i : ℕ) (a b : List Element)
      → map layout a ≡ map layout b
      → validate_elements floats w h i a ≡ validate_elements floats w h i b
  unfolding validate_elements
  validate_elements-layout w h i [] [] e = refl
  validate_elements-layout w h i [] (y ∷ b) e = cc
  validate_elements-layout w h i (x ∷ a) [] e = cc
  validate_elements-layout w h i (x ∷ a) (y ∷ b) e =
      let o : origin x ≡ origin y =
        sym (origin-layout x) ∙ ap origin (cons_head e) ∙ origin-layout y in
      rw (o, validate_elements-layout w h (i + 1) a b (cons_tail e)) refl

  -- What is checked of a template is its layout.
  validate-layout :
      (t : LabelTemplate F) (els : List Element)
      → map layout els ≡ map layout t.elements
      → validate floats (record t { elements = els }) ≡ validate floats t
  unfolding validate width_dots height_dots
  validate-layout t els e =
      rw (is_empty-layout els t.elements e, validate_elements-layout _ _ 0 els t.elements e) refl

  render_zpl-ok :
      (t : LabelTemplate F) (z : Text)
      → render_zpl floats t ≡ ok z
      → (validate floats t ≡ ok tt)
        × (check_resolved t.elements ≡ ok tt)
        × (commands z ≡ label_commands t)
  unfolding render_zpl
  render_zpl-ok t z h =
      let (u, p, h1) = >>=-eq-ok (validate floats t) _ h in
      let (v, q, h2) = >>=-eq-ok (check_resolved t.elements) _ h1 in
      (p, q, ap commands (sym (ok_inj h2)) ∙ label-commands floats t)

  render_zpl_of_checks :
      (t : LabelTemplate F)
      → validate floats t ≡ ok tt
      → check_resolved t.elements ≡ ok tt
      → (z : Text) × (render_zpl floats t ≡ ok z)
  unfolding render_zpl
  render_zpl_of_checks t v r = (
    render_header floats t ++ render_elements t.elements ++ (b'^' ∷ b'X' ∷ b'Z' ∷ 10 ∷ []),
    rw (v, r) refl,
  )

  module _ {Instant : Type 0} (chrono : Chrono Instant) (ctx : BindingContext Instant) where
    -- Whatever values are bound, the commands that a printer reads in a rendered label are those of the
    -- template's layout: no value adds, removes or ends a command.
    pub bind-render_zpl-commands :
        (t bound : LabelTemplate F) (z : Text)
        → bind chrono ctx t ≡ ok bound
        → render_zpl floats bound ≡ ok z
        → commands z ≡ label_commands t
    bind-render_zpl-commands t bound z b r =
        let (els, same, e) = bind-elements chrono ctx t bound b in
        let (v, c, f) = render_zpl-ok bound z r in
        f ∙ ap (label_commands) (sym e) ∙ rw (elements_commands-layout els t.elements same) refl

    -- A bound template is rendered exactly if its layout is valid and no binding is left in a value.
    pub bind-render_zpl_iff :
        (t bound : LabelTemplate F)
        → bind chrono ctx t ≡ ok bound
        → ((z : Text) × (render_zpl floats bound ≡ ok z))
          ↔ ((validate floats t ≡ ok tt) × All (λ el. IsResolved (value_of el)) bound.elements)
    bind-render_zpl_iff t bound b =
        let (els, same, e) = bind-elements chrono ctx t bound b in
        let v : validate floats bound ≡ validate floats t =
          ap (validate floats) (sym e) ∙ validate-layout t els same in
        (
          λ (z, r).
              let (p, c, f) = render_zpl-ok bound z r in
              (sym v ∙ p, check_resolved-All bound.elements c),
          λ (p, c). render_zpl_of_checks bound (v ∙ p) (check_resolved_of_All bound.elements c),
        )
