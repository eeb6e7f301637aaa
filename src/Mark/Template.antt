-- ===== src/Mark/Template.antt =====
-- crates/trace-mark/src/template.rs: a label's size and its elements, the check that it can be printed,
-- and its bindings put in. The arithmetic of `f64` is a parameter.
use traceability.Base.{
  ℕ, Bool, ◌||◌, List, [], ◌∷◌, Option, Result, ok, err, ◌>>=◌, leb, ◌==◌, if◌then◌else◌, is_empty,
  ◌+◌,
}
use traceability.Mark.Binding.{Text, BindingError, Chrono, BindingContext, render_expression}

-- The texts of `Invalid`.
pub data InvalidTemplate : Type 0 where
  no_size zero_dpi no_elements : InvalidTemplate
  outside : (index x y w h : ℕ) → InvalidTemplate
  unresolved : (value : Text) → InvalidTemplate

pub data TemplateError : Type 0 where
  binding : BindingError → TemplateError
  invalid : InvalidTemplate → TemplateError

pub data Symbology : Type 0 where
  code128 qr data_matrix : Symbology

pub data Align : Type 0 where
  left center right : Align

pub data Element : Type 0 where
  text : (x y height width : ℕ) → (value : Text) → (align : Align) → Element
  barcode :
      (x y : ℕ)
      → (symbology : Symbology) → (module_size height : ℕ) → (value : Text)
      → (human_readable : Bool) → Element
  box : (x y w h thickness : ℕ) → Element

unfoldable pub origin : Element → ℕ × ℕ
origin (text x y height width value align) = (x, y)
origin (barcode x y symbology module_size height value human_readable) = (x, y)
origin (box x y w h thickness) = (x, y)

-- What the code uses of `f64`: the numbers it names, `<=`, `/`, `*`, `from(u32)` and `round() as u32`.
pub record Floats (F : Type 0) : Type 0 where
  pub zero : F
  pub inch : F
  pub at_most : F → F → Bool
  pub div : F → F → F
  pub mul : F → F → F
  pub from_u32 : ℕ → F
  pub round_to_u32 : F → ℕ

pub record LabelTemplate (F : Type 0) : Type 0 where
  pub code : Text
  pub version : ℕ
  pub width_mm : F
  pub height_mm : F
  pub dpi : ℕ
  pub darkness : Option ℕ
  pub elements : List Element

module _ {F : Type 0} (floats : Floats F) where
  unfoldable pub mm_to_dots : F → ℕ → ℕ
  mm_to_dots mm dpi =
      floats.round_to_u32 (floats.mul (floats.div mm floats.inch) (floats.from_u32 dpi))

  unfoldable pub width_dots : LabelTemplate F → ℕ
  width_dots t = mm_to_dots t.width_mm t.dpi

  unfoldable pub height_dots : LabelTemplate F → ℕ
  height_dots t = mm_to_dots t.height_mm t.dpi

  -- The loop over the elements, from the element with this index.
  unfoldable pub validate_elements : ℕ → ℕ → ℕ → List Element → Result TemplateError (Unit {0})
  validate_elements w h i [] = ok tt
  validate_elements w h i (el ∷ rest) =
      if leb w (origin el).0 || leb h (origin el).1
      then err (invalid (outside i (origin el).0 (origin el).1 w h))
      else validate_elements w h (i + 1) rest

  unfoldable pub validate : LabelTemplate F → Result TemplateError (Unit {0})
  validate t =
      if floats.at_most t.width_mm floats.zero || floats.at_most t.height_mm floats.zero
      then err (invalid no_size)
      else if t.dpi == 0
      then err (invalid zero_dpi)
      else if is_empty t.elements
      then err (invalid no_elements)
      else validate_elements (width_dots t) (height_dots t) 0 t.elements

abbrev pub binding_result : {A : Type 0} → Result BindingError A → Result TemplateError A
binding_result (ok a) = ok a
binding_result (err e) = err (binding e)

module _ {Instant : Type 0} (chrono : Chrono Instant) (ctx : BindingContext Instant) where
  unfoldable pub bind_element : Element → Result TemplateError Element
  bind_element (text x y height width value align) =
      binding_result (render_expression chrono value ctx) >>= λ bound.
      ok (text x y height width bound align)
  bind_element (barcode x y symbology module_size height value human_readable) =
      binding_result (render_expression chrono value ctx) >>= λ bound.
      ok (barcode x y symbology module_size height bound human_readable)
  bind_element (box x y w h thickness) = ok (box x y w h thickness)

  unfoldable pub bind_elements : List Element → Result TemplateError (List Element)
  bind_elements [] = ok []
  bind_elements (el ∷ rest) = do
    bound ← bind_element el
    others ← bind_elements rest
    ok (bound ∷ others)

  unfoldable pub bind : {F : Type 0} → LabelTemplate F → Result TemplateError (LabelTemplate F)
  bind t = do elements ← bind_elements t.elements; ok (record t { elements = elements })
