-- ===== src/Mark/Zpl.antt =====
-- crates/trace-mark/src/zpl.rs: a bound template as commands of ZPL II.
pub mod Commands
pub mod Fields
pub mod Verbatim
pub mod Printing
use traceability.Base.{
  decimal, ℕ, zero, suc, ◌+◌, ◌/◌, ◌%◌, Bool, true, false, ◌&&◌, ◌||◌, List, [], ◌∷◌, ◌++◌, Option,
  none, some, Result, ok, err, ◌>>=◌, ltb, ◌==◌, if◌then◌else◌,
}
use traceability.Mark.Binding.{Text, is_some, split_pair}
use traceability.Mark.Template.{
  TemplateError, invalid, unresolved, Symbology, code128, qr, data_matrix, Align, left, center,
  right, Element, text, barcode, box, Floats, LabelTemplate, width_dots, height_dots, validate,
}

unfoldable pub escape_char : ℕ → Text
escape_char c =
    if c == b'^'
    then b'_' ∷ b'5' ∷ b'E' ∷ []
    else if c == b'~'
    then b'_' ∷ b'7' ∷ b'E' ∷ []
    else if c == b'\\'
    then b'_' ∷ b'5' ∷ b'C' ∷ []
    else if c == 10 || c == 13
    then 32 ∷ []
    else c ∷ []

unfoldable pub escape_field : Text → Text
escape_field [] = []
escape_field (c ∷ value) = escape_char c ++ escape_field value

abbrev pub comma : Text
comma = b',' ∷ []

abbrev pub field_origin : Text
field_origin = b'^' ∷ b'F' ∷ b'O' ∷ []

abbrev pub field_data : Text
field_data = b'^' ∷ b'F' ∷ b'D' ∷ []

abbrev pub field_end : Text
field_end = b'^' ∷ b'F' ∷ b'S' ∷ 10 ∷ []

abbrev pub one_line : ℕ → Text
one_line where_to =
    b'^' ∷ b'F' ∷ b'B' ∷ b'4' ∷ b'0' ∷ b'0' ∷ b',' ∷ b'1' ∷ b',' ∷ b'0' ∷ b',' ∷ where_to ∷ []

abbrev pub justify : Align → Text
justify left = []
justify center = one_line b'C'
justify right = one_line b'R'

abbrev pub yes_or_no : Bool → Text
yes_or_no true = b'Y' ∷ []
yes_or_no false = b'N' ∷ []

abbrev pub placed : ℕ → ℕ → Text → Text
placed x y body = field_origin ++ decimal x ++ comma ++ decimal y ++ body ++ field_end

unfoldable pub render_barcode : Symbology → ℕ → ℕ → Text → Bool → Text
render_barcode code128 module_size height value human_readable =
    (b'^' ∷ b'B' ∷ b'Y' ∷ [])
    ++ decimal module_size
    ++ (b',' ∷ b'2' ∷ b'.' ∷ b'0' ∷ b',' ∷ [])
    ++ decimal height
    ++ (b'^' ∷ b'B' ∷ b'C' ∷ b'N' ∷ b',' ∷ [])
    ++ decimal height
    ++ comma
    ++ yes_or_no human_readable
    ++ (b',' ∷ b'N' ∷ b',' ∷ b'N' ∷ [])
    ++ field_data
    ++ escape_field value
render_barcode qr module_size height value human_readable =
    (b'^' ∷ b'B' ∷ b'Q' ∷ b'N' ∷ b',' ∷ b'2' ∷ b',' ∷ [])
    ++ decimal module_size
    ++ field_data
    ++ (b'Q' ∷ b'A' ∷ b',' ∷ [])
    ++ escape_field value
render_barcode data_matrix module_size height value human_readable =
    (b'^' ∷ b'B' ∷ b'X' ∷ b'N' ∷ b',' ∷ [])
    ++ decimal module_size
    ++ (b',' ∷ b'2' ∷ b'0' ∷ b'0' ∷ [])
    ++ field_data
    ++ escape_field value

unfoldable pub render_element : Element → Text
render_element (text x y height width value align) = placed x y (
    justify align
    ++ (b'^' ∷ b'A' ∷ b'0' ∷ b'N' ∷ b',' ∷ [])
    ++ decimal height
    ++ comma
    ++ decimal width
    ++ field_data
    ++ escape_field value)
render_element (barcode x y symbology module_size height value human_readable) =
    placed x y (render_barcode symbology module_size height value human_readable)
render_element (box x y w h thickness) =
    placed x y
      ((b'^' ∷ b'G' ∷ b'B' ∷ []) ++ decimal w ++ comma ++ decimal h ++ comma ++ decimal thickness)

unfoldable pub render_elements : List Element → Text
render_elements [] = []
render_elements (el ∷ rest) = render_element el ++ render_elements rest

-- The value that is printed in a field.
abbrev pub value_of : Element → Option Text
value_of (text x y height width value align) = some value
value_of (barcode x y symbology module_size height value human_readable) = some value
value_of (box x y w h thickness) = none

abbrev pub check_value : Option Text → Result TemplateError (Unit {0})
check_value none = ok tt
check_value (some value) =
    if is_some (split_pair b'{' value) then err (invalid (unresolved value)) else ok tt

unfoldable pub check_resolved : List Element → Result TemplateError (Unit {0})
check_resolved [] = ok tt
check_resolved (el ∷ rest) = check_value (value_of el) >>= λ done. check_resolved rest

abbrev pub render_darkness : Option ℕ → Text
render_darkness none = []
render_darkness (some d) = (b'^' ∷ b'M' ∷ b'D' ∷ []) ++ decimal d

module _ {F : Type 0} (floats : Floats F) where
  unfoldable pub render_header : LabelTemplate F → Text
  render_header t =
      (b'^' ∷ b'X' ∷ b'A' ∷ 10 ∷ [])
      ++ (b'^' ∷ b'P' ∷ b'W' ∷ [])
      ++ decimal (width_dots floats t)
      ++ (b'^' ∷ b'L' ∷ b'L' ∷ [])
      ++ decimal (height_dots floats t)
      ++ (b'^' ∷ b'L' ∷ b'H' ∷ b'0' ∷ b',' ∷ b'0' ∷ [])
      ++ render_darkness t.darkness
      ++ (10 ∷ [])

  unfoldable pub render_zpl : LabelTemplate F → Result TemplateError Text
  render_zpl t = do
    valid ← validate floats t
    resolved ← check_resolved t.elements
    ok (render_header t ++ render_elements t.elements ++ (b'^' ∷ b'X' ∷ b'Z' ∷ 10 ∷ []))
