-- ===== src/Samples/Labels.antt =====
-- Examples for labels.
use traceability.Base.{
  ℕ, ◌*◌, true, false, List, [], ◌∷◌, ◌++◌, none, some, ok, ◌≡◌, ◌↔◌, refl, leb, all, bytes_eq,
  is_whitespace, trim, trim_start, trim_end,
}
use traceability.Mark.Binding.{
  Text, Chrono, BindingContext, get, strip_prefix, split_pair, resolve, step, render_from,
  render_expression,
}
use traceability.Mark.Binding.Pieces.{Segment, open_ended, print, evaluate, render_expression-print}
use traceability.Mark.Template.{
  left, qr, Element, text, barcode, box, origin, Floats, LabelTemplate, mm_to_dots, width_dots,
  height_dots, validate, validate_elements, bind_element, bind_elements, bind,
}
use traceability.Mark.Zpl.{value_of, render_elements, check_resolved, render_header, render_zpl}
use traceability.Mark.Zpl.Commands.{commands, label_commands}
use traceability.Mark.Zpl.Fields.{printed_fields, intended_fields}
use traceability.Mark.Zpl.Verbatim.{is_printable, render_zpl-prints_iff}
use traceability.Mark.Zpl.Printing.{bind-render_zpl-commands}

-- A clock that writes every part of a date as 7.
abbrev chrono : Chrono ℕ
chrono = record { format = λ instant specifier. b'7' ∷ []; utc_now = 0 }

-- The value of `s` carries a caret and a command.
abbrev hostile : Text
hostile = b'A' ∷ b'^' ∷ b'X' ∷ b'Z' ∷ []

abbrev context : BindingContext ℕ
context = record { values = (b's' ∷ [], hostile) ∷ []; now = none }

abbrev binding_of_s : Text
binding_of_s = b'{' ∷ b'{' ∷ b's' ∷ b'}' ∷ b'}' ∷ []

-- Lengths in whole millimetres, at a dot each.
abbrev floats : Floats ℕ
floats = record {
  zero = 0;
  inch = 1;
  at_most = leb;
  div = λ a b. a;
  mul = λ a b. a * b;
  from_u32 = λ n. n;
  round_to_u32 = λ n. n;
}

abbrev elements : Text → List Element
elements value = text 1 2 20 20 value left ∷ barcode 3 4 qr 5 0 value false ∷ box 0 0 9 9 1 ∷ []

abbrev sticker : Text → LabelTemplate ℕ
sticker value = record {
  code = b'D' ∷ [];
  version = 1;
  width_mm = 50;
  height_mm = 25;
  dpi = 2;
  darkness = some 10;
  elements = elements value;
}

bound : bind chrono context (sticker binding_of_s) ≡ ok (sticker hostile)
unfolding bind bind_elements bind_element render_expression render_from step split_pair trim
    trim_start trim_end is_whitespace resolve get strip_prefix bytes_eq
bound = refl

abbrev printed : Text
printed =
    render_header floats (sticker hostile)
    ++ render_elements (elements hostile)
    ++ (b'^' ∷ b'X' ∷ b'Z' ∷ 10 ∷ [])

rendered : render_zpl floats (sticker hostile) ≡ ok printed
unfolding render_zpl validate validate_elements origin width_dots height_dots mm_to_dots
    check_resolved split_pair
rendered = refl

bind-render_zpl-commands_example : commands printed ≡ label_commands (sticker binding_of_s)
bind-render_zpl-commands_example =
    bind-render_zpl-commands floats chrono context (sticker binding_of_s) (sticker hostile) printed
      bound rendered

render_zpl-prints_iff_example :
    (printed_fields false printed ≡ intended_fields (λ v. v) (elements hostile))
    ↔ (all (λ el. is_printable (value_of el)) (elements hostile) ≡ true)
render_zpl-prints_iff_example = render_zpl-prints_iff floats (sticker hostile) printed rendered

abbrev segments : List Segment
segments = record { literal = b'N' ∷ b':' ∷ []; key = 32 ∷ b's' ∷ [] } ∷ []

render_expression-print_example :
    render_expression chrono (print segments (open_ended (b'/' ∷ []) (b'x' ∷ []))) context
    ≡ evaluate chrono context
        (print segments (open_ended (b'/' ∷ []) (b'x' ∷ [])))
        segments
        (open_ended (b'/' ∷ []) (b'x' ∷ []))
render_expression-print_example =
    render_expression-print chrono context segments (open_ended (b'/' ∷ []) (b'x' ∷ []))
      ((refl, refl), tt) (refl, refl)
