-- ===== src/Samples/Pages.antt =====
-- Examples for the page of a scanned code.
use traceability.Base.{ℕ, [], ◌∷◌, none, some, ◌≡◌, refl, decimal, decimal-digits}
use traceability.Core.Dcp.{numeric}
use traceability.Edge.Page.{Text, escape, UnitHistory, PagePrinters, text_of}
use traceability.Edge.Page.Document.{render}
use traceability.Edge.Page.Markup.{markup, digits-markup}
use traceability.Edge.Page.Inert.{render-same_markup}

-- Instants are numbers of seconds, and every value prints as a quote.
abbrev printers : PagePrinters ℕ ℕ
printers = record {
  to_rfc3339 = decimal;
  canonical = λ v. b'"' ∷ [];
  default = 0;
  show_qty = decimal;
}

-- A unit with the given serial, one reading with the given payload, and a lot after a unit with the given code.
abbrev history : Text → Text → Text → UnitHistory ℕ ℕ
history serial payload code = record {
  uid = code;
  serial = serial;
  state = b'B' ∷ [];
  model_no = b'M' ∷ [];
  revision = b'A' ∷ [];
  job_number = b'J' ∷ [];
  plant = b'P' ∷ [];
  created_at = 1;
  events = [];
  measurements =
      record {
        recorded_at = 2;
        dcp_name = b't' ∷ [];
        value = numeric 7;
        unit_of_measure = none;
        verdict = b'P' ∷ b'A' ∷ b'S' ∷ b'S' ∷ [];
        source = b'd' ∷ [];
        raw_payload = some payload;
      }
      ∷ [];
  components =
      record {
        depth = 1;
        child_uid = some code;
        lot_no = none;
        qty = none;
        operation_seq = 10;
        recorded_at = 3;
      }
      ∷ record {
        depth = 1;
        child_uid = none;
        lot_no = some serial;
        qty = some 4;
        operation_seq = 20;
        recorded_at = 3;
      }
      ∷ [];
}

abbrev plain_history : UnitHistory ℕ ℕ
plain_history = history (b'S' ∷ []) (b'1' ∷ []) (b'U' ∷ [])

abbrev hostile_history : UnitHistory ℕ ℕ
hostile_history = history (b'<' ∷ b'b' ∷ b'>' ∷ []) (b'"' ∷ b'&' ∷ []) (b'\'' ∷ [])

escapes : escape (b'<' ∷ b'x' ∷ []) ≡ b'&' ∷ b'l' ∷ b't' ∷ b';' ∷ b'x' ∷ []
unfolding escape
escapes = refl

render-same_markup_example :
    markup (text_of (λ source. b'<' ∷ []) (render printers plain_history))
    ≡ markup (text_of (λ source. b'<' ∷ []) (render printers hostile_history))
render-same_markup_example =
    render-same_markup printers (λ source. b'<' ∷ [])
      (λ quantity. digits-markup (decimal quantity) (decimal-digits quantity)) plain_history
      hostile_history refl refl refl
