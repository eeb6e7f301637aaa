-- ===== src/Edge/Page.antt =====
-- apps/trace-edge/src/page.rs: the page that a scanned code leads to. A text is the list of its
-- characters; a page is a list of pieces: literals of the template, and values that are put into it. The
-- characters of a literal and the printing of instants, of values and of quantities are parameters, and the
-- integers of a history (operations, depths) are taken to be not negative. Of the rows of a history
-- (crates/trace-store/src/query.rs) the fields stand here that the page shows. The hash of a row is
-- hexadecimal, so that its first 12 bytes are its first 12 characters.
pub mod Document
pub mod Markup
pub mod Rows
pub mod Inert
use traceability.Base.{
  ℕ, String, Bool, true, false, ◌||◌, List, [], ◌∷◌, ◌++◌, Option, none, some, ◌==◌, if◌then◌else◌,
  is_empty, bytes_eq, take, decimal,
}
use traceability.Core.Dcp.{Value}

abbrev pub Text : Type 0
Text = List ℕ

abbrev escaped : ℕ → Text
escaped c =
    if c == b'&'
    then b'&' ∷ b'a' ∷ b'm' ∷ b'p' ∷ b';' ∷ []
    else if c == b'<'
    then b'&' ∷ b'l' ∷ b't' ∷ b';' ∷ []
    else if c == b'>'
    then b'&' ∷ b'g' ∷ b't' ∷ b';' ∷ []
    else if c == b'"'
    then b'&' ∷ b'q' ∷ b'u' ∷ b'o' ∷ b't' ∷ b';' ∷ []
    else if c == b'\''
    then b'&' ∷ b'#' ∷ b'3' ∷ b'9' ∷ b';' ∷ []
    else c ∷ []

unfoldable pub escape : Text → Text
escape [] = []
escape (c ∷ s) = escaped c ++ escape s

pub record HistoryEvent (Stamp : Type 0) : Type 0 where
  pub recorded_at : Stamp
  pub kind : Text
  pub operation_seq : Option ℕ
  pub station : Option Text
  pub operator : Option Text
  pub row_hash : Text

pub record HistoryMeasurement (F Stamp : Type 0) : Type 0 where
  pub recorded_at : Stamp
  pub dcp_name : Text
  pub value : Value F
  pub unit_of_measure : Option Text
  pub verdict : Text
  pub source : Text
  pub raw_payload : Option Text

pub record HistoryComponent (F Stamp : Type 0) : Type 0 where
  pub depth : ℕ
  pub child_uid : Option Text
  pub lot_no : Option Text
  pub qty : Option F
  pub operation_seq : ℕ
  pub recorded_at : Stamp

pub record UnitHistory (F Stamp : Type 0) : Type 0 where
  pub uid : Text
  pub serial : Text
  pub state : Text
  pub model_no : Text
  pub revision : Text
  pub job_number : Text
  pub plant : Text
  pub created_at : Stamp
  pub events : List (HistoryEvent Stamp)
  pub measurements : List (HistoryMeasurement F Stamp)
  pub components : List (HistoryComponent F Stamp)

pub data Piece : Type 0 where
  literal : (source : String) → Piece
  shown : (t : Text) → Piece

-- The text of a page, by the characters of its literals.
unfoldable pub text_of : (String → Text) → List Piece → Text
text_of chars [] = []
text_of chars (literal source ∷ pieces) = chars source ++ text_of chars pieces
text_of chars (shown t ∷ pieces) = t ++ text_of chars pieces

-- `to_rfc3339`, `Value::canonical`, `f64`'s `Default` and its `Display`.
pub record PagePrinters (F Stamp : Type 0) : Type 0 where
  pub to_rfc3339 : Stamp → Text
  pub canonical : Value F → Text
  pub default : F
  pub show_qty : F → Text

-- `unwrap_or`
abbrev pub or_else : {A : Type 0} → Option A → A → A
or_else none otherwise = otherwise
or_else (some t) otherwise = t

abbrev pub dash : Text
dash = b'-' ∷ []

abbrev pub shown_op : Option ℕ → Text
shown_op none = dash
shown_op (some v) = decimal v

abbrev pub verdict_class : Text → Text
verdict_class verdict =
    if bytes_eq verdict (b'P' ∷ b'A' ∷ b'S' ∷ b'S' ∷ [])
    then b'p' ∷ b'a' ∷ b's' ∷ b's' ∷ []
    else b'f' ∷ b'a' ∷ b'i' ∷ b'l' ∷ []

-- `empty_note`
abbrev pub empty_note : List Piece → String → List Piece
empty_note [] what =
    literal "<tr><td colspan=\"6\" class=\"none\">no "
    ∷ literal what
    ∷ literal " recorded</td></tr>"
    ∷ []
empty_note (piece ∷ pieces) what = piece ∷ pieces

module _ {F Stamp : Type 0} (p : PagePrinters F Stamp) where
  abbrev pub event_row : HistoryEvent Stamp → List Piece
  event_row e =
      literal "<tr><td>"
      ∷ shown (escape (p.to_rfc3339 e.recorded_at))
      ∷ literal "</td><td>"
      ∷ shown (escape e.kind)
      ∷ literal "</td><td>"
      ∷ shown (shown_op e.operation_seq)
      ∷ literal "</td><td>"
      ∷ shown (escape (or_else e.station dash))
      ∷ literal "</td><td>"
      ∷ shown (escape (or_else e.operator dash))
      ∷ literal "</td><td class=\"h\">"
      ∷ shown (escape (take 12 e.row_hash))
      ∷ literal "</td></tr>"
      ∷ []

  unfoldable pub event_rows : List (HistoryEvent Stamp) → List Piece
  event_rows [] = []
  event_rows (e ∷ events) = event_row e ++ event_rows events

  abbrev pub measurement_row : HistoryMeasurement F Stamp → List Piece
  measurement_row m =
      literal "<tr><td>"
      ∷ shown (escape (p.to_rfc3339 m.recorded_at))
      ∷ literal "</td><td>"
      ∷ shown (escape m.dcp_name)
      ∷ literal "</td><td>"
      ∷ shown (escape (p.canonical m.value))
      ∷ literal " "
      ∷ shown (escape (or_else m.unit_of_measure []))
      ∷ literal "</td><td class=\""
      ∷ shown (verdict_class m.verdict)
      ∷ literal "\">"
      ∷ shown (escape m.verdict)
      ∷ literal "</td><td>"
      ∷ shown (escape m.source)
      ∷ literal "</td><td class=\"raw\">"
      ∷ shown (escape (or_else m.raw_payload dash))
      ∷ literal "</td></tr>"
      ∷ []

  unfoldable pub measurement_rows : List (HistoryMeasurement F Stamp) → List Piece
  measurement_rows [] = []
  measurement_rows (m ∷ measurements) = measurement_row m ++ measurement_rows measurements

  -- What was consumed: a unit with a link to its page, or a lot.
  abbrev pub item_of : HistoryComponent F Stamp → Option Text → List Piece
  item_of c none =
      literal "lot "
      ∷ shown (escape (or_else c.lot_no dash))
      ∷ literal " &times; "
      ∷ shown (p.show_qty (or_else c.qty p.default))
      ∷ []
  item_of c (some uid) =
      literal "unit <a href=\"/t/"
      ∷ shown (escape uid)
      ∷ literal "\">"
      ∷ shown (escape uid)
      ∷ literal "</a>"
      ∷ []

  abbrev pub component_row : HistoryComponent F Stamp → List Piece
  component_row c =
      literal "<tr><td>"
      ∷ shown (decimal c.depth)
      ∷ literal "</td><td>"
      ∷ (item_of c c.child_uid
          ++ literal "</td><td>"
            ∷ shown (decimal c.operation_seq)
            ∷ literal "</td><td>"
            ∷ shown (escape (p.to_rfc3339 c.recorded_at))
            ∷ literal "</td></tr>"
            ∷ [])

  unfoldable pub component_rows : List (HistoryComponent F Stamp) → List Piece
  component_rows [] = []
  component_rows (c ∷ components) = component_row c ++ component_rows components
