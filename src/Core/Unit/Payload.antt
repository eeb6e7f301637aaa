-- ===== src/Core/Unit/Payload.antt =====
-- The events of a unit and the text of an event that goes into the audit chain
-- (crates/trace-core/src/unit.rs). How an id and an instant are printed are parameters.
pub mod Injective
use traceability.Base.{
  decimal, decimal-injective, decimal-digits, is_digit, ℕ, zero, suc, ◌+◌, ◌/◌, ◌%◌, List, [], ◌∷◌,
  ◌++◌, Option, none, some, ltb, if◌then◌else◌,
}
use traceability.Core.Chain.{Bytes}
use traceability.Core.Error.{RowId, OperationSeq}

pub data EventKind : Type 0 where
  event_born scanned operation_started operation_completed gate_failed event_marked mark_verified
        component_consumed held event_quarantined rework_started event_scrapped event_completed
        event_shipped correction :
      EventKind

-- The derived `Debug`.
unfoldable pub kind_text : EventKind → Bytes
kind_text event_born = b'B' ∷ b'o' ∷ b'r' ∷ b'n' ∷ []
kind_text scanned = b'S' ∷ b'c' ∷ b'a' ∷ b'n' ∷ b'n' ∷ b'e' ∷ b'd' ∷ []
kind_text operation_started =
    b'O' ∷ b'p' ∷ b'e' ∷ b'r' ∷ b'a' ∷ b't' ∷ b'i' ∷ b'o' ∷ b'n' ∷ b'S' ∷ b't' ∷ b'a' ∷ b'r' ∷ b't'
    ∷ b'e' ∷ b'd' ∷ []
kind_text operation_completed =
    b'O' ∷ b'p' ∷ b'e' ∷ b'r' ∷ b'a' ∷ b't' ∷ b'i' ∷ b'o' ∷ b'n' ∷ b'C' ∷ b'o' ∷ b'm' ∷ b'p' ∷ b'l'
    ∷ b'e' ∷ b't' ∷ b'e' ∷ b'd' ∷ []
kind_text gate_failed = b'G' ∷ b'a' ∷ b't' ∷ b'e' ∷ b'F' ∷ b'a' ∷ b'i' ∷ b'l' ∷ b'e' ∷ b'd' ∷ []
kind_text event_marked = b'M' ∷ b'a' ∷ b'r' ∷ b'k' ∷ b'e' ∷ b'd' ∷ []
kind_text mark_verified =
    b'M' ∷ b'a' ∷ b'r' ∷ b'k' ∷ b'V' ∷ b'e' ∷ b'r' ∷ b'i' ∷ b'f' ∷ b'i' ∷ b'e' ∷ b'd' ∷ []
kind_text component_consumed =
    b'C' ∷ b'o' ∷ b'm' ∷ b'p' ∷ b'o' ∷ b'n' ∷ b'e' ∷ b'n' ∷ b't' ∷ b'C' ∷ b'o' ∷ b'n' ∷ b's' ∷ b'u'
    ∷ b'm' ∷ b'e' ∷ b'd' ∷ []
kind_text held = b'H' ∷ b'e' ∷ b'l' ∷ b'd' ∷ []
kind_text event_quarantined =
    b'Q' ∷ b'u' ∷ b'a' ∷ b'r' ∷ b'a' ∷ b'n' ∷ b't' ∷ b'i' ∷ b'n' ∷ b'e' ∷ b'd' ∷ []
kind_text rework_started =
    b'R' ∷ b'e' ∷ b'w' ∷ b'o' ∷ b'r' ∷ b'k' ∷ b'S' ∷ b't' ∷ b'a' ∷ b'r' ∷ b't' ∷ b'e' ∷ b'd' ∷ []
kind_text event_scrapped = b'S' ∷ b'c' ∷ b'r' ∷ b'a' ∷ b'p' ∷ b'p' ∷ b'e' ∷ b'd' ∷ []
kind_text event_completed = b'C' ∷ b'o' ∷ b'm' ∷ b'p' ∷ b'l' ∷ b'e' ∷ b't' ∷ b'e' ∷ b'd' ∷ []
kind_text event_shipped = b'S' ∷ b'h' ∷ b'i' ∷ b'p' ∷ b'p' ∷ b'e' ∷ b'd' ∷ []
kind_text correction = b'C' ∷ b'o' ∷ b'r' ∷ b'r' ∷ b'e' ∷ b'c' ∷ b't' ∷ b'i' ∷ b'o' ∷ b'n' ∷ []

-- What the text is made of; the public id, the place in the chain and the hashes are not printed.
pub record UnitEvent (Stamp : Type 0) : Type 0 where
  pub unit_id : RowId
  pub kind : EventKind
  pub operation_seq : Option OperationSeq
  pub station_id : Option RowId
  pub operator_id : Option RowId
  pub recorded_at : Stamp
  pub detail : Option Bytes

-- `RowId::to_string` and `to_rfc3339`.
pub record Printers (Stamp : Type 0) : Type 0 where
  pub show_id : RowId → Bytes
  pub to_rfc3339 : Stamp → Bytes

-- `map_or_else(|| "-".into(), …)`
abbrev pub or_dash : {A : Type 0} → (A → Bytes) → Option A → Bytes
or_dash show none = b'-' ∷ []
or_dash show (some a) = show a

abbrev pub bar : ℕ
bar = b'|'

abbrev pub field : Bytes → Bytes → Bytes → Bytes
field name shown rest = name ++ (shown ++ bar ∷ rest)

module _ {Stamp : Type 0} (p : Printers Stamp) (e : UnitEvent Stamp) where
  abbrev pub from_detail : Bytes
  from_detail =
      (b'd' ∷ b'e' ∷ b't' ∷ b'a' ∷ b'i' ∷ b'l' ∷ b'=' ∷ []) ++ or_dash (λ shown. shown) e.detail

  abbrev pub from_recorded : Bytes
  from_recorded =
      field (b'r' ∷ b'e' ∷ b'c' ∷ b'o' ∷ b'r' ∷ b'd' ∷ b'e' ∷ b'd' ∷ b'=' ∷ [])
        (p.to_rfc3339 e.recorded_at) from_detail

  abbrev pub from_operator : Bytes
  from_operator =
      field (b'o' ∷ b'p' ∷ b'e' ∷ b'r' ∷ b'a' ∷ b't' ∷ b'o' ∷ b'r' ∷ b'=' ∷ [])
        (or_dash p.show_id e.operator_id) from_recorded

  abbrev pub from_station : Bytes
  from_station =
      field (b's' ∷ b't' ∷ b'a' ∷ b't' ∷ b'i' ∷ b'o' ∷ b'n' ∷ b'=' ∷ [])
        (or_dash p.show_id e.station_id) from_operator

  abbrev pub from_op : Bytes
  from_op = field (b'o' ∷ b'p' ∷ b'=' ∷ []) (or_dash decimal e.operation_seq) from_station

  abbrev pub from_kind : Bytes
  from_kind = field (b'k' ∷ b'i' ∷ b'n' ∷ b'd' ∷ b'=' ∷ []) (kind_text e.kind) from_op

  unfoldable pub canonical_payload : Bytes
  canonical_payload = field (b'u' ∷ b'n' ∷ b'i' ∷ b't' ∷ b'=' ∷ []) (p.show_id e.unit_id) from_kind
