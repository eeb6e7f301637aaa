-- ===== src/Core/Unit/Measured.antt =====
-- The measurements of a unit and the text of one that goes into the audit chain
-- (crates/trace-core/src/unit.rs, with the source of a value from crates/trace-core/src/dcp.rs). How a
-- value and a public id are printed are parameters, as in the text of an event.
use traceability.Base.{[], ◌∷◌, ◌++◌, Option, decimal}
use traceability.Core.Chain.{Bytes}
use traceability.Core.Error.{RowId, OperationSeq}
use traceability.Core.Dcp.{Value, Verdict, pass, fail}
use traceability.Core.Unit.Payload.{Printers, or_dash, field}

pub data ValueSource : Type 0 where
  device manual : ValueSource

-- The derived `Debug` of the verdict and of the source.
abbrev pub verdict_text : Verdict → Bytes
verdict_text pass = b'P' ∷ b'a' ∷ b's' ∷ b's' ∷ []
verdict_text fail = b'F' ∷ b'a' ∷ b'i' ∷ b'l' ∷ []

abbrev pub source_text : ValueSource → Bytes
source_text device = b'D' ∷ b'e' ∷ b'v' ∷ b'i' ∷ b'c' ∷ b'e' ∷ []
source_text manual = b'M' ∷ b'a' ∷ b'n' ∷ b'u' ∷ b'a' ∷ b'l' ∷ []

-- What the text is made of.
pub record Measurement (F Stamp : Type 0) : Type 0 where
  pub unit_id : RowId
  pub dcp_id : RowId
  pub operation_seq : OperationSeq
  pub value : Value F
  pub verdict : Verdict
  pub source : ValueSource
  pub device_id : Option RowId
  pub raw_payload : Option Bytes
  pub recorded_at : Stamp
  pub supersedes : Option RowId

-- `Value::canonical`, as bytes, and `MeasurementId::to_string`.
pub record ValuePrinters (F : Type 0) : Type 0 where
  pub show_value : Value F → Bytes
  pub show_public_id : RowId → Bytes

module _ {F Stamp : Type 0} (p : Printers Stamp) (v : ValuePrinters F)
    (m : Measurement F Stamp) where
  abbrev from_recorded : Bytes
  from_recorded =
      field (b'r' ∷ b'e' ∷ b'c' ∷ b'o' ∷ b'r' ∷ b'd' ∷ b'e' ∷ b'd' ∷ b'=' ∷ [])
        (p.to_rfc3339 m.recorded_at)
        ((b's' ∷ b'u' ∷ b'p' ∷ b'e' ∷ b'r' ∷ b's' ∷ b'e' ∷ b'd' ∷ b'e' ∷ b's' ∷ b'=' ∷ [])
          ++ or_dash v.show_public_id m.supersedes)

  abbrev from_device : Bytes
  from_device =
      field (b'd' ∷ b'e' ∷ b'v' ∷ b'i' ∷ b'c' ∷ b'e' ∷ b'=' ∷ []) (or_dash p.show_id m.device_id)
        (field (b'r' ∷ b'a' ∷ b'w' ∷ b'=' ∷ []) (or_dash (λ raw. raw) m.raw_payload) from_recorded)

  abbrev from_verdict : Bytes
  from_verdict =
      field (b'v' ∷ b'e' ∷ b'r' ∷ b'd' ∷ b'i' ∷ b'c' ∷ b't' ∷ b'=' ∷ []) (verdict_text m.verdict) (
        field (b's' ∷ b'o' ∷ b'u' ∷ b'r' ∷ b'c' ∷ b'e' ∷ b'=' ∷ []) (source_text m.source)
          from_device)

  unfoldable pub measurement_payload : Bytes
  measurement_payload = field (b'u' ∷ b'n' ∷ b'i' ∷ b't' ∷ b'=' ∷ []) (p.show_id m.unit_id) (
      field (b'd' ∷ b'c' ∷ b'p' ∷ b'=' ∷ []) (p.show_id m.dcp_id) (
        field (b'o' ∷ b'p' ∷ b'=' ∷ []) (decimal m.operation_seq) (
          field (b'v' ∷ b'a' ∷ b'l' ∷ b'u' ∷ b'e' ∷ b'=' ∷ []) (v.show_value m.value)
            from_verdict)))
