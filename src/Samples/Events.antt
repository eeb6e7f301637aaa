-- ===== src/Samples/Events.antt =====
-- Examples for the text of an event.
use traceability.Base.{
  ℕ, ◌∷◌, [], Option, none, some, ◌≡◌, ◌↔◌, refl, decimal, decimal-injective, decimal-digits,
}
use traceability.Core.Error.{RowId, OperationSeq}
use traceability.Core.Unit.Payload.{held, UnitEvent, Printers, or_dash, canonical_payload}
use traceability.Core.Unit.Payload.Injective.{IsPrinting, digits-lack, canonical_payload_iff}

-- Ids in decimal digits, and instants as a letter.
abbrev printers : Printers ℕ
printers = record { show_id = decimal; to_rfc3339 = λ stamp. b'T' ∷ [] }

printers-IsPrinting : IsPrinting printers
printers-IsPrinting = record {
  id_injective = decimal-injective;
  id_lacks = λ n. (digits-lack (decimal n) (decimal-digits n)).0;
  id_no_dash = λ n. (digits-lack (decimal n) (decimal-digits n)).1;
  stamp_lacks = λ s. refl;
}

abbrev event : Option OperationSeq → UnitEvent ℕ
event operation = record {
  unit_id = 12;
  kind = held;
  operation_seq = operation;
  station_id = some 3;
  operator_id = none;
  recorded_at = 5;
  detail = none;
}

canonical_payload_iff_example :
    (canonical_payload printers (event (some 10)) ≡ canonical_payload printers (event none)) ↔ (
      (◌≡◌ {A = RowId} 12 12)
      × (held ≡ held)
      × (◌≡◌ {A = Option OperationSeq} (some 10) none)
      × (◌≡◌ {A = Option RowId} (some 3) (some 3))
      × (◌≡◌ {A = Option RowId} none none)
      × (printers.to_rfc3339 5 ≡ printers.to_rfc3339 5)
      × (or_dash (λ shown. shown) (event (some 10)).detail
          ≡ or_dash (λ shown. shown) (event none).detail))
canonical_payload_iff_example =
    canonical_payload_iff printers printers-IsPrinting (event (some 10)) (event none)
