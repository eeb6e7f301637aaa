-- ===== src/Samples/Rows.antt =====
-- Examples for the tables of the store.
use traceability.Base.{
  ℕ, ◌≤◌, ◌<◌, ◌^◌, [], ◌∷◌, List, none, some, ok, ◌≡◌, ◌↔◌, refl, arith, length, bytes_eq, Memᴰ,
  decimal,
}
use traceability.Core.Unit.Payload.{held, scanned, Printers}
use traceability.Core.Unit.Measured.{manual, ValuePrinters}
use traceability.Core.Chain
use traceability.Core.Chain.{Bytes, ChainLink, replicate, genesis}
use traceability.Core.Dcp.{numeric, pass}
use traceability.Store.{
  UnitRow, NewEvent, NewMeasurement, Tables, EventRow, unit_links, check_links, verify_unit_chain,
}
use traceability.Store.Chained.{Call, event, measurement, fresh, after, recorded, appended-verify}
use traceability.Store.Checking.{altered, verify_unit_chain-contents_blind}
use traceability.Store.Recall.{GenealogyRow, units_affected_by_lot, IsAffected}
use traceability.Store.Recall.Reached.{units_affected_by_lot_iff}

abbrev digest : Bytes → Bytes
digest m = length m ∷ []

abbrev printers : Printers ℕ
printers = record { show_id = decimal; to_rfc3339 = λ stamp. b'T' ∷ [] }

abbrev values : ValuePrinters ℕ
values = record { show_value = λ value. b'v' ∷ []; show_public_id = decimal }

abbrev unit_row : ℕ → UnitRow ℕ
unit_row id = record {
  id = id;
  uid = "01J000";
  plant_id = 1;
  product_revision_id = 1;
  job_card_id = 1;
  serial = "A-1";
  state = "BORN";
  current_operation = none;
  index_in_job = 0;
  created_at = 5;
}

abbrev new_event : ℕ → NewEvent ℕ
new_event unit_id = record {
  unit_id = unit_id;
  plant_id = 1;
  kind = held;
  operation_seq = none;
  station_id = none;
  operator_id = none;
  detail = none;
  stamps = record { recorded_at = 5; received_at = 6 };
}

abbrev new_measurement : NewMeasurement ℕ ℕ
new_measurement = record {
  unit_id = 1;
  plant_id = 1;
  dcp_id = 3;
  operation_seq = 10;
  station_id = none;
  operator_id = none;
  device_id = none;
  value = numeric 6;
  verdict = pass;
  source = manual;
  raw_payload = none;
  stamps = record { recorded_at = 5; received_at = 6 };
  supersedes = none;
  supersede_reason = none;
}

-- Two units whose calls alternate.
abbrev units : List (UnitRow ℕ)
units = unit_row 1 ∷ unit_row 2 ∷ []

abbrev calls : List (Call ℕ ℕ)
calls = measurement new_measurement ∷ event (new_event 2) ∷ event (new_event 1) ∷ []

few : length (recorded digest printers values 1 calls) < 2 ^ 63
unfolding recorded
few = omega arith

appended-verify_example :
    (Chain.verify digest
        (unit_links (after digest printers values (fresh units) calls) 1)
        (recorded digest printers values 1 calls)
      ≡ ok tt)
    × (verify_unit_chain (after digest printers values (fresh units) calls) 1
        ≡ ok (length (recorded digest printers values 1 calls)))
appended-verify_example = appended-verify digest printers values units calls 1 refl few

abbrev linked : Bytes → Bytes → ℕ → ChainLink
linked prev_hash row_hash seq = record { seq = seq; prev_hash = prev_hash; row_hash = row_hash }

abbrev tables : Tables ℕ ℕ
tables = record {
  units = units;
  events = record { new = new_event 1; link = linked genesis (7 ∷ []) 0 } ∷ [];
  measurements = [];
}

abbrev edit : EventRow ℕ → NewEvent ℕ
edit r = record r.new { kind = scanned }

abbrev edited : Tables ℕ ℕ
edited = record {
  units = units;
  events = altered edit (record { new = new_event 1; link = linked genesis (7 ∷ []) 0 }) ∷ [];
  measurements = [];
}

verify_unit_chain-contents_blind_example : verify_unit_chain edited 1 ≡ verify_unit_chain tables 1
verify_unit_chain-contents_blind_example =
    verify_unit_chain-contents_blind tables 1 edit (λ r. refl)

whole_checks :
    check_links genesis
      (linked genesis (7 ∷ []) 0 ∷ linked (7 ∷ []) (7 ∷ []) 1 ∷ linked (7 ∷ []) (8 ∷ []) 2 ∷ [])
    ≡ ok tt
unfolding check_links bytes_eq genesis
whole_checks = refl

cut_checks :
    check_links genesis (linked genesis (7 ∷ []) 0 ∷ linked (7 ∷ []) (8 ∷ []) 2 ∷ []) ≡ ok tt
unfolding check_links bytes_eq genesis
cut_checks = refl

-- Unit 2 consumed the lot, and went into unit 1.
abbrev genealogy : List GenealogyRow
genealogy =
    record {
      parent_unit_id = 1;
      child_unit_id = some 2;
      bom_line_id = none;
      lot_no = none;
      operation_seq = 10;
    }
    ∷ record {
      parent_unit_id = 2;
      child_unit_id = none;
      bom_line_id = some 4;
      lot_no = some "L-9";
      operation_seq = 10;
    }
    ∷ []

units_affected_by_lot_iff_example :
    Memᴰ (unit_row 1) (units_affected_by_lot genealogy units "L-9")
    ↔ (Memᴰ (unit_row 1) units × ((depth : ℕ) × (depth ≤ 32) × IsAffected genealogy "L-9" depth 1))
units_affected_by_lot_iff_example = units_affected_by_lot_iff genealogy "L-9" units (unit_row 1)
