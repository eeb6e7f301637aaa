-- ===== src/Store.antt =====
-- crates/trace-store: the tables of one tenant, as row-level security shows them, and what the methods
-- of `TenantTx` do with them. A statement that fails ends its transaction, which leaves the tables as
-- they were, so only statements that succeed stand here. A table lists its rows, the newest first; ids
-- and instants are arguments.
pub mod Columns
pub mod Ordering
pub mod Chained
pub mod Checking
pub mod Recall
use traceability.Base.{
  ℕ, ◌+◌, String, Bool, true, false, not, List, [], ◌∷◌, ◌++◌, Option, none, some, Result, ok, err,
  leb, ◌==◌, if◌then◌else◌, filter, map, any, length, bytes_eq, str_eq, find?,
}
use traceability.Core.Error.{RowId, OperationSeq, CoreError, hash_chain_broken, hash}
use traceability.Core.Unit.{UnitState, born, name}
use traceability.Core.Unit.Payload.{EventKind, UnitEvent, Printers, canonical_payload}
use traceability.Core.Unit.Measured.{ValueSource, Measurement, ValuePrinters, measurement_payload}
use traceability.Core.Chain.{Bytes, ChainLink, genesis, append}
use traceability.Core.Dcp.{Value, Verdict}

pub data StoreError : Type 0 where
  domain : (problem : CoreError) → StoreError
  decode : (entity field detail : String) → StoreError
  not_found : (entity : String) → (key : RowId) → StoreError

pub record UnitRow (Stamp : Type 0) : Type 0 where
  pub id : RowId
  pub uid : String
  pub plant_id : RowId
  pub product_revision_id : RowId
  pub job_card_id : RowId
  pub serial : String
  pub state : String
  pub current_operation : Option OperationSeq
  pub index_in_job : ℕ
  pub created_at : Stamp

-- The instants of a row: `Stamps`.
pub record Stamps (Stamp : Type 0) : Type 0 where
  pub recorded_at : Stamp
  pub received_at : Stamp

pub record NewEvent (Stamp : Type 0) : Type 0 where
  pub unit_id : RowId
  pub plant_id : RowId
  pub kind : EventKind
  pub operation_seq : Option OperationSeq
  pub station_id : Option RowId
  pub operator_id : Option RowId
  pub detail : Option Bytes
  pub stamps : Stamps Stamp

pub record NewMeasurement (F Stamp : Type 0) : Type 0 where
  pub unit_id : RowId
  pub plant_id : RowId
  pub dcp_id : RowId
  pub operation_seq : OperationSeq
  pub station_id : Option RowId
  pub operator_id : Option RowId
  pub device_id : Option RowId
  pub value : Value F
  pub verdict : Verdict
  pub source : ValueSource
  pub raw_payload : Option Bytes
  pub stamps : Stamps Stamp
  pub supersedes : Option RowId
  pub supersede_reason : Option Bytes

-- A row with its three columns of the chain. `chain_seq` is a BIGINT, so it holds what is below 2 ^ 63.
pub record EventRow (Stamp : Type 0) : Type 0 where
  pub new : NewEvent Stamp
  pub link : ChainLink

pub record MeasurementRow (F Stamp : Type 0) : Type 0 where
  pub new : NewMeasurement F Stamp
  pub link : ChainLink

pub record Tables (F Stamp : Type 0) : Type 0 where
  pub units : List (UnitRow Stamp)
  pub events : List (EventRow Stamp)
  pub measurements : List (MeasurementRow F Stamp)

-- The event and the measurement whose text is hashed.
abbrev pub event_of : {Stamp : Type 0} → NewEvent Stamp → UnitEvent Stamp
event_of new = record {
  unit_id = new.unit_id;
  kind = new.kind;
  operation_seq = new.operation_seq;
  station_id = new.station_id;
  operator_id = new.operator_id;
  recorded_at = new.stamps.recorded_at;
  detail = new.detail;
}

abbrev pub measurement_of : {F Stamp : Type 0} → NewMeasurement F Stamp → Measurement F Stamp
measurement_of new = record {
  unit_id = new.unit_id;
  dcp_id = new.dcp_id;
  operation_seq = new.operation_seq;
  value = new.value;
  verdict = new.verdict;
  source = new.source;
  device_id = new.device_id;
  raw_payload = new.raw_payload;
  recorded_at = new.stamps.recorded_at;
  supersedes = new.supersedes;
}

-- `ORDER BY chain_seq`
abbrev pub insert_link : ChainLink → List ChainLink → List ChainLink
insert_link x [] = x ∷ []
insert_link x (y ∷ links) = if leb x.seq y.seq then x ∷ y ∷ links else y ∷ insert_link x links

unfoldable pub order_links : List ChainLink → List ChainLink
order_links [] = []
order_links (x ∷ links) = insert_link x (order_links links)

abbrev pub last_or : Option ChainLink → List ChainLink → Option ChainLink
last_or tail [] = tail
last_or tail (x ∷ links) = last_or (some x) links

abbrev pub event_links : {Stamp : Type 0} → RowId → List (EventRow Stamp) → List ChainLink
event_links unit_id rows = map (λ r. r.link) (filter (λ r. r.new.unit_id == unit_id) rows)

abbrev pub measurement_links :
    {F Stamp : Type 0} → RowId → List (MeasurementRow F Stamp) → List ChainLink
measurement_links unit_id rows = map (λ r. r.link) (filter (λ r. r.new.unit_id == unit_id) rows)

-- The loop of `verify_unit_chain`.
unfoldable pub check_links : Bytes → List ChainLink → Result StoreError (Unit {0})
check_links expected_prev [] = ok tt
check_links expected_prev (link ∷ links) =
    if not (bytes_eq link.prev_hash expected_prev)
    then err (domain (hash_chain_broken link.seq (hash expected_prev) (hash link.prev_hash)))
    else check_links link.row_hash links

abbrev pub with_count : ℕ → Result StoreError (Unit {0}) → Result StoreError ℕ
with_count n (ok done) = ok n
with_count n (err problem) = err problem

module _ {F Stamp : Type 0} where
  -- `SELECT … FROM unit_event … UNION ALL SELECT … FROM measurement … ORDER BY chain_seq`
  unfoldable pub unit_links : Tables F Stamp → RowId → List ChainLink
  unit_links t unit_id =
      order_links (event_links unit_id t.events ++ measurement_links unit_id t.measurements)

  -- The first row of the descending order is the last of the ascending one.
  unfoldable pub chain_tail : Tables F Stamp → RowId → Option ChainLink
  chain_tail t unit_id = last_or none (unit_links t unit_id)

  unfoldable pub lock_unit : Tables F Stamp → RowId → Result StoreError (Unit {0})
  lock_unit t unit_id =
      if any (λ u. u.id == unit_id) t.units then ok tt else err (not_found "unit" unit_id)

  unfoldable pub unit_by_uid : Tables F Stamp → String → Option (UnitRow Stamp)
  unit_by_uid t uid = find? (λ u. str_eq u.uid uid) t.units

  unfoldable pub set_unit_state :
      Tables F Stamp → RowId → UnitState → Option OperationSeq → Tables F Stamp
  set_unit_state t unit_id state current_operation = record t {
    units =
        map
          (λ u.
            if u.id == unit_id
            then record u { state = name state; current_operation = current_operation }
            else u)
          t.units;
  }

  unfoldable pub verify_unit_chain : Tables F Stamp → RowId → Result StoreError ℕ
  verify_unit_chain t unit_id =
      let links = unit_links t unit_id in with_count (length links) (check_links genesis links)

module _ (sha256_hex : Bytes → Bytes) {F Stamp : Type 0} (p : Printers Stamp)
    (v : ValuePrinters F) where
  abbrev pub event_link : Tables F Stamp → NewEvent Stamp → ChainLink
  event_link t new =
      append sha256_hex (chain_tail t new.unit_id) (canonical_payload p (event_of new))

  abbrev pub insert_event :
      Tables F Stamp
      → NewEvent Stamp
      → Result StoreError (Unit {0})
      → Tables F Stamp × Result StoreError ChainLink
  insert_event t new (err problem) = (t, err problem)
  insert_event t new (ok locked) =
      let link = event_link t new in
      (record t { events = record { new = new; link = link } ∷ t.events }, ok link)

  unfoldable pub append_event :
      Tables F Stamp → NewEvent Stamp → Tables F Stamp × Result StoreError ChainLink
  append_event t new = insert_event t new (lock_unit t new.unit_id)

  abbrev pub measurement_link : Tables F Stamp → NewMeasurement F Stamp → ChainLink
  measurement_link t new =
      append sha256_hex (chain_tail t new.unit_id) (measurement_payload p v (measurement_of new))

  abbrev pub insert_measurement :
      Tables F Stamp
      → NewMeasurement F Stamp
      → Result StoreError (Unit {0})
      → Tables F Stamp × Result StoreError ChainLink
  insert_measurement t new (err problem) = (t, err problem)
  insert_measurement t new (ok locked) =
      let link = measurement_link t new in
      (record t { measurements = record { new = new; link = link } ∷ t.measurements }, ok link)

  unfoldable pub append_measurement :
      Tables F Stamp → NewMeasurement F Stamp → Tables F Stamp × Result StoreError ChainLink
  append_measurement t new = insert_measurement t new (lock_unit t new.unit_id)
