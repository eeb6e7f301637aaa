-- ===== src/Core/Engine.antt =====
-- crates/trace-core/src/engine.rs: what a gate may look at, the outcomes of gates, and the types that
-- the engine answers with. The functions stand in the children.
pub mod Gates
pub mod Advancing
pub mod Safety
pub mod Enforced
pub mod Collected
pub mod Stations
use traceability.Base.{ℕ, String, Bool, true, false, List, [], ◌∷◌, Option, none, some}
use traceability.Core.Error.{RowId, UnitUid, OperationSeq}
use traceability.Core.Unit.{TracedUnit}
use traceability.Core.Route.{RouteOperation, Route, OperationDef}
use traceability.Core.Config.{Operator, ProductRevision, Station}
use traceability.Core.Dcp.{Value, Verdict, DataCollectionPoint}

pub record ComponentScan : Type 0 where
  pub part_no : String
  pub bom_line_id : Option RowId
  pub raw : String

pub record CapturedValue (F : Type 0) : Type 0 where
  pub dcp_id : RowId
  pub value : Value F
  pub verdict : Verdict

pub record MarkVerification : Type 0 where
  pub decoded : String
  pub grade : Option ℕ

-- `test_verdicts` is a map by name.
pub record OperationContext (F : Type 0) : Type 0 where
  pub unit : TracedUnit
  pub revision : ProductRevision
  pub route : Route
  pub operation : RouteOperation
  pub operation_def : OperationDef
  pub station : Station
  pub operator : Option Operator
  pub completed : List OperationSeq
  pub scanned_identity : Option UnitUid
  pub component_scans : List ComponentScan
  pub captured : List (CapturedValue F)
  pub dcps : List (DataCollectionPoint F)
  pub test_verdicts : List (String × Verdict)
  pub mark_verification : Option MarkVerification
  pub attempt : ℕ

-- One entry of the list that the data-capture gate joins by "; ".
pub data CaptureProblem (F : Type 0) : Type 0 where
  not_captured : (name : String) → CaptureProblem F
  outside_limits : (name : String) → (value : Value F) → (min max : Option F) → CaptureProblem F

-- The reasons of a failed gate, each text by its template and values.
pub data Reason (F : Type 0) : Type 0 where
  scanned_other : (scanned unit : UnitUid) → Reason F
  not_scanned no_operator : Reason F
  deactivated : (username : String) → Reason F
  not_certified : (username : String) → (skill : RowId) → (operation : String) → Reason F
  predecessors_missing : (missing : List OperationSeq) → Reason F
  not_on_bom : (part_no : String) → Reason F
  lines_missing : (missing : List RowId) → Reason F
  capture_problems : (problems : List (CaptureProblem F)) → Reason F
  test_failed no_verdict : (test_name : String) → Reason F
  not_read_back : Reason F
  decoded_other : (decoded intended : String) → Reason F
  graded_below : (actual min : ℕ) → Reason F
  grade_missing : (min : ℕ) → Reason F

pub record GateResult (F : Type 0) : Type 0 where
  pub gate : String
  pub passed : Bool
  pub reason : Option (Reason F)

-- `GateResult::pass` and `GateResult::fail`.
abbrev pub pass_gate : {F : Type 0} → String → GateResult F
pass_gate gate = record { gate = gate; passed = true; reason = none }

abbrev pub fail_gate : {F : Type 0} → String → Reason F → GateResult F
fail_gate gate reason = record { gate = gate; passed = false; reason = some reason }

pub data Effect : Type 0 where
  release_interlock : (device_id : RowId) → Effect

pub data Disposition : Type 0 where
  retry : (attempts_remaining : ℕ) → Disposition
  rework : (to_operation : OperationSeq) → (invalidates : List OperationSeq) → Disposition
  quarantine scrap : Disposition

pub data Advance (F : Type 0) : Type 0 where
  completed :
      (gates : List (GateResult F))
      → (effects : List Effect) → (next_ready : List OperationSeq) → (route_complete : Bool)
      → Advance F
  blocked : (gates failures : List (GateResult F)) → (disposition : Disposition) → Advance F

unfoldable pub is_completed : {F : Type 0} → Advance F → Bool
is_completed (completed gates effects next_ready route_complete) = true
is_completed (blocked gates failures disposition) = false
