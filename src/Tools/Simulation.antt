-- ===== src/Tools/Simulation.antt =====
-- tools/route-sim/src/main.rs: `run` pushes one unit through a route. A line of the report stands as its
-- template with the values put into it; the set of completed operations is printed in ascending order,
-- which the list does not keep. The maps by position, whose keys are texts in the code, stand by
-- the position; a key that no position prints is never looked up. Parsing and generating a ULID are
-- parameters. What stands in `Line` and in `Scenario` is what `run` prints and reads.
pub mod Rounds
pub mod Ending
use traceability.Base.{
  ℕ, zero, suc, ◌*◌, String, Bool, true, false, not, List, [], ◌∷◌, ◌++◌, Option, none, some,
  Result, ok, err, if◌then◌else◌, ◌==◌, length, map, is_empty,
}
use traceability.Core.Error.{RowId, UnitUid, OperationSeq, CoreError}
use traceability.Core.Unit.{
  UnitState, in_process, completed as done_state, name, TracedUnit, transition_to,
}
use traceability.Core.Route.{RouteOperation, Route, OperationDef, insert}
use traceability.Core.Route.Validate.{validate}
use traceability.Core.Config.{Operator, ProductRevision, Station}
use traceability.Core.Dcp.{Verdict, DataCollectionPoint}
use traceability.Core.Engine.{
  ComponentScan, CapturedValue, MarkVerification, OperationContext, Reason, GateResult, Effect,
  Disposition, Advance, completed, blocked,
}
use traceability.Core.Engine.Advancing.{resolve_operation, try_advance, apply_disposition}

pub record OperationInput (F : Type 0) : Type 0 where
  pub identity_scanned : Bool
  pub component_scans : List ComponentScan
  pub captured : List (CapturedValue F)
  pub test_verdicts : List (String × Verdict)
  pub mark_verification : Option MarkVerification

-- The derived `Default`: the default of a field under `serde` is another one.
abbrev pub default_input : {F : Type 0} → OperationInput F
default_input = record {
  identity_scanned = false;
  component_scans = [];
  captured = [];
  test_verdicts = [];
  mark_verification = none;
}

pub record Scenario (F : Type 0) : Type 0 where
  pub name : String
  pub route : Route
  pub operation_defs : List OperationDef
  pub dcps : List (OperationSeq × List (DataCollectionPoint F))
  pub stations : List Station
  pub operator : Operator
  pub revision : ProductRevision
  pub unit_uid : Option String
  pub inputs : List (OperationSeq × OperationInput F)

pub data Line (F : Type 0) : Type 0 where
  heading : (name revision : String) → (line_id : RowId) → (operations stations : ℕ) → Line F
  unit_line : (uid : UnitUid) → (serial : String) → Line F
  op_passed op_blocked : (seq : OperationSeq) → (name station : String) → Line F
  gate_ok : (gate : String) → Line F
  gate_failed : (gate : String) → (reason : Option (Reason F)) → Line F
  effect_line : (effect : Effect) → Line F
  route_complete_line : Line F
  next_ready_line : (next_ready : List OperationSeq) → Line F
  disposition_line : (disposition : Disposition) → Line F
  final_state : (state : String) → Line F
  completed_line : (completed : List OperationSeq) → Line F

pub data SimError : Type 0 where
  invalid_definition : (problem : CoreError) → SimError
  invalid_uid : (uid : String) → SimError
  did_not_converge : SimError
  unknown_def : (seq : OperationSeq) → (id : RowId) → SimError
  refused : (problem : CoreError) → SimError

-- `defs.get(id)` in the map that is collected from the definitions: the last one wins.
unfoldable pub def_of : RowId → List OperationDef → Option OperationDef
def_of id [] = none
def_of id (d ∷ rest) = elim (def_of id rest) [
  | some later ↦ some later
  | none ↦ if d.id == id then some d else none
]

-- `get(&key)` with the value for a missing key.
unfoldable pub get_or : {A : Type 0} → A → OperationSeq → List (OperationSeq × A) → A
get_or default seq [] = default
get_or default seq ((s, found) ∷ rest) = if s == seq then found else get_or default seq rest

-- Where the loop stands: on the way, or at its `break`, each with the unit, the completed operations
-- and the lines of the round; or left with an error.
pub data SimRound (F : Type 0) : Type 0 where
  onward stopped :
      (unit : TracedUnit) → (done : List OperationSeq) → (lines : List (Line F)) → SimRound F
  failed : (problem : SimError) → SimRound F

module _ {F : Type 0} (s : Scenario F) where
  -- The stations in order, up to the first that can take the unit: `find_map`.
  unfoldable pub find_work :
      TracedUnit → List OperationSeq → List Station → Option (Station × RouteOperation)
  find_work unit done [] = none
  find_work unit done (st ∷ rest) = elim (resolve_operation s.route unit st done) [
    | ok op ↦ some (st, op)
    | err problem ↦ find_work unit done rest
  ]

  unfoldable pub context :
      TracedUnit → List OperationSeq → Station → RouteOperation → OperationDef → OperationContext F
  context unit done station op def =
      let input = get_or default_input op.seq s.inputs in
      record {
        unit = unit;
        revision = s.revision;
        route = s.route;
        operation = op;
        operation_def = def;
        station = station;
        operator = some s.operator;
        completed = done;
        scanned_identity = if input.identity_scanned then some unit.uid else none;
        component_scans = input.component_scans;
        captured = input.captured;
        dcps = get_or [] op.seq s.dcps;
        test_verdicts = input.test_verdicts;
        mark_verification = input.mark_verification;
        attempt = 1;
      }

module _ {F : Type 0} (s : Scenario F) where
  unfoldable pub new_unit : UnitUid → TracedUnit
  new_unit uid = record {
    id = 1;
    uid = uid;
    tenant_id = 1;
    plant_id = 1;
    product_revision_id = s.revision.id;
    job_card_id = 1;
    serial = "SIM-0000000001";
    state = in_process;
    current_operation = none;
    index_in_job = 0;
  }

  -- The lines of the loop, with those before and behind it.
  abbrev pub framed : UnitUid → TracedUnit → List OperationSeq → List (Line F) → List (Line F)
  framed uid unit done lines =
      heading s.name s.route.revision s.route.line_id (length s.route.operations)
        (length s.stations)
      ∷ unit_line uid "SIM-0000000001"
      ∷ (lines ++ final_state (name unit.state) ∷ completed_line done ∷ [])

  abbrev pub headed :
      UnitUid
      → Result SimError (TracedUnit × List OperationSeq × List (Line F))
      → Result SimError (TracedUnit × List OperationSeq × List (Line F))
  headed uid (err problem) = err problem
  headed uid (ok (unit, done, lines)) = ok (unit, done, framed uid unit done lines)

module _ {F : Type 0} where
  -- The lines of a round stand before those of the rounds behind it.
  abbrev pub after :
      List (Line F)
      → Result SimError (TracedUnit × List OperationSeq × List (Line F))
      → Result SimError (TracedUnit × List OperationSeq × List (Line F))
  after lines (err problem) = err problem
  after lines (ok (unit, done, rest)) = ok (unit, done, lines ++ rest)

  -- What the loop makes of a round, with the rounds behind it.
  abbrev pub follow :
      (TracedUnit
        → List OperationSeq
        → Result SimError (TracedUnit × List OperationSeq × List (Line F)))
      → SimRound F
      → Result SimError (TracedUnit × List OperationSeq × List (Line F))
  follow next (failed problem) = err problem
  follow next (stopped unit done lines) = ok (unit, done, lines)
  follow next (onward unit done lines) = after lines (next unit done)

module _ (parse_uid : String → Option UnitUid) (generated : UnitUid) where
  abbrev pub uid_of : Option String → Result SimError UnitUid
  uid_of none = ok generated
  uid_of (some shown) = elim (parse_uid shown) [
    | none ↦ err (invalid_uid shown)
    | some uid ↦ ok uid
  ]

module _ (uid_text : UnitUid → String) {F : Type 0} (s : Scenario F) (verbose : Bool) where
  -- `transition_to(Completed)?`, with the `break` behind it.
  abbrev pub finish :
      List OperationSeq → List (Line F) → TracedUnit × Result CoreError (Unit {0}) → SimRound F
  finish done lines (unit, err problem) = failed (refused problem)
  finish done lines (unit, ok moved) = stopped unit done (lines ++ route_complete_line ∷ [])

  -- `apply_disposition(..)?`, with the `break` behind it.
  abbrev pub hold :
      List OperationSeq → List (Line F) → TracedUnit × Result CoreError (Unit {0}) → SimRound F
  hold done lines (unit, err problem) = failed (refused problem)
  hold done lines (unit, ok moved) = stopped unit done lines

  abbrev passed_lines :
      Station → RouteOperation → OperationDef → List (GateResult F) → List Effect → List (Line F)
  passed_lines station op def gates effects =
      op_passed op.seq def.name station.code
      ∷ ((if verbose then map (λ g. gate_ok g.gate) gates else []) ++ map effect_line effects)

  abbrev blocked_lines :
      Station → RouteOperation → OperationDef → List (GateResult F) → Disposition → List (Line F)
  blocked_lines station op def failures disposition =
      op_blocked op.seq def.name station.code
      ∷ (map (λ g. gate_failed g.gate g.reason) failures ++ disposition_line disposition ∷ [])

  abbrev ready_lines : List OperationSeq → List (Line F)
  ready_lines next_ready =
      if verbose then (if is_empty next_ready then [] else next_ready_line next_ready ∷ []) else []

  -- The `match` on the answer of the engine.
  abbrev pub react :
      TracedUnit
      → List OperationSeq
      → Station
      → RouteOperation
      → OperationDef
      → Advance F
      → SimRound F
  react unit done station op def (completed gates effects next_ready route_complete) =
      let lines = passed_lines station op def gates effects in
      let done' = insert op.seq done in
      let unit' = record unit { current_operation = some op.seq } in
      if route_complete
      then finish done' lines (transition_to uid_text unit' done_state)
      else onward unit' done' (lines ++ ready_lines next_ready)
  react unit done station op def (blocked gates failures disposition) =
      hold done (blocked_lines station op def failures disposition)
        (apply_disposition uid_text unit disposition)

  abbrev pub attempt_with :
      TracedUnit → List OperationSeq → Station → RouteOperation → Option OperationDef → SimRound F
  attempt_with unit done station op none = failed (unknown_def op.seq op.operation_def_id)
  attempt_with unit done station op (some def) =
      react unit done station op def (try_advance uid_text (context s unit done station op def))

  abbrev pub work : TracedUnit → List OperationSeq → Option (Station × RouteOperation) → SimRound F
  work unit done none = stopped unit done []
  work unit done (some (station, op)) =
      attempt_with unit done station op (def_of op.operation_def_id s.operation_defs)

  -- One round of the loop, below its guard.
  unfoldable pub round : TracedUnit → List OperationSeq → SimRound F
  round unit done = work unit done (find_work s unit done s.stations)

  -- The loop, by the rounds that its guard still lets begin.
  unfoldable pub rounds :
      ℕ
      → TracedUnit
      → List OperationSeq
      → Result SimError (TracedUnit × List OperationSeq × List (Line F))
  rounds zero unit done = err did_not_converge
  rounds (suc n) unit done = follow (rounds n) (round unit done)

  module _ (parse_uid : String → Option UnitUid) (generated : UnitUid) where
    abbrev pub run_unit :
        Result SimError UnitUid → Result SimError (TracedUnit × List OperationSeq × List (Line F))
    run_unit (err problem) = err problem
    run_unit (ok uid) = headed s uid (rounds (length s.route.operations * 4) (new_unit s uid) [])

    abbrev pub checked :
        Result CoreError (Unit {0})
        → Result SimError (TracedUnit × List OperationSeq × List (Line F))
    checked (err problem) = err (invalid_definition problem)
    checked (ok done) = run_unit (uid_of parse_uid generated s.unit_uid)

    -- The report, with the unit and the completed operations that it ends with.
    unfoldable pub run : Result SimError (TracedUnit × List OperationSeq × List (Line F))
    run = checked (validate s.route)
