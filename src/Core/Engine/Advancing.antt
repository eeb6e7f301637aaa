-- ===== src/Core/Engine/Advancing.antt =====
-- `RouteEngine` of crates/trace-core/src/engine.rs: resolving an operation for a station, advancing a
-- unit, and the disposition of a failed one.
use traceability.Base.{
  ℕ, ◌-◌, String, not, List, [], ◌∷◌, ◌++◌, none, some, Result, ok, err, ltb, if◌then◌else◌, filter,
  find?, is_empty, map,
}
use traceability.Core.Error.{
  UnitUid, OperationSeq, CoreError, illegal_transition, station_cannot_serve,
}
use traceability.Core.Unit.{
  quarantined, scrapped, reworking, name, accepts_work, TracedUnit, transition_to,
}
use traceability.Core.Route.{
  FailurePath, Gate, RouteOperation, Route, interlock_out, kind, is_output, insert,
  ready_operations, is_complete,
}
use traceability.Core.Config.{Station, can_perform}
use traceability.Core.Engine.{
  OperationContext, GateResult, pass_gate, Effect, release_interlock, Disposition, Advance,
  completed, blocked,
}
use traceability.Core.Engine.Gates.{evaluate_gate}

unfoldable pub resolve_operation :
    Route → TracedUnit → Station → List OperationSeq → Result CoreError RouteOperation
resolve_operation route unit station done =
    if not (accepts_work unit.state)
    then err (illegal_transition (name unit.state) "start an operation")
    else if not station.active
    then err (station_cannot_serve station.code)
    else (elim (find? (λ op. can_perform station op.operation_def_id)
        (ready_operations route done)) [
          | some op ↦ ok op
          | none ↦ err (station_cannot_serve station.code)
        ])

unfoldable pub disposition_for : FailurePath → ℕ → Disposition
disposition_for (FailurePath.retry max_attempts) attempt =
    if ltb attempt max_attempts
    then Disposition.retry (max_attempts - attempt)
    else Disposition.quarantine
disposition_for (FailurePath.rework to_operation invalidates) attempt =
    Disposition.rework to_operation invalidates
disposition_for FailurePath.quarantine attempt = Disposition.quarantine
disposition_for FailurePath.scrap attempt = Disposition.scrap

-- The loop over the output gates: the effects, and the gate results that are pushed.
unfoldable pub effects_of : List Gate → List Effect
effects_of [] = []
effects_of (interlock_out device_id ∷ gates) = release_interlock device_id ∷ effects_of gates
effects_of (_ ∷ gates) = effects_of gates

unfoldable pub output_results : {F : Type 0} → List Gate → List (GateResult F)
output_results [] = []
output_results (interlock_out device_id ∷ gates) =
    pass_gate (kind (interlock_out device_id)) ∷ output_results gates
output_results (_ ∷ gates) = output_results gates

abbrev pub failures_of : {F : Type 0} → List (GateResult F) → List (GateResult F)
failures_of gates = filter (λ g. not g.passed) gates

module _ (uid_text : UnitUid → String) {F : Type 0} where
  -- The results of the entry gates, in order.
  abbrev pub entry_results : OperationContext F → List (GateResult F)
  entry_results ctx =
      map (λ g. evaluate_gate uid_text g ctx) (filter (λ g. not (is_output g)) ctx.operation.gates)

  unfoldable pub try_advance : OperationContext F → Advance F
  try_advance ctx =
      let gates = entry_results ctx in
      let failures = failures_of gates in
      if not (is_empty failures)
      then blocked gates failures (disposition_for ctx.operation.failure_path ctx.attempt)
      else (let outputs = filter is_output ctx.operation.gates in
          let completed_after = insert ctx.operation.seq ctx.completed in
          completed (gates ++ output_results outputs) (effects_of outputs)
            (map (λ o. o.seq) (ready_operations ctx.route completed_after))
            (is_complete ctx.route completed_after))

-- `transition_to(..)?` and then the assignment.
abbrev set_operation :
    OperationSeq
    → TracedUnit × Result CoreError (Unit {0})
    → TracedUnit × Result CoreError (Unit {0})
set_operation to (u, ok done) = (record u { current_operation = some to }, ok done)
set_operation to (u, err e) = (u, err e)

module _ (uid_text : UnitUid → String) where
  unfoldable pub apply_disposition :
      TracedUnit → Disposition → TracedUnit × Result CoreError (Unit {0})
  apply_disposition u (Disposition.retry attempts) = (u, ok tt)
  apply_disposition u (Disposition.rework to_operation invalidates) =
      set_operation to_operation (transition_to uid_text u reworking)
  apply_disposition u Disposition.quarantine = transition_to uid_text u quarantined
  apply_disposition u Disposition.scrap = transition_to uid_text u scrapped
