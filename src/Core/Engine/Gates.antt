-- ===== src/Core/Engine/Gates.antt =====
-- `evaluate_gate` of crates/trace-core/src/engine.rs, with one function for each gate that has a body
-- of its own.
use traceability.Base.{
  ℕ, String, Bool, true, false, not, List, [], ◌∷◌, ◌++◌, Option, none, some, ltb, ◌==◌, str_eq,
  if◌then◌else◌, filter, find?, is_empty,
}
use traceability.Core.Error.{RowId, UnitUid}
use traceability.Core.Route.{
  Gate, OperationDef, kind, contains, predecessors_satisfied, identity, operator_auth, precondition,
  component_verify, data_capture, test_pass, mark_verified, interlock_out,
}
use traceability.Core.Config.{Operator, MarkMethod, no_mark, is_certified_for}
use traceability.Core.Dcp.{Verdict, pass, fail, DataCollectionPoint, applies_to}
use traceability.Core.Engine.{
  ComponentScan, CapturedValue, MarkVerification, OperationContext, CaptureProblem, not_captured,
  outside_limits, scanned_other, not_scanned, no_operator, deactivated, not_certified,
  predecessors_missing, not_on_bom, lines_missing, capture_problems, test_failed, no_verdict,
  not_read_back, decoded_other, graded_below, grade_missing, GateResult, pass_gate, fail_gate,
}

-- `Verdict::Fail`, by the derived equality.
abbrev pub is_fail : Verdict → Bool
is_fail fail = true
is_fail pass = false

abbrev pub is_none : {A : Type 0} → Option A → Bool
is_none none = true
is_none (some a) = false

-- `mark_method == MarkMethod::None`
abbrev pub is_unmarked : MarkMethod → Bool
is_unmarked no_mark = true
is_unmarked _ = false

-- `filter_map(|s| s.bom_line_id)`
unfoldable pub scanned_lines : List ComponentScan → List RowId
scanned_lines [] = []
scanned_lines (s ∷ scans) =
    let rest = scanned_lines scans in elim s.bom_line_id [ none ↦ rest | some id ↦ id ∷ rest ]

-- `test_verdicts.get(test_name)`
unfoldable pub verdict_of : String → List (String × Verdict) → Option Verdict
verdict_of test_name [] = none
verdict_of test_name ((n, v) ∷ rest) =
    if str_eq n test_name then some v else verdict_of test_name rest

module _ {F : Type 0} where
  unfoldable pub check_identity : String → OperationContext F → GateResult F
  check_identity kind ctx = elim ctx.scanned_identity [
    | none ↦ fail_gate kind not_scanned
    | some scanned ↦
        if scanned == ctx.unit.uid
        then pass_gate kind
        else fail_gate kind (scanned_other scanned ctx.unit.uid)
  ]

  -- The inner `match` on the skill that the operation requires.
  abbrev pub check_skill : String → OperationDef → Operator → Option RowId → GateResult F
  check_skill kind def op none = pass_gate kind
  check_skill kind def op (some skill) =
      if not (is_certified_for op skill)
      then fail_gate kind (not_certified op.username skill def.name)
      else pass_gate kind

  -- The `match` on the operator.
  abbrev pub check_login : String → OperationDef → Option Operator → GateResult F
  check_login kind def none = fail_gate kind no_operator
  check_login kind def (some op) =
      if not op.active
      then fail_gate kind (deactivated op.username)
      else check_skill kind def op def.required_skill

  unfoldable pub check_operator : String → OperationContext F → GateResult F
  check_operator kind ctx = check_login kind ctx.operation_def ctx.operator

  unfoldable pub check_precondition : String → OperationContext F → GateResult F
  check_precondition kind ctx =
      if predecessors_satisfied ctx.route ctx.operation ctx.completed
      then pass_gate kind
      else fail_gate kind (
          predecessors_missing
            (filter (λ p. not (contains ctx.completed p)) ctx.operation.predecessors))

  -- The rest of the component gate, by the first scan that is not on the BOM.
  abbrev pub check_lines :
      String → List RowId → List ComponentScan → Option ComponentScan → GateResult F
  check_lines kind bom_line_ids scans (some bad) = fail_gate kind (not_on_bom bad.part_no)
  check_lines kind bom_line_ids scans none =
      let missing = filter (λ id. not (contains (scanned_lines scans) id)) bom_line_ids in
      if is_empty missing then pass_gate kind else fail_gate kind (lines_missing missing)

  unfoldable pub check_components : String → List RowId → OperationContext F → GateResult F
  check_components kind bom_line_ids ctx =
      check_lines kind bom_line_ids ctx.component_scans
        (find? (λ s. is_none s.bom_line_id) ctx.component_scans)

  -- `captured.get(&dcp.id)` in the map that is collected from the values: the last one wins.
  unfoldable pub captured_for : RowId → List (CapturedValue F) → Option (CapturedValue F)
  captured_for id [] = none
  captured_for id (c ∷ cs) = elim (captured_for id cs) [
    | some later ↦ some later
    | none ↦ if c.dcp_id == id then some c else none
  ]

  -- The `match` on the value that was captured for a point.
  abbrev pub problem_of : DataCollectionPoint F → Option (CapturedValue F) → List (CaptureProblem F)
  problem_of dcp none = if dcp.mandatory then not_captured dcp.name ∷ [] else []
  problem_of dcp (some c) =
      if is_fail c.verdict
      then outside_limits dcp.name c.value dcp.limits.min dcp.limits.max ∷ []
      else []

  -- What one data collection point adds to the problems.
  unfoldable pub capture_problem :
      ℕ → List (CapturedValue F) → DataCollectionPoint F → List (CaptureProblem F)
  capture_problem index_in_job captured dcp =
      if not (applies_to dcp.sample_rule index_in_job)
      then []
      else problem_of dcp (captured_for dcp.id captured)

  unfoldable pub problems_of :
      ℕ → List (CapturedValue F) → List (DataCollectionPoint F) → List (CaptureProblem F)
  unfolding capture_problem
  problems_of index_in_job captured [] = []
  problems_of index_in_job captured (dcp ∷ dcps) =
      capture_problem index_in_job captured dcp ++ problems_of index_in_job captured dcps

  unfoldable pub check_capture : String → OperationContext F → GateResult F
  check_capture kind ctx =
      let problems = problems_of ctx.unit.index_in_job ctx.captured ctx.dcps in
      if is_empty problems then pass_gate kind else fail_gate kind (capture_problems problems)

  unfoldable pub check_test : String → String → OperationContext F → GateResult F
  check_test kind test_name ctx = elim (verdict_of test_name ctx.test_verdicts) [
    | some pass ↦ pass_gate kind
    | some fail ↦ fail_gate kind (test_failed test_name)
    | none ↦ fail_gate kind (no_verdict test_name)
  ]

  -- The final `match` on the minimum grade and the grade that was read.
  abbrev pub check_grade : String → Option ℕ → Option ℕ → GateResult F
  check_grade kind (some min) (some actual) =
      if ltb min actual then fail_gate kind (graded_below actual min) else pass_gate kind
  check_grade kind (some min) none = fail_gate kind (grade_missing min)
  check_grade kind none grade = pass_gate kind

  -- The `let … else`, the comparison with the intended UID, and the grade.
  abbrev pub check_read : String → String → Option ℕ → Option MarkVerification → GateResult F
  check_read kind intended min none = fail_gate kind not_read_back
  check_read kind intended min (some v) =
      if not (str_eq v.decoded intended)
      then fail_gate kind (decoded_other v.decoded intended)
      else check_grade kind min v.grade

  module _ (uid_text : UnitUid → String) where
    unfoldable pub check_mark : String → OperationContext F → GateResult F
    check_mark kind ctx =
        if is_unmarked ctx.revision.mark_method
        then pass_gate kind
        else check_read kind (uid_text ctx.unit.uid) ctx.revision.min_mark_grade
            ctx.mark_verification

    unfoldable pub evaluate_gate : Gate → OperationContext F → GateResult F
    unfolding check_identity check_operator check_precondition check_components check_capture
        check_test check_mark
    evaluate_gate identity ctx = check_identity (kind identity) ctx
    evaluate_gate operator_auth ctx = check_operator (kind operator_auth) ctx
    evaluate_gate precondition ctx = check_precondition (kind precondition) ctx
    evaluate_gate (component_verify ids) ctx =
        check_components (kind (component_verify ids)) ids ctx
    evaluate_gate data_capture ctx = check_capture (kind data_capture) ctx
    evaluate_gate (test_pass name) ctx = check_test (kind (test_pass name)) name ctx
    evaluate_gate mark_verified ctx = check_mark (kind mark_verified) ctx
    evaluate_gate (interlock_out device_id) ctx = pass_gate (kind (interlock_out device_id))
