-- ===== src/Core/Route.antt =====
-- crates/trace-core/src/route.rs: the route, a DAG of operations, its validation at load time and
-- the questions that the engine asks of it. `BTreeSet<OperationSeq>` is read only by `contains`, so a
-- set of completed operations stands as a list of its members.
pub mod Index
pub mod Kahn
pub mod Validate
pub mod Progress
pub mod Worked
use traceability.Base.{
  ℕ, zero, suc, String, Bool, true, false, not, ◌||◌, ◌&&◌, List, [], ◌∷◌, Option, none, some,
  Result, ok, err, ◌==◌, if◌then◌else◌, length, filter, find?, any, all, is_empty,
}
use traceability.Core.Error.{RowId, OperationSeq}

pub record OperationDef : Type 0 where
  pub id : RowId
  pub name : String
  pub label : String
  pub dcp_ids : List RowId
  pub required_skill : Option RowId

pub data Requirement : Type 0 where
  required optional : Requirement

pub data FailurePath : Type 0 where
  retry : (max_attempts : ℕ) → FailurePath
  rework : (to_operation : OperationSeq) → (invalidates : List OperationSeq) → FailurePath
  quarantine scrap : FailurePath

pub data Gate : Type 0 where
  identity operator_auth precondition : Gate
  component_verify : (bom_line_ids : List RowId) → Gate
  data_capture : Gate
  test_pass : (test_name : String) → Gate
  mark_verified : Gate
  interlock_out : (device_id : RowId) → Gate

unfoldable pub kind : Gate → String
kind identity = "IDENTITY"
kind operator_auth = "OPERATOR_AUTH"
kind precondition = "PRECONDITION"
kind (component_verify _) = "COMPONENT_VERIFY"
kind data_capture = "DATA_CAPTURE"
kind (test_pass _) = "TEST_PASS"
kind mark_verified = "MARK_VERIFIED"
kind (interlock_out _) = "INTERLOCK_OUT"

unfoldable pub is_output : Gate → Bool
is_output (interlock_out _) = true
is_output _ = false

pub record RouteOperation : Type 0 where
  pub seq : OperationSeq
  pub operation_def_id : RowId
  pub requirement : Requirement
  pub predecessors : List OperationSeq
  pub gates : List Gate
  pub failure_path : FailurePath

pub record Route : Type 0 where
  pub id : RowId
  pub product_revision_id : RowId
  pub line_id : RowId
  pub revision : String
  pub operations : List RouteOperation

-- `BTreeSet::contains`, and `insert` (whose position in the list is not observed).
abbrev pub contains : List ℕ → ℕ → Bool
contains set k = any (λ x. x == k) set

abbrev pub insert : ℕ → List ℕ → List ℕ
insert k set = if contains set k then set else k ∷ set

-- `requirement == Requirement::Optional` and `== Requirement::Required`.
abbrev pub is_optional : Requirement → Bool
is_optional optional = true
is_optional required = false

abbrev pub is_required : Requirement → Bool
is_required required = true
is_required optional = false

unfoldable pub operation : Route → OperationSeq → Option RouteOperation
operation r seq = find? (λ o. o.seq == seq) r.operations

-- The test of one predecessor inside `predecessors_satisfied`.
unfoldable pub predecessor_satisfied : Route → List OperationSeq → OperationSeq → Bool
unfolding operation
predecessor_satisfied r completed p =
    if contains completed p
    then true
    else (elim (operation r p) [ some pred ↦ is_optional pred.requirement | none ↦ false ])

unfoldable pub predecessors_satisfied : Route → RouteOperation → List OperationSeq → Bool
unfolding predecessor_satisfied
predecessors_satisfied r op completed = all (predecessor_satisfied r completed) op.predecessors

unfoldable pub ready_operations : Route → List OperationSeq → List RouteOperation
unfolding predecessors_satisfied
ready_operations r completed =
    filter (λ op. predecessors_satisfied r op completed)
      (filter (λ op. not (contains completed op.seq)) r.operations)

unfoldable pub is_complete : Route → List OperationSeq → Bool
is_complete r completed =
    all (λ o. contains completed o.seq) (filter (λ o. is_required o.requirement) r.operations)
