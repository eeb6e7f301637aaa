-- ===== src/Samples.antt =====
-- One route, one unit, one station and one operator, for the examples of the theorems.
pub mod Units
pub mod Routes
pub mod Engines
pub mod Chains
pub mod Edges
pub mod Stations
pub mod Labels
pub mod Licences
pub mod Events
pub mod Drivers
pub mod Simulations
pub mod Rows
pub mod Webhooks
pub mod Pages
use traceability.Base.{ℕ, String, Bool, true, false, List, [], ◌∷◌, Option, none, some}
use traceability.Core.Error.{UnitUid}
use traceability.Core.Unit.{UnitState, in_process, shipped, scrapped, TracedUnit}
use traceability.Core.Route.{
  OperationDef, required, optional, FailurePath, quarantine, identity, operator_auth, precondition,
  component_verify, data_capture, mark_verified, interlock_out, RouteOperation, Route,
}
use traceability.Core.Dcp.{numeric_type, every, DataCollectionPoint, numeric, pass}
use traceability.Core.Config.{Station, ProductRevision, aluminium, label, Operator}
use traceability.Core.Engine.{OperationContext, MarkVerification}

abbrev pub uid_text : UnitUid → String
uid_text uid = "01J000"

abbrev pub unit_in : UnitState → TracedUnit
unit_in state = record {
  id = 1;
  uid = 77;
  tenant_id = 1;
  plant_id = 1;
  product_revision_id = 1;
  job_card_id = 1;
  serial = "A-1";
  state = state;
  current_operation = none;
  index_in_job = 0;
}

abbrev pub first : RouteOperation
first = record {
  seq = 10;
  operation_def_id = 1;
  requirement = required;
  predecessors = [];
  gates = identity ∷ operator_auth ∷ interlock_out 7 ∷ [];
  failure_path = FailurePath.retry 3;
}

abbrev pub second : RouteOperation
second = record {
  seq = 20;
  operation_def_id = 2;
  requirement = optional;
  predecessors = 10 ∷ [];
  gates = [];
  failure_path = quarantine;
}

abbrev pub third : RouteOperation
third = record {
  seq = 30;
  operation_def_id = 3;
  requirement = required;
  predecessors = 20 ∷ 10 ∷ [];
  gates = precondition ∷ data_capture ∷ component_verify (5 ∷ []) ∷ mark_verified ∷ [];
  failure_path = quarantine;
}

abbrev pub route : Route
route = record {
  id = 1;
  product_revision_id = 1;
  line_id = 1;
  revision = "A";
  operations = first ∷ second ∷ third ∷ [];
}

abbrev pub definition : OperationDef
definition = record { id = 1; name = "load"; label = "Load"; dcp_ids = []; required_skill = some 4 }

abbrev pub station : Station
station = record {
  id = 1;
  line_id = 1;
  code = "S1";
  name = "Load";
  operations = 1 ∷ [];
  active = true;
}

abbrev pub operator : Operator
operator = record {
  id = 9;
  tenant_id = 1;
  username = "asha";
  display_name = "Asha";
  certifications = 4 ∷ [];
  active = true;
}

abbrev pub revision : ProductRevision
revision = record {
  id = 1;
  product_id = 1;
  revision = "A";
  material = aluminium;
  mark_method = label;
  min_mark_grade = none;
  active = true;
}

abbrev pub point : DataCollectionPoint ℕ
point = record {
  id = 3;
  name = "torque";
  label = "Torque";
  unit = none;
  datatype = numeric_type;
  limits = record { min = some 5; max = some 9; nominal = none };
  sample_rule = every;
  mandatory = true;
  device_id = none;
}

-- At an operation, with what is completed before it and who is logged in.
abbrev pub at : RouteOperation → List ℕ → Option Operator → OperationContext ℕ
at operation completed operator = record {
  unit = unit_in in_process;
  revision = revision;
  route = route;
  operation = operation;
  operation_def = definition;
  station = station;
  operator = operator;
  completed = completed;
  scanned_identity = some 77;
  component_scans = record { part_no = "P-5"; bom_line_id = some 5; raw = "P-5" } ∷ [];
  captured = record { dcp_id = 3; value = numeric 6; verdict = pass } ∷ [];
  dcps = point ∷ [];
  test_verdicts = [];
  mark_verification = some record { decoded = "01J000"; grade = none };
  attempt = 0;
}
