-- ===== src/Samples/Simulations.antt =====
-- Examples for the dry run of a route.
use traceability.Base.{ℕ, String, true, false, List, [], ◌∷◌, Option, none, some, ok, ◌≡◌, refl}
use traceability.Core.Error.{UnitUid}
use traceability.Core.Config.{Station}
use traceability.Core.Dcp.{numeric, pass}
use traceability.Tools.Simulation.{OperationInput, Scenario, def_of, framed, new_unit, run}
use traceability.Tools.Simulation.Rounds.{HasDefs}
use traceability.Tools.Simulation.Ending.{EndsWell, run-EndsWell, run-no_station}
use traceability.Samples.{uid_text, route, definition, station, operator, revision, point}
use traceability.Samples.Routes.{route_valid}

abbrev scanned : OperationInput ℕ
scanned = record {
  identity_scanned = true;
  component_scans = [];
  captured = record { dcp_id = 3; value = numeric 6; verdict = pass } ∷ [];
  test_verdicts = [];
  mark_verification = none;
}

abbrev with_stations : List Station → Scenario ℕ
with_stations stations = record {
  name = "three operations";
  route = route;
  operation_defs =
      definition
      ∷ record definition { id = 2 }
      ∷ record definition { id = 3; required_skill = none }
      ∷ [];
  dcps = (30, point ∷ []) ∷ [];
  stations = stations;
  operator = operator;
  revision = revision;
  unit_uid = some "01J000";
  inputs = (10, scanned) ∷ (30, scanned) ∷ [];
}

abbrev scenario : Scenario ℕ
scenario = with_stations (record station { operations = 1 ∷ 2 ∷ 3 ∷ [] } ∷ [])

abbrev idle : Scenario ℕ
idle = with_stations (record station { active = false } ∷ [])

abbrev parse_uid : String → Option UnitUid
parse_uid shown = some 77

defs_known : HasDefs scenario
unfolding def_of
defs_known = (
  (definition, refl),
  (
    (record definition { id = 2 }, refl),
    ((record definition { id = 3; required_skill = none }, refl), tt),
  ),
)

run-EndsWell_example : EndsWell scenario (run uid_text scenario false parse_uid 0)
run-EndsWell_example =
    run-EndsWell uid_text scenario false parse_uid 0 {uid = 77} route_valid refl defs_known

run-no_station_example :
    run uid_text idle true parse_uid 0
    ≡ ok (new_unit idle 77, [], framed idle 77 (new_unit idle 77) [] [])
run-no_station_example =
    run-no_station uid_text idle true parse_uid 0 {uid = 77} route_valid refl (refl, tt)
