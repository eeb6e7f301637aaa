-- ===== src/Samples/Engines.antt =====
-- Examples for the engine and the measured values.
use traceability.Base.{
  ℕ, leb, true, false, [], ◌∷◌, none, some, ok, err, ◌≡◌, ◌≢◌, ◌↔◌, ◌⊎◌, refl, Memᴰ,
}
use traceability.Core.Error.{OperationSeq}
use traceability.Core.Unit.{born, in_process, reworking, accepts_work, illegal_move}
use traceability.Core.Route.{
  interlock_out, is_output, operation, contains, ready_operations, predecessors_satisfied,
}
use traceability.Core.Dcp.{Float64, numeric, numeric_type, applies_to, pass, evaluate}
use traceability.Core.Dcp.Verdicts.{Within, evaluate-pass_iff}
use traceability.Core.Config.{is_certified_for, can_perform}
use traceability.Core.Engine.{OperationContext, release_interlock, Disposition, is_completed}
use traceability.Core.Engine.Gates.{evaluate_gate, captured_for, problems_of, scanned_lines}
use traceability.Core.Engine.Advancing.{try_advance, resolve_operation, apply_disposition}
use traceability.Core.Engine.Safety.{
  effects, next_ready, route_complete, AllPass, interlock_released_iff, try_advance-live,
}
use traceability.Core.Engine.Enforced.{precondition_enforced}
use traceability.Core.Engine.Stations.{MayStart, resolve_operation_sound, rework_needs_in_process}
use traceability.Samples.{uid_text, unit_in, first, third, route, station, operator, point, at}
use traceability.Samples.Routes.{route_valid}

abbrev starting : OperationContext ℕ
starting = at first [] (some operator)

abbrev ending : OperationContext ℕ
ending = at third (10 ∷ []) (some operator)

abbrev nobody : OperationContext ℕ
nobody = at first [] none

starting_completes : is_completed (try_advance uid_text starting) ≡ true
unfolding try_advance is_completed is_output evaluate_gate is_certified_for
starting_completes = refl

ending_completes : is_completed (try_advance uid_text ending) ≡ true
unfolding try_advance is_completed is_output evaluate_gate predecessors_satisfied problems_of
    applies_to captured_for scanned_lines
ending_completes = refl

nobody_blocked : is_completed (try_advance uid_text nobody) ≡ false
unfolding try_advance is_completed is_output evaluate_gate
nobody_blocked = refl

interlock_released_iff_example :
    Memᴰ (release_interlock 7) (effects (try_advance uid_text starting))
    ↔ (AllPass uid_text starting × Memᴰ (interlock_out 7) first.gates)
interlock_released_iff_example = interlock_released_iff uid_text starting 7

try_advance-live_example :
    (route_complete (try_advance uid_text starting) ≡ true)
    ⊎ ((seq : OperationSeq) × Memᴰ seq (next_ready (try_advance uid_text starting)))
try_advance-live_example = try_advance-live uid_text starting route_valid starting_completes

first_planned : operation route 10 ≡ some first
unfolding operation
first_planned = refl

precondition_enforced_example : contains ending.completed 10 ≡ true
precondition_enforced_example =
    precondition_enforced uid_text ending 10 first (Memᴰ.head refl) ending_completes
      (Memᴰ.tail (Memᴰ.head refl)) first_planned refl

first_resolved : resolve_operation route (unit_in in_process) station [] ≡ ok first
unfolding resolve_operation accepts_work can_perform ready_operations
first_resolved = refl

MayStart-first : MayStart route (unit_in in_process) station [] first
MayStart-first = resolve_operation_sound route (unit_in in_process) station [] first first_resolved

born_works : accepts_work born ≡ true
unfolding accepts_work
born_works = refl

rework_needs_in_process_example :
    ((born ≡ in_process)
      × (apply_disposition uid_text (unit_in born) (Disposition.rework 10 [])
          ≡ (record (unit_in reworking) { current_operation = some 10 }, ok tt)))
    ⊎ ((born ≢ in_process)
        × (apply_disposition uid_text (unit_in born) (Disposition.rework 10 [])
            ≡ (unit_in born, err (illegal_move born reworking))))
rework_needs_in_process_example = rework_needs_in_process uid_text (unit_in born) 10 [] born_works

-- Comparison of numbers, in place of `f64`.
abbrev whole : Float64 ℕ
whole = record { le = leb; is_nan = λ n. false; debug_text = λ n. "" }

evaluate-pass_iff_example : (evaluate whole point (numeric 6) ≡ ok pass) ↔ (
    (point.datatype ≡ numeric_type)
    × (((point.limits.min ≡ none) × (point.limits.max ≡ none))
        ⊎ ((whole.is_nan 6 ≡ false)
            × Within (λ m. leb m 6) point.limits.min
            × Within (λ m. leb 6 m) point.limits.max)))
evaluate-pass_iff_example = evaluate-pass_iff whole point 6
