-- ===== src/Tools/Simulation/Rounds.antt =====
-- One round of route-sim (tools/route-sim/src/main.rs): where it leaves the unit, and that it brings
-- the loop nearer to its end.
use traceability.Base.{
  ℕ, ◌<◌, ◌≤◌, String, Bool, true, false, not, List, [], ◌∷◌, none, some, ok, ◌≡◌, refl, sym, All,
  All-get, Result-cases, ◌≢◌, inl, inr, arith, ==_refl, length, filter, is_empty, Memᴰ, Bool-cases,
  Option-cases,
}
use traceability.Core.Error.{UnitUid, OperationSeq}
use traceability.Core.Unit.{
  in_process, quarantined, scrapped, reworking, completed as done_state, TracedUnit, transition_to,
  can_transition_to,
}
use traceability.Core.Route.{RouteOperation, OperationDef, contains, insert, is_complete}
use traceability.Core.Route.Progress.{IsReady}
use traceability.Core.Config.{Station}
use traceability.Core.Engine.{Advance, Disposition, completed, blocked}
use traceability.Core.Engine.Advancing.{
  resolve_operation, entry_results, failures_of, try_advance, apply_disposition,
}
use traceability.Core.Engine.Stations.{resolve_operation_sound}
use traceability.Tools.Simulation.{
  Scenario, Line, op_blocked, def_of, SimRound, onward, stopped, find_work, context, react, round,
}

module _ {A : Type 0} (p q : A → Bool) where
  filter-shrinks :
      (xs : List A)
      → ((x : A) → q x ≡ true → p x ≡ true)
      → length (filter q xs) ≤ length (filter p xs)
  filter-shrinks [] inside = omega arith
  filter-shrinks (x ∷ xs) inside = ground (arith, inside x, filter-shrinks xs inside)

  -- A filter that drops more drops at least what the witness stands for.
  pub filter-shorter :
      {x : A} (xs : List A)
      → ((x : A) → q x ≡ true → p x ≡ true)
      → Memᴰ x xs
      → p x ≡ true
      → q x ≡ false
      → length (filter q xs) < length (filter p xs)
  filter-shorter [] inside m kept gone = elim m [ ]
  filter-shorter (y ∷ xs) inside (Memᴰ.head e) kept gone =
      let kept' : p y ≡ true = rw e at kept in
      let gone' : q y ≡ false = rw e at gone in
      ground (arith, kept', gone', filter-shrinks xs inside)
  filter-shorter (y ∷ xs) inside (Memᴰ.tail m) kept gone =
      ground (arith, inside y, filter-shorter xs inside m kept gone)

contains-insert_self : (k : ℕ) (set : List ℕ) → contains (insert k set) k ≡ true
contains-insert_self k set = elim (Bool-cases (contains set k)) [
  | inl there ↦ rw (there, there) refl
  | inr new ↦ rw (new, ==_refl k) refl
]

contains-insert_kept :
    (k j : ℕ) (set : List ℕ) → contains set j ≡ true → contains (insert k set) j ≡ true
contains-insert_kept k j set h = elim (Bool-cases (contains set k)) [
  | inl there ↦ rw (there, h) refl
  | inr new ↦ ground (arith, new, h)
]

module _ (uid_text : UnitUid → String) where
  -- A unit in process takes every disposition, and is not completed by one.
  pub apply_disposition-in_process :
      (u : TracedUnit) (d : Disposition)
      → u.state ≡ in_process
      → (u' : TracedUnit) × (apply_disposition uid_text u d ≡ (u', ok tt)) × (u'.state ≢ done_state)
  unfolding apply_disposition transition_to
  apply_disposition-in_process u (Disposition.retry attempts) h = (u, refl, λ e. cc)
  apply_disposition-in_process u (Disposition.rework to_operation invalidates) h =
      (record u { state = reworking; current_operation = some to_operation }, rw h refl, λ e. cc)
  apply_disposition-in_process u Disposition.quarantine h =
      (record u { state = quarantined }, rw h refl, λ e. cc)
  apply_disposition-in_process u Disposition.scrap h =
      (record u { state = scrapped }, rw h refl, λ e. cc)

-- How the loop may end: with the route complete and the unit completed; with an operation reported
-- as blocked and the unit not completed; or with no station that can take the unit.
pub data Ended {F : Type 0} (s : Scenario F) (unit : TracedUnit) (done : List OperationSeq)
    (lines : List (Line F)) : Type 0 where
  finished : unit.state ≡ done_state → is_complete s.route done ≡ true → Ended s unit done lines
  held :
      {seq : OperationSeq} {name station : String}
      → Memᴰ (op_blocked seq name station) lines
      → unit.state ≢ done_state
      → Ended s unit done lines
  stranded :
      unit.state ≡ in_process → find_work s unit done s.stations ≡ none → Ended s unit done lines

module _ {F : Type 0} (s : Scenario F) where
  find_work_sound :
      (unit : TracedUnit) (done : List OperationSeq) (stations : List Station) {st : Station}
      {op : RouteOperation}
      → find_work s unit done stations ≡ some (st, op)
      → resolve_operation s.route unit st done ≡ ok op
  unfolding find_work
  find_work_sound unit done [] h = cc
  find_work_sound unit done (x ∷ rest) {st} {op} h =
      elim (Result-cases (resolve_operation s.route unit x done)) [
        | inl (found, e) ↦ ground (arith, h, e)
        | inr (problem, e) ↦ find_work_sound unit done rest (ground (arith, h, e))
      ]

  -- The operations of the route that are not completed.
  abbrev pub open_operations : List OperationSeq → List RouteOperation
  open_operations done = filter (λ op. not (contains done op.seq)) s.route.operations

  open_operations-shorter :
      (done : List OperationSeq) (op : RouteOperation)
      → IsReady s.route done op
      → length (open_operations (insert op.seq done)) < length (open_operations done)
  open_operations-shorter done op ready =
      filter-shorter (λ o. not (contains done o.seq))
        (λ o. not (contains (insert op.seq done) o.seq)) s.route.operations
        (λ o h. ground (arith, h, contains-insert_kept op.seq o.seq done)) ready.planned
        (rw ready.open_yet refl) (rw (contains-insert_self op.seq done) refl)

  -- Every operation of the route has its definition in the scenario.
  abbrev pub HasDefs : Type 0
  HasDefs =
      All (λ op. (def : OperationDef) × (def_of op.operation_def_id s.operation_defs ≡ some def))
        s.route.operations

module _ (uid_text : UnitUid → String) {F : Type 0} (s : Scenario F) (verbose : Bool) where
  -- A round ends the loop in one of the three ways, or leaves fewer operations open.
  pub data IsOutcome (done : List OperationSeq) : SimRound F → Type 0 where
    ends :
        {unit' : TracedUnit} {done' : List OperationSeq} {lines : List (Line F)}
        → Ended s unit' done' lines
        → IsOutcome done (stopped unit' done' lines)
    goes_on :
        {unit' : TracedUnit} {done' : List OperationSeq} {lines : List (Line F)}
        → unit'.state ≡ in_process
        → length (open_operations s done') < length (open_operations s done)
        → IsOutcome done (onward unit' done' lines)

  abbrev IsAnswer : List OperationSeq → RouteOperation → Advance F → Type 0
  IsAnswer done op (completed gates effects next route_complete) =
      route_complete ≡ is_complete s.route (insert op.seq done)
  IsAnswer done op (blocked gates failures disposition) = Unit {0}

  try_advance-IsAnswer :
      (unit : TracedUnit) (done : List OperationSeq) (st : Station) (op : RouteOperation)
      (def : OperationDef)
      → IsAnswer done op (try_advance uid_text (context s unit done st op def))
  unfolding try_advance context
  try_advance-IsAnswer unit done st op def =
      elim (Bool-cases
        (is_empty (failures_of (entry_results uid_text (context s unit done st op def))))) [
          | inl clear ↦ rw clear refl
          | inr failing ↦ rw failing tt
        ]

  react-IsOutcome :
      (unit : TracedUnit) (done : List OperationSeq) (st : Station) (op : RouteOperation)
      (def : OperationDef) (answer : Advance F)
      → unit.state ≡ in_process
      → IsReady s.route done op
      → IsAnswer done op answer
      → IsOutcome done (react uid_text s verbose unit done st op def answer)
  unfolding transition_to can_transition_to
  react-IsOutcome unit done st op def (completed gates effects next true) working ready right =
      rw working (ends (finished refl (sym right)))
  react-IsOutcome unit done st op def (completed gates effects next false) working ready right =
      goes_on working (open_operations-shorter s done op ready)
  react-IsOutcome unit done st op def (blocked gates failures disposition) working ready right =
      let (u', e, other) = apply_disposition-in_process uid_text unit disposition working in
      rw e (ends (held (Memᴰ.head refl) other))

  pub round-IsOutcome :
      (unit : TracedUnit) (done : List OperationSeq)
      → unit.state ≡ in_process
      → HasDefs s
      → IsOutcome done (round uid_text s verbose unit done)
  unfolding round
  round-IsOutcome unit done working defs = elim (Option-cases (find_work s unit done s.stations)) [
    | inl nothing ↦ rw nothing (ends (stranded working nothing))
    | inr ((st, op), found) ↦
        let m =
          resolve_operation_sound s.route unit st done op
            (find_work_sound s unit done s.stations found) in
        let (def, known) = All-get _ s.route.operations defs m.ready.planned in
        rw (found, known)
          (react-IsOutcome unit done st op def
            (try_advance uid_text (context s unit done st op def)) working m.ready
            (try_advance-IsAnswer unit done st op def))
  ]
