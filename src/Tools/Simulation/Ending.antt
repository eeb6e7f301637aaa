-- ===== src/Tools/Simulation/Ending.antt =====
-- How a run of route-sim (tools/route-sim/src/main.rs) ends.
use traceability.Base.{
  ℕ, zero, suc, ◌*◌, ◌<◌, ◌≤◌, String, Bool, false, not, filter, List, [], ◌∷◌, ◌++◌, Option, none,
  Result, ok, ◌≡◌, refl, arith, All, Memᴰ, length,
}
use traceability.Core.Error.{UnitUid, OperationSeq}
use traceability.Core.Unit.{in_process, name, TracedUnit}
use traceability.Core.Route.{RouteOperation, contains}
use traceability.Core.Route.Validate.{validate}
use traceability.Core.Route.Validate.Sound.{validate_iff}
use traceability.Core.Config.{Station}
use traceability.Core.Engine.Advancing.{resolve_operation}
use traceability.Tools.Simulation.{
  Scenario, Line, SimError, heading, unit_line, final_state, completed_line, SimRound, find_work,
  round, after, follow, rounds, new_unit, framed, headed, uid_of, run,
}
use traceability.Tools.Simulation.Rounds.{
  Ended, finished, held, stranded, open_operations, HasDefs, IsOutcome, ends, goes_on,
  round-IsOutcome,
}

module _ {A : Type 0} where
  mem-append_left : {x : A} (xs ys : List A) → Memᴰ x xs → Memᴰ x (xs ++ ys)
  mem-append_left [] ys m = elim m [ ]
  mem-append_left (y ∷ xs) ys (Memᴰ.head e) = Memᴰ.head e
  mem-append_left (y ∷ xs) ys (Memᴰ.tail m) = Memᴰ.tail (mem-append_left xs ys m)

  mem-append_right : {x : A} (xs ys : List A) → Memᴰ x ys → Memᴰ x (xs ++ ys)
  mem-append_right [] ys m = m
  mem-append_right (y ∷ xs) ys m = Memᴰ.tail (mem-append_right xs ys m)

  length-positive : {x : A} (xs : List A) → Memᴰ x xs → 0 < length xs
  length-positive [] m = elim m [ ]
  length-positive (y ∷ xs) m = omega arith

  length-filter : (p : A → Bool) (xs : List A) → length (filter p xs) ≤ length xs
  length-filter p [] = omega arith
  length-filter p (x ∷ xs) = ground (arith, length-filter p xs)

abbrev Report : Type 0 → Type 0
Report F = Result SimError (TracedUnit × List OperationSeq × List (Line F))

module _ {F : Type 0} (s : Scenario F) where
  Ended-within :
      (before behind : List (Line F)) {unit : TracedUnit} {done : List OperationSeq}
      {lines : List (Line F)}
      → Ended s unit done lines
      → Ended s unit done (before ++ (lines ++ behind))
  Ended-within before behind (finished e c) = finished e c
  Ended-within before behind {lines = lines} (held m e) =
      held (mem-append_right before _ (mem-append_left lines behind m)) e
  Ended-within before behind (stranded e nothing) = stranded e nothing

  Ended-after :
      (before : List (Line F)) {unit : TracedUnit} {done : List OperationSeq}
      {lines : List (Line F)}
      → Ended s unit done lines
      → Ended s unit done (before ++ lines)
  Ended-after before (finished e c) = finished e c
  Ended-after before (held m e) = held (mem-append_right before _ m) e
  Ended-after before (stranded e nothing) = stranded e nothing

  -- The loop, or the run, returns, and it has ended in one of the three ways.
  abbrev pub EndsWell : Report F → Type 0
  EndsWell report =
      (unit : TracedUnit) × (done : List OperationSeq) × (lines : List (Line F)) × (report
        ≡ ok (unit, done, lines))
      × Ended s unit done lines

  headed-EndsWell :
      (uid : UnitUid) (report : Report F) → EndsWell report → EndsWell (headed s uid report)
  headed-EndsWell uid report (unit, done, lines, e, how) = (
    unit,
    done,
    framed s uid unit done lines,
    rw e refl,
    Ended-within
        (heading s.name s.route.revision s.route.line_id (length s.route.operations)
            (length s.stations)
          ∷ unit_line uid "SIM-0000000001"
          ∷ [])
        (final_state (name unit.state) ∷ completed_line done ∷ []) how,
  )

  nothing_found :
      (unit : TracedUnit) (done : List OperationSeq) (stations : List Station)
      → All (λ st. st.active ≡ false) stations
      → find_work s unit done stations ≡ none
  unfolding find_work resolve_operation
  nothing_found unit done [] idle = refl
  nothing_found unit done (st ∷ rest) idle =
      ground (arith, idle.0, nothing_found unit done rest idle.1)

module _ (uid_text : UnitUid → String) {F : Type 0} (s : Scenario F) (verbose : Bool) where
  after-EndsWell :
      (lines : List (Line F)) (report : Report F)
      → EndsWell s report
      → EndsWell s (after lines report)
  after-EndsWell lines report (unit, done, rest, e, how) =
      (unit, done, lines ++ rest, rw e refl, Ended-after s lines how)

  rounds-EndsWell :
      (n : ℕ) (unit : TracedUnit) (done : List OperationSeq)
      → unit.state ≡ in_process
      → HasDefs s
      → length (open_operations s done) < n
      → EndsWell s (rounds uid_text s verbose n unit done)
  unfolding rounds
  rounds-EndsWell zero unit done working defs h = absurd (omega arith)
  rounds-EndsWell (suc n) unit done working defs h =
      follows (round uid_text s verbose unit done)
        (round-IsOutcome uid_text s verbose unit done working defs)
        (λ u d w short. rounds-EndsWell n u d w defs (omega (arith, short, h)))
    where
      follows :
          (r : SimRound F)
          → IsOutcome uid_text s verbose done r
          → ((u : TracedUnit) (d : List OperationSeq)
              → u.state ≡ in_process
              → length (open_operations s d) < length (open_operations s done)
              → EndsWell s (rounds uid_text s verbose n u d))
          → EndsWell s (follow (rounds uid_text s verbose n) r)
      follows r (ends {unit'} {done'} {lines} how) rest = (unit', done', lines, refl, how)
      follows r (goes_on {unit'} {done'} {lines} w short) rest =
          after-EndsWell lines _ (rest unit' done' w short)

  idle_rounds :
      (n : ℕ) (unit : TracedUnit) (done : List OperationSeq)
      → 0 < n
      → find_work s unit done s.stations ≡ none
      → rounds uid_text s verbose n unit done ≡ ok (unit, done, [])
  unfolding rounds round
  idle_rounds zero unit done h nothing = absurd (omega arith)
  idle_rounds (suc n) unit done h nothing = rw nothing refl

  module _ (parse_uid : String → Option UnitUid) (generated : UnitUid) where
    -- On a route that validates, with a definition for each of its operations and a unit identity that
    -- parses, the simulation returns a report, and it has ended in one of three ways: with the unit
    -- completed and the route complete, with an operation reported as blocked and the unit not
    -- completed, or with the unit in process and no station that can take it.
    pub run-EndsWell :
        {uid : UnitUid}
        → validate s.route ≡ ok tt
        → uid_of parse_uid generated s.unit_uid ≡ ok uid
        → HasDefs s
        → EndsWell s (run uid_text s verbose parse_uid generated)
    unfolding run new_unit
    run-EndsWell {uid} valid known defs =
        let enough =
          length-positive s.route.operations ((validate_iff s.route).0 valid).entry_mem in
        rw (valid, known)
          (headed-EndsWell s uid
            (rounds uid_text s verbose (length s.route.operations * 4) (new_unit s uid) [])
            (rounds-EndsWell (length s.route.operations * 4) (new_unit s uid) [] refl defs (
              omega (
                arith,
                enough,
                length-filter (λ (op : RouteOperation). not (contains [] op.seq))
                    s.route.operations,
              ))))

    -- Where no station is active, a simulation of a route that validates returns a report without a line
    -- on any operation, with the unit in process.
    pub run-no_station :
        {uid : UnitUid}
        → validate s.route ≡ ok tt
        → uid_of parse_uid generated s.unit_uid ≡ ok uid
        → All (λ st. st.active ≡ false) s.stations
        → run uid_text s verbose parse_uid generated
          ≡ ok (new_unit s uid, [], framed s uid (new_unit s uid) [] [])
    unfolding run
    run-no_station {uid} valid known idle =
        let enough =
          length-positive s.route.operations ((validate_iff s.route).0 valid).entry_mem in
        rw
          (
            valid,
            known,
            idle_rounds (length s.route.operations * 4) (new_unit s uid) [] (omega (arith, enough))
                (nothing_found s (new_unit s uid) [] s.stations idle),
          )
          refl
