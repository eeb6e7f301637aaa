-- ===== src/Core/Engine/Stations.antt =====
-- `resolve_operation` and `apply_disposition` of crates/trace-core/src/engine.rs.
use traceability.Base.{
  ℕ, ◌-◌, ◌+◌, ◌<◌, ◌≤◌, String, Bool, true, false, List, some, ok, err, ◌≡◌, refl, ◌≢◌, ◌⊎◌, inl,
  inr, arith, dec_lt, find?, Option-cases, find?-eq-some, find?-eq-none,
}
use traceability.Core.Error.{UnitUid, OperationSeq}
use traceability.Core.Unit.{
  UnitState, born, marked, in_process, quarantined, scrapped, reworking, accepts_work, TracedUnit,
  transition_to, illegal_move,
}
use traceability.Core.Route.{RouteOperation, FailurePath, Route, ready_operations}
use traceability.Core.Route.Progress.{IsReady, ready_operations_iff}
use traceability.Core.Config.{Station, can_perform}
use traceability.Core.Engine.{Disposition}
use traceability.Core.Engine.Advancing.{resolve_operation, disposition_for, apply_disposition}

module _ (route : Route) (unit : TracedUnit) (station : Station) (done : List OperationSeq) where
  -- What may be started: the unit accepts work, the station is active, and the operation is ready in
  -- the route and one that the station is equipped for.
  pub record MayStart (op : RouteOperation) : Type 0 where
    pub working : accepts_work unit.state ≡ true
    pub active : station.active ≡ true
    pub ready : IsReady route done op
    pub equipped : can_perform station op.operation_def_id ≡ true

  abbrev can_do : RouteOperation → Bool
  can_do op = can_perform station op.operation_def_id

  -- An operation that is handed out may be started.
  pub resolve_operation_sound :
      (op : RouteOperation) → resolve_operation route unit station done ≡ ok op → MayStart op
  unfolding resolve_operation
  resolve_operation_sound op h =
      let found : find? can_do (ready_operations route done) ≡ some op = ground (arith, h) in
      let (m, can) = find?-eq-some can_do (ready_operations route done) found in
      record {
        working = ground (arith, h);
        active = ground (arith, h);
        ready = (ready_operations_iff route done op).0 m;
        equipped = can;
      }

  -- Where any operation may be started, one is handed out.
  resolve_operation_complete :
      (op : RouteOperation)
      → MayStart op
      → (op' : RouteOperation) × (resolve_operation route unit station done ≡ ok op')
  unfolding resolve_operation
  resolve_operation_complete op m =
      elim (Option-cases (find? can_do (ready_operations route done))) [
        | inl nothing ↦
            let missed : can_do op ≡ false =
              find?-eq-none can_do (ready_operations route done) nothing
                ((ready_operations_iff route done op).1 m.ready) in
            absurd (ground (arith, missed, m.equipped))
        | inr (op', found) ↦ (op', rw (m.working, m.active, found))
      ]

-- At each attempt below `max_attempts` a failure leaves the rest of the attempts, and from attempt
-- `max_attempts` on it quarantines the unit.
retry_runs_out :
    (max_attempts attempt : ℕ)
    → ((remaining : ℕ) × (disposition_for (FailurePath.retry max_attempts) attempt
          ≡ Disposition.retry remaining)
        × (0 < remaining)
        × (attempt + remaining ≡ max_attempts))
      ⊎ (max_attempts ≤ attempt)
        × (disposition_for (FailurePath.retry max_attempts) attempt ≡ Disposition.quarantine)
unfolding disposition_for
retry_runs_out max_attempts attempt = elim (dec_lt attempt max_attempts) [
  | yes more ↦ inl (max_attempts - attempt, ground arith, omega arith, omega arith)
  | no done ↦ inr (omega arith, ground arith)
]

module _ (uid_text : UnitUid → String) where
  removal_from :
      (u : TracedUnit) (s : UnitState)
      → u.state ≡ s
      → accepts_work s ≡ true
      → (apply_disposition uid_text u Disposition.quarantine
          ≡ (record u { state = quarantined }, ok tt))
        × (apply_disposition uid_text u Disposition.scrap ≡ (record u { state = scrapped }, ok tt))
  unfolding apply_disposition transition_to accepts_work
  removal_from u born e h = (rw e, rw e)
  removal_from u marked e h = (rw e, rw e)
  removal_from u in_process e h = (rw e, rw e)
  removal_from u reworking e h = (rw e, rw e)
  removal_from u _ e h = cc

  -- On every unit that accepts work, quarantine and scrap succeed: the state changes and nothing else,
  -- and the new state accepts no work.
  removal_succeeds :
      (u : TracedUnit)
      → accepts_work u.state ≡ true
      → (apply_disposition uid_text u Disposition.quarantine
          ≡ (record u { state = quarantined }, ok tt))
        × (apply_disposition uid_text u Disposition.scrap ≡ (record u { state = scrapped }, ok tt))
        × (accepts_work quarantined ≡ false)
        × (accepts_work scrapped ≡ false)
  unfolding accepts_work
  removal_succeeds u h = let (q, s) = removal_from u u.state refl h in (q, s, refl, refl)

  rework_from :
      (u : TracedUnit) (s : UnitState) (to_operation : OperationSeq)
      (invalidates : List OperationSeq)
      → u.state ≡ s
      → accepts_work s ≡ true
      → ((s ≡ in_process)
          × (apply_disposition uid_text u (Disposition.rework to_operation invalidates)
              ≡ (record u { state = reworking; current_operation = some to_operation }, ok tt)))
        ⊎ ((s ≢ in_process)
            × (apply_disposition uid_text u (Disposition.rework to_operation invalidates)
                ≡ (u, err (illegal_move s reworking))))
  unfolding apply_disposition transition_to accepts_work
  rework_from u in_process to voids e h = inl (refl, rw e)
  rework_from u born to voids e h = inr (λ x. cc, rw e)
  rework_from u marked to voids e h = inr (λ x. cc, rw e)
  rework_from u reworking to voids e h = inr (λ x. cc, rw e)
  rework_from u _ to voids e h = cc

  -- A rework disposition is applied only to a unit in process. A unit in another state that accepts
  -- work (just born, just marked, or already in rework) is refused and left as it was.
  pub rework_needs_in_process :
      (u : TracedUnit) (to_operation : OperationSeq) (invalidates : List OperationSeq)
      → accepts_work u.state ≡ true
      → ((u.state ≡ in_process)
          × (apply_disposition uid_text u (Disposition.rework to_operation invalidates)
              ≡ (record u { state = reworking; current_operation = some to_operation }, ok tt)))
        ⊎ ((u.state ≢ in_process)
            × (apply_disposition uid_text u (Disposition.rework to_operation invalidates)
                ≡ (u, err (illegal_move u.state reworking))))
  rework_needs_in_process u to_operation invalidates h =
      rework_from u u.state to_operation invalidates refl h
