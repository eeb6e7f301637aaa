-- ===== src/Core/Route/Progress.antt =====
-- What a validated route promises the engine (crates/trace-core/src/route.rs): there is no cycle, and
-- until the route is complete there is an operation to work on.
use traceability.Base.{
  ℕ, zero, suc, ◌<◌, true, false, not, List, ok, ◌≡◌, inl, inr, arith, filter, all, All-get, Memᴰ,
  Bool-cases, mem-filter, mem_of_filter, all-eq-false, ◌↔◌,
}
use traceability.Core.Error.{OperationSeq}
use traceability.Core.Route.{
  RouteOperation, Route, is_required, contains, predecessor_satisfied, predecessors_satisfied,
  ready_operations, is_complete,
}
use traceability.Core.Route.Kahn.Acyclic.{mem_of_preds_of}
use traceability.Core.Route.Validate.{validate}
use traceability.Core.Route.Validate.Sound.{IsWellFormed, validate_iff}

-- `a` stands somewhere behind `b`: it is a predecessor of `b`, or stands behind one.
pub data Behind (r : Route) : OperationSeq → OperationSeq → Type 0 where
  direct :
      {a : OperationSeq} {op : RouteOperation}
      → Memᴰ op r.operations
      → Memᴰ a op.predecessors
      → Behind r a op.seq
  further : {a b c : OperationSeq} → Behind r a b → Behind r b c → Behind r a c

Behind-rank :
    (r : Route) (w : IsWellFormed r) {a b : OperationSeq} → Behind r a b → w.rank a < w.rank b
Behind-rank r w (direct {op = op} m mp) =
    All-get _ op.predecessors (All-get _ r.operations w.ranked m) mp
Behind-rank r w (further p q) = omega (arith, Behind-rank r w p, Behind-rank r w q)

-- No operation of a validated route stands behind itself, at any distance.
validate-no_cycle : (r : Route) (k : OperationSeq) → validate r ≡ ok tt → ¬ Behind r k k
validate-no_cycle r k h b = omega (arith, Behind-rank r ((validate_iff r).0 h) b)

-- An operation that can be worked on: in the route, not completed, its predecessors satisfied.
pub record IsReady (r : Route) (completed : List OperationSeq) (op : RouteOperation) : Type 0 where
  pub planned : Memᴰ op r.operations
  pub open_yet : contains completed op.seq ≡ false
  pub satisfied : predecessors_satisfied r op completed ≡ true

ready_operations-IsReady :
    (r : Route) (completed : List OperationSeq) {op : RouteOperation}
    → Memᴰ op (ready_operations r completed)
    → IsReady r completed op
unfolding ready_operations
ready_operations-IsReady r completed {op} m =
    let (m', satisfied) =
      mem_of_filter (λ o. predecessors_satisfied r o completed)
        (filter (λ o. not (contains completed o.seq)) r.operations) m in
    let (planned, open_yet) = mem_of_filter (λ o. not (contains completed o.seq)) r.operations m' in
    record { planned = planned; open_yet = ground (arith, open_yet); satisfied = satisfied }

-- `ready_operations` lists exactly the operations of the route that are not completed and whose
-- predecessors are satisfied.
pub ready_operations_iff :
    (r : Route) (completed : List OperationSeq) (op : RouteOperation)
    → Memᴰ op (ready_operations r completed) ↔ IsReady r completed op
unfolding ready_operations
ready_operations_iff r completed op = (
  ready_operations-IsReady r completed,
  λ h.
      mem-filter (λ o. predecessors_satisfied r o completed)
        (filter (λ o. not (contains completed o.seq)) r.operations)
        (mem-filter (λ o. not (contains completed o.seq)) r.operations h.planned (rw h.open_yet))
        h.satisfied,
)

not_satisfied-open :
    (r : Route) (completed : List OperationSeq) (p : OperationSeq)
    → predecessor_satisfied r completed p ≡ false
    → contains completed p ≡ false
unfolding predecessor_satisfied
not_satisfied-open r completed p h = ground (arith, h)

-- From an operation that is not completed, follow the unsatisfied predecessors down.
IsReady-below :
    (r : Route) (w : IsWellFormed r) (completed : List OperationSeq) (n : ℕ) (op : RouteOperation)
    → w.rank op.seq < n
    → Memᴰ op r.operations
    → contains completed op.seq ≡ false
    → (ready : RouteOperation) × IsReady r completed ready
unfolding predecessors_satisfied
IsReady-below r w completed zero op lt m h = absurd (omega arith)
IsReady-below r w completed (suc n) op lt m h =
    elim (Bool-cases (all (predecessor_satisfied r completed) op.predecessors)) [
      | inl yes' ↦ (op, record { planned = m; open_yet = h; satisfied = yes' })
      | inr no' ↦
          let (p, mp, fails) =
            all-eq-false (predecessor_satisfied r completed) op.predecessors no' in
          let lower : w.rank p < w.rank op.seq =
            All-get _ op.predecessors (All-get _ r.operations w.ranked m) mp in
          let (ps, found) = All-get _ op.predecessors (All-get _ r.operations w.known m) mp in
          let (op', m', at, its) = mem_of_preds_of p ps r.operations found in
          IsReady-below r w completed n op' (ground (arith, at, lower, lt)) m'
            (rw at (not_satisfied-open r completed p fails))
    ]

-- On a validated route, whatever operations are completed, as long as a required one is missing there
-- is one that is ready now.
pub validated-never_stuck :
    (r : Route) (completed : List OperationSeq)
    → validate r ≡ ok tt
    → is_complete r completed ≡ false
    → (op : RouteOperation) × Memᴰ op (ready_operations r completed)
unfolding is_complete
validated-never_stuck r completed h missing =
    let w = (validate_iff r).0 h in
    let (op, m, not_done) =
      all-eq-false (λ o. contains completed o.seq)
        (filter (λ o. is_required o.requirement) r.operations) missing in
    let (m', _) = mem_of_filter (λ o. is_required o.requirement) r.operations m in
    let (ready, h') =
      IsReady-below r w completed (suc (w.rank op.seq)) op (omega arith) m' not_done in
    (ready, (ready_operations_iff r completed ready).1 h')
