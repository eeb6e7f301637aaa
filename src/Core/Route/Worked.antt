-- ===== src/Core/Route/Worked.antt =====
-- What is completed when operations are worked on only while they are ready (`ready_operations`,
-- crates/trace-core/src/route.rs), one at a time.
use traceability.Base.{
  true, List, [], some, ok, ◌≡◌, refl, ◌⊎◌, inl, inr, arith, ◌==◌, all, Memᴰ, Bool-cases, all-intro,
  all-get,
}
use mathlib.Core.Path.{subst}
use traceability.Core.Error.{OperationSeq}
use traceability.Core.Route.{
  RouteOperation, Route, required, contains, insert, operation, predecessor_satisfied,
  predecessors_satisfied, ready_operations,
}
use traceability.Core.Route.Kahn.Acyclic.{preds_of-mem}
use traceability.Core.Route.Validate.{validate}
use traceability.Core.Route.Validate.Sound.{IsWellFormed, validate_iff}
use traceability.Core.Route.Progress.{ready_operations_iff}

-- The sets of completed operations that work reaches, from none, by operations that are ready.
pub data Worked (r : Route) : List OperationSeq → Type 0 where
  start : Worked r []
  completing :
      {done : List OperationSeq} {op : RouteOperation}
      → Worked r done
      → Memᴰ op (ready_operations r done)
      → Worked r (insert op.seq done)

-- The operation `a` is required, and `b` waits for it: directly, or for another required operation that
-- waits for it.
pub data RequiredBefore (r : Route) : OperationSeq → OperationSeq → Type 0 where
  direct :
      {a : OperationSeq} {pred op : RouteOperation}
      → operation r a ≡ some pred
      → pred.requirement ≡ required
      → Memᴰ op r.operations
      → Memᴰ a op.predecessors
      → RequiredBefore r a op.seq
  further :
      {a b c : OperationSeq} → RequiredBefore r a b → RequiredBefore r b c → RequiredBefore r a c

contains-insert_or :
    (x k : OperationSeq) (set : List OperationSeq)
    → contains (insert x set) k ≡ true
    → ((x == k) ≡ true) ⊎ (contains set k ≡ true)
contains-insert_or x k set h = elim (Bool-cases (contains set k)) [
  | inl yes' ↦ inr yes'
  | inr no' ↦ inl (ground (arith, no', h))
]

contains-insert_keep :
    (x k : OperationSeq) (set : List OperationSeq)
    → contains set k ≡ true
    → contains (insert x set) k ≡ true
contains-insert_keep x k set h = ground (arith, h)

-- A predecessor stays satisfied.
satisfied_keep :
    (r : Route) (x p : OperationSeq) (done : List OperationSeq)
    → predecessor_satisfied r done p ≡ true
    → predecessor_satisfied r (insert x done) p ≡ true
unfolding predecessor_satisfied
satisfied_keep r x p done h = elim (Bool-cases (contains done p)) [
  | inl yes' ↦ rw (contains-insert_keep x p done yes') refl
  | inr no' ↦ elim (Bool-cases (contains (insert x done) p)) [
    | inl yes' ↦ rw yes' refl
    | inr still ↦ rw still (rw no' at h)
  ]
]

predecessors_keep :
    (r : Route) (x : OperationSeq) (op : RouteOperation) (done : List OperationSeq)
    → predecessors_satisfied r op done ≡ true
    → predecessors_satisfied r op (insert x done) ≡ true
unfolding predecessors_satisfied
predecessors_keep r x op done h =
    all-intro (predecessor_satisfied r (insert x done)) op.predecessors
      λ p m. satisfied_keep r x p done (all-get (predecessor_satisfied r done) op.predecessors h m)

-- Two operations at one position of a validated route wait for the same ones.
same_predecessors :
    (r : Route) (w : IsWellFormed r) (op other : RouteOperation)
    → Memᴰ op r.operations
    → Memᴰ other r.operations
    → op.seq ≡ other.seq
    → op.predecessors ≡ other.predecessors
same_predecessors r w op other m n e =
    let p = preds_of-mem r.operations w.distinct m in
    let q = preds_of-mem r.operations w.distinct n in cc

satisfied_of_same :
    (r : Route) (w : IsWellFormed r) (op other : RouteOperation) (done : List OperationSeq)
    → Memᴰ op r.operations
    → Memᴰ other r.operations
    → op.seq ≡ other.seq
    → predecessors_satisfied r op done ≡ true
    → predecessors_satisfied r other done ≡ true
unfolding predecessors_satisfied
satisfied_of_same r w op other done m n e h =
    subst (λ ps. all (predecessor_satisfied r done) ps ≡ true)
      (same_predecessors r w op other m n e) h

waited_for :
    (r : Route) (op pred : RouteOperation) (done : List OperationSeq) (a : OperationSeq)
    → operation r a ≡ some pred
    → pred.requirement ≡ required
    → Memᴰ a op.predecessors
    → predecessors_satisfied r op done ≡ true
    → contains done a ≡ true
unfolding predecessors_satisfied predecessor_satisfied
waited_for r op pred done a at is_required m h =
    ground (arith, at, is_required, all-get (predecessor_satisfied r done) op.predecessors h m)

-- What an operation waits for is satisfied once it is completed.
completed-satisfied :
    (r : Route) (w : IsWellFormed r) {done : List OperationSeq} (op : RouteOperation)
    → Worked r done
    → Memᴰ op r.operations
    → contains done op.seq ≡ true
    → predecessors_satisfied r op done ≡ true
completed-satisfied r w op start m h = absurd (ground (arith, h))
completed-satisfied r w op (completing {done} {op = now} worked ready) m h =
    let ready_now = (ready_operations_iff r done now).0 ready in
    predecessors_keep r now.seq op done (elim (contains-insert_or now.seq op.seq done h) [
      | inl same ↦
          satisfied_of_same r w now op done ready_now.planned m (ground (arith, same))
            ready_now.satisfied
      | inr before ↦ completed-satisfied r w op worked m before
    ])

-- On a validated route whose operations are worked on only while they are ready, nothing is completed
-- before a required operation that it waits for, at any distance through required operations.
pub Worked-RequiredBefore :
    (r : Route) {done : List OperationSeq} {a b : OperationSeq}
    → validate r ≡ ok tt
    → Worked r done
    → RequiredBefore r a b
    → contains done b ≡ true
    → contains done a ≡ true
Worked-RequiredBefore r valid worked (direct {a} {pred} {op} at is_required m mp) h =
    waited_for r op pred _ a at is_required mp
      (completed-satisfied r ((validate_iff r).0 valid) op worked m h)
Worked-RequiredBefore r valid worked (further p q) h =
    Worked-RequiredBefore r valid worked p (Worked-RequiredBefore r valid worked q h)
