-- ===== src/Core/Route/Kahn.antt =====
-- `Route::assert_acyclic` of crates/trace-core/src/route.rs: Kahn's algorithm over the index of
-- unmet predecessors. The `while let` loop runs on fuel; the number of operations is enough.
pub mod Counts
pub mod Relax
pub mod Drain
pub mod Order
pub mod Acyclic
use traceability.Base.{
  ℕ, zero, suc, ◌+◌, ◌-◌, ◌^◌, List, [], ◌∷◌, ◌++◌, Option, none, some, Result, ok, err, ◌==◌,
  if◌then◌else◌, length,
}
use traceability.Core.Error.{OperationSeq, CoreError, invalid_route, cycle_detected}
use traceability.Core.Route.{RouteOperation, Route}
use traceability.Core.Route.Index.{Index, get, insert, write, zeros, positives}

-- `usize` subtraction of one, which wraps.
abbrev pub usize_pred : ℕ → ℕ
usize_pred zero = 2 ^ 64 - 1
usize_pred (suc n) = n

-- `.map(|o| (o.seq, o.predecessors.len())).collect()`
unfoldable pub collect_indegree : List RouteOperation → Index ℕ → Index ℕ
collect_indegree [] m = m
collect_indegree (o ∷ os) m = collect_indegree os (insert o.seq (length o.predecessors) m)

abbrev pub or_nil : Option (List OperationSeq) → List OperationSeq
or_nil none = []
or_nil (some l) = l

-- `entry.or_default().push(seq)`, by whether the entry at `p` is there.
abbrev pub push_at :
    OperationSeq
    → OperationSeq
    → Index (List OperationSeq)
    → Option (List OperationSeq)
    → Index (List OperationSeq)
push_at seq p m none = insert p (seq ∷ []) m
push_at seq p m (some l) = write p (l ++ seq ∷ []) m

-- `successors.entry(p).or_default().push(seq)`
unfoldable pub push_successor :
    OperationSeq → OperationSeq → Index (List OperationSeq) → Index (List OperationSeq)
push_successor seq p m = push_at seq p m (get p m)

unfoldable pub push_successors :
    OperationSeq → List OperationSeq → Index (List OperationSeq) → Index (List OperationSeq)
unfolding push_successor
push_successors seq [] m = m
push_successors seq (p ∷ ps) m = push_successors seq ps (push_successor seq p m)

unfoldable pub collect_successors :
    List RouteOperation → Index (List OperationSeq) → Index (List OperationSeq)
unfolding push_successors
collect_successors [] m = m
collect_successors (o ∷ os) m = collect_successors os (push_successors o.seq o.predecessors m)

-- `successors.get(&seq).into_iter().flatten()`
unfoldable pub successors_of : Index (List OperationSeq) → OperationSeq → List OperationSeq
successors_of m seq = or_nil (get seq m)

-- What the loop changes: the index and the queue.
pub record Work : Type 0 where
  pub indegree : Index ℕ
  pub queue : List OperationSeq

-- `if let Some(d) = indegree.get_mut(next) { … }`, by what stands at `next`.
abbrev pub relax_at : OperationSeq → Work → Option ℕ → Work
relax_at next w none = w
relax_at next w (some d) =
    let d' = usize_pred d in
    record {
      indegree = write next d' w.indegree;
      queue = if d' == 0 then w.queue ++ next ∷ [] else w.queue;
    }

-- The body of the `for` loop over the successors of the operation just taken.
unfoldable pub relax_one : OperationSeq → Work → Work
relax_one next w = relax_at next w (get next w.indegree)

unfoldable pub relax : List OperationSeq → Work → Work
unfolding relax_one
relax [] w = w
relax (next ∷ rest) w = relax rest (relax_one next w)

-- The `while let` loop: what is left, and the number of operations visited.
unfoldable pub drain : ℕ → Index (List OperationSeq) → Index ℕ → List OperationSeq → ℕ → Work × ℕ
unfolding relax successors_of
drain zero succs m queue visited = (record { indegree = m; queue = queue }, visited)
drain (suc fuel) succs m [] visited = (record { indegree = m; queue = [] }, visited)
drain (suc fuel) succs m (seq ∷ queue) visited =
    let w = relax (successors_of succs seq) (record { indegree = m; queue = queue }) in
    drain fuel succs w.indegree w.queue (visited + 1)

unfoldable pub kahn : List RouteOperation → Work × ℕ
unfolding collect_indegree collect_successors drain
kahn ops =
    let m = collect_indegree ops [] in
    drain (suc (length ops)) (collect_successors ops []) m (zeros m) 0

unfoldable pub assert_acyclic : Route → Result CoreError (Unit {0})
unfolding kahn
assert_acyclic r =
    let (w, visited) = kahn r.operations in
    if visited == length r.operations
    then ok tt
    else err (invalid_route (cycle_detected (positives w.indegree)))
