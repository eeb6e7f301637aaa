-- ===== src/Core/Route/Kahn/Counts.antt =====
-- What the counters of `assert_acyclic` (crates/trace-core/src/route.rs) hold before the loop.
use traceability.Base.{
  ℕ, ◌+◌, List, [], ◌∷◌, ◌++◌, Option, none, some, ◌≡◌, refl, ◌⊎◌, inl, inr, arith, ◌==◌,
  if◌then◌else◌, length, Bool-cases, ==_iff,
}
use traceability.Core.Error.{OperationSeq}
use traceability.Core.Route.{RouteOperation}
use traceability.Core.Route.Index.{
  Index, get, insert, IsUnique, get-insert, get-write_self, get-write_ne, length-insert,
  insert-IsUnique, count, count-append,
}
use traceability.Core.Route.Kahn.{
  or_nil, push_at, collect_indegree, push_successor, push_successors, collect_successors,
  successors_of,
}

-- The predecessors of the first operation at a position.
unfoldable pub preds_of : List RouteOperation → OperationSeq → Option (List OperationSeq)
preds_of [] k = none
preds_of (o ∷ os) k = if o.seq == k then some o.predecessors else preds_of os k

-- No two operations share a position.
abbrev pub IsDistinct : List RouteOperation → Type 0
IsDistinct [] = Unit
IsDistinct (o ∷ os) = (preds_of os o.seq ≡ none) × IsDistinct os

-- The number of predecessors where there is an operation, and otherwise what stood there.
abbrev pub or_length : Option (List OperationSeq) → Option ℕ → Option ℕ
or_length none before = before
or_length (some ps) before = some (length ps)

pub get-collect_indegree :
    (ops : List RouteOperation) (m : Index ℕ) (k : OperationSeq)
    → IsDistinct ops
    → get k (collect_indegree ops m) ≡ or_length (preds_of ops k) (get k m)
unfolding collect_indegree preds_of
get-collect_indegree [] m k u = refl
get-collect_indegree (o ∷ os) m k u =
    let n = length o.predecessors in
    ground (arith, get-collect_indegree os (insert o.seq n m) k u.1, get-insert o.seq k n m, u.0)

abbrev pub IsFresh : List RouteOperation → Index ℕ → Type 0
IsFresh ops m = (k : OperationSeq) → (get k m ≡ none) ⊎ (preds_of ops k ≡ none)

pub collect_indegree_counts :
    (ops : List RouteOperation) (m : Index ℕ)
    → IsDistinct ops
    → IsFresh ops m
    → IsUnique m
    → IsUnique (collect_indegree ops m) × (length (collect_indegree ops m) ≡ length m + length ops)
unfolding collect_indegree preds_of
collect_indegree_counts [] m u f v = (v, omega arith)
collect_indegree_counts (o ∷ os) m u f v =
    let n = length o.predecessors in
    let absent : get o.seq m ≡ none = ground (arith, f o.seq) in
    let (unique, total) =
      collect_indegree_counts os (insert o.seq n m) u.1
        (λ k. ground (arith, f k, get-insert o.seq k n m, u.0))
        (insert-IsUnique o.seq n m absent v) in
    (unique, omega (arith, total, length-insert o.seq n m absent))

get-push_at :
    (x seq p : OperationSeq) (m : Index (List OperationSeq)) (o : Option (List OperationSeq))
    → get p m ≡ o
    → get x (push_at seq p m o) ≡ (if p == x then some (or_nil o ++ seq ∷ []) else get x m)
get-push_at x seq p m none e = get-insert p x (seq ∷ []) m
get-push_at x seq p m (some l) e =
    let l' = l ++ seq ∷ [] in ground (arith, get-write_self p l' l m e, get-write_ne p x l' m)

count-push_successor :
    (k x seq p : OperationSeq) (m : Index (List OperationSeq))
    → count k (successors_of (push_successor seq p m) x)
      ≡ count k (successors_of m x) + (if p == x then count k (seq ∷ []) else 0)
unfolding count push_successor successors_of
count-push_successor k x seq p m =
    rw (get-push_at x seq p m (get p m) refl) (elim (Bool-cases (p == x)) [
      | inl same ↦ rw (same, ← (==_iff p x).0 same) (count-append k (or_nil (get p m)) (seq ∷ []))
      | inr other ↦ rw other (omega arith)
    ])

count-push_successors :
    (k x seq : OperationSeq) (ps : List OperationSeq) (m : Index (List OperationSeq))
    → count k (successors_of (push_successors seq ps m) x)
      ≡ count k (successors_of m x) + (if seq == k then count x ps else 0)
unfolding push_successors count
count-push_successors k x seq [] m = ground arith
count-push_successors k x seq (p ∷ ps) m = ground (
  arith,
  count-push_successors k x seq ps (push_successor seq p m),
  count-push_successor k x seq p m,
)

-- How often `x` stands among the predecessors of the operation at `k`.
abbrev pub needs : Option (List OperationSeq) → OperationSeq → ℕ
needs none x = 0
needs (some ps) x = count x ps

pub count-collect_successors :
    (k x : OperationSeq) (ops : List RouteOperation) (m : Index (List OperationSeq))
    → IsDistinct ops
    → count k (successors_of (collect_successors ops m) x)
      ≡ count k (successors_of m x) + needs (preds_of ops k) x
unfolding collect_successors preds_of
count-collect_successors k x [] m u = omega arith
count-collect_successors k x (o ∷ os) m u = ground (
  arith,
  count-collect_successors k x os (push_successors o.seq o.predecessors m) u.1,
  count-push_successors k x o.seq o.predecessors m,
  u.0,
)
