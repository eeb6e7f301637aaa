-- ===== src/Core/Route/Kahn/Acyclic.antt =====
-- `assert_acyclic` of crates/trace-core/src/route.rs accepts a route exactly when its operations can
-- be ranked with every predecessor below.
use traceability.Base.{
  ℕ, zero, suc, ◌+◌, ◌≤◌, ◌<◌, List, [], ◌∷◌, some, ◌≡◌, refl, arith, ◌==◌, length, All, All-get,
  All-intro, Memᴰ, ok, inl, inr, Bool-cases, Option-cases,
}
use traceability.Core.Error.{OperationSeq}
use traceability.Core.Route.{RouteOperation, Route}
use traceability.Core.Route.Index.{
  get, positives, zero_at, count, zero_of_positives-nil, positives-nil_of_zero,
}
use traceability.Core.Route.Kahn.{kahn, assert_acyclic}
use traceability.Core.Route.Kahn.Counts.{preds_of, IsDistinct}
use traceability.Core.Route.Kahn.Relax.{unmet}
use traceability.Core.Route.Kahn.Drain.{Final}
use traceability.Core.Route.Kahn.Order.{rank_in, rank_in-lt, met-intro, kahn-Final}

-- Every predecessor of every operation ranks below it.
abbrev pub IsRanked : (OperationSeq → ℕ) → List RouteOperation → Type 0
IsRanked rank ops = All (λ op. All (λ p. rank p < rank op.seq) op.predecessors) ops

-- Every predecessor of every operation is the position of an operation.
abbrev pub IsKnown : List RouteOperation → List RouteOperation → Type 0
IsKnown all_ops ops =
    All (λ op. All (λ p. (ps : List OperationSeq) × (preds_of all_ops p ≡ some ps)) op.predecessors)
      ops

pub preds_of-mem :
    {op : RouteOperation} (ops : List RouteOperation)
    → IsDistinct ops
    → Memᴰ op ops
    → preds_of ops op.seq ≡ some op.predecessors
unfolding preds_of
preds_of-mem [] u m = elim m [ ]
preds_of-mem {op} (o ∷ os) u (Memᴰ.head e) = rw e (ground arith)
preds_of-mem {op} (o ∷ os) u (Memᴰ.tail m) = let h = preds_of-mem os u.1 m in ground (arith, h, u.0)

-- An operation behind what `preds_of` finds.
pub mem_of_preds_of :
    (k : OperationSeq) (ps : List OperationSeq) (ops : List RouteOperation)
    → preds_of ops k ≡ some ps
    → (op : RouteOperation) × Memᴰ op ops × (op.seq ≡ k) × (op.predecessors ≡ ps)
unfolding preds_of
mem_of_preds_of k ps [] h = absurd (ground arith)
mem_of_preds_of k ps (o ∷ os) h = elim (Bool-cases (o.seq == k)) [
  | inl same ↦ (o, Memᴰ.head refl, ground arith, ground (arith, same, h))
  | inr other ↦
      let (op, m, at, its) = mem_of_preds_of k ps os (ground (arith, other, h)) in
      (op, Memᴰ.tail m, at, its)
]

module _ (ops : List RouteOperation) (distinct : IsDistinct ops) where
  abbrev final : Final ops (length ops) (kahn ops)
  final = kahn-Final ops distinct

  -- A counter at zero belongs to an operation that was taken from the queue, once.
  done_of_zero :
      (k : OperationSeq) (ps : List OperationSeq)
      → preds_of ops k ≡ some ps
      → unmet final.done ps ≡ 0
      → 0 < count k final.done
  unfolding zero_at count
  done_of_zero k ps e h = ground (arith, final.inv.counted k, final.inv.queued k, final.empty, e, h)

  done_once : (k : OperationSeq) → count k final.done ≤ 1
  unfolding zero_at count
  done_once k = ground (arith, final.inv.queued k, final.empty)

  closed :
      length (positives (kahn ops).0.indegree) ≡ 0
      → (op : RouteOperation) → Memᴰ op ops
      → unmet final.done op.predecessors ≡ 0
  unfolding count
  closed h op m =
      let n = unmet final.done op.predecessors in
      ground (
        arith,
        zero_of_positives-nil op.seq (n + 0) (kahn ops).0.indegree h,
        final.inv.counted op.seq,
        preds_of-mem ops distinct m,
      )

  -- If every operation was visited, the order of the visits ranks them.
  IsRanked-of_visited : (kahn ops).1 ≡ length ops → IsRanked (rank_in final.done) ops
  IsRanked-of_visited h =
      let none_open : length (positives (kahn ops).0.indegree) ≡ 0 =
        ground (arith, final.visited, final.inv.sized, final.empty, h) in
      All-intro _ ops λ op m. All-intro _ op.predecessors λ p mp.
        (rank_in-lt ops final.done op.seq op.predecessors final.topo done_once
          (preds_of-mem ops distinct m)
          (done_of_zero op.seq op.predecessors (preds_of-mem ops distinct m)
            (closed none_open op m))
          mp).1

  -- With a rank, no counter stays open, by induction on the rank.
  met_below :
      (rank : OperationSeq → ℕ)
      → IsRanked rank ops
      → IsKnown ops ops
      → (n : ℕ) (k : OperationSeq) (ps : List OperationSeq) → rank k < n
      → preds_of ops k ≡ some ps
      → unmet final.done ps ≡ 0
  met_below rank r known zero k ps lt e = absurd (omega arith)
  met_below rank r known (suc n) k ps lt e =
      let (op, m, at, its) = mem_of_preds_of k ps ops e in
      met-intro final.done ps λ p mp.
        let mp' : Memᴰ p op.predecessors = rw its mp in
        let lower : rank p < rank op.seq = All-get _ op.predecessors (All-get _ ops r m) mp' in
        let (qs, found) = All-get _ op.predecessors (All-get _ ops known m) mp' in
        done_of_zero p qs found
          (met_below rank r known n p qs (ground (arith, lower, at, lt)) found)

  all_closed :
      (rank : OperationSeq → ℕ)
      → IsRanked rank ops
      → IsKnown ops ops
      → (k d : ℕ) → get k (kahn ops).0.indegree ≡ some d
      → d ≡ 0
  unfolding count
  all_closed rank r known k d g = elim (Option-cases (preds_of ops k)) [
    | inl none_here ↦ absurd (ground (arith, final.inv.counted k, none_here, g))
    | inr (ps, here) ↦ ground (
      arith,
      final.inv.counted k,
      here,
      g,
      met_below rank r known (suc (rank k)) k ps (omega arith) here,
    )
  ]

  visited_of_ranked :
      (rank : OperationSeq → ℕ) → IsRanked rank ops → IsKnown ops ops → (kahn ops).1 ≡ length ops
  visited_of_ranked rank r known =
      let none_open : length (positives (kahn ops).0.indegree) ≡ 0 =
        positives-nil_of_zero (kahn ops).0.indegree final.inv.unique (all_closed rank r known) in
      ground (arith, final.visited, final.inv.sized, final.empty, none_open)

  -- On a route with distinct positions and known predecessors, the check passes exactly when there
  -- is a rank.
  pub assert_acyclic_sound :
      (r : Route)
      → r.operations ≡ ops
      → assert_acyclic r ≡ ok tt
      → (rank : OperationSeq → ℕ) × IsRanked rank ops
  unfolding assert_acyclic
  assert_acyclic_sound r e h = (rank_in final.done, IsRanked-of_visited (ground (arith, e, h)))

  pub assert_acyclic_complete :
      (r : Route) (rank : OperationSeq → ℕ)
      → r.operations ≡ ops
      → IsRanked rank ops
      → IsKnown ops ops
      → assert_acyclic r ≡ ok tt
  unfolding assert_acyclic
  assert_acyclic_complete r rank e ranked known =
      ground (arith, e, visited_of_ranked rank ranked known)
