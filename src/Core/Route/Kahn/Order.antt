-- ===== src/Core/Route/Kahn/Order.antt =====
-- The order in which `assert_acyclic` (crates/trace-core/src/route.rs) visits operations, as a rank,
-- and the loop started as the code starts it.
use traceability.Base.{
  ℕ, suc, ◌≤◌, ◌<◌, List, [], ◌∷◌, Option, none, some, ◌≡◌, refl, ap, ◌∙◌, arith, ◌==◌, inl, inr,
  Bool-cases, if◌then◌else◌, length, Memᴰ,
}
use traceability.Core.Error.{OperationSeq}
use traceability.Core.Route.{RouteOperation}
use traceability.Core.Route.Index.{get, count, zeros, count-zeros, length-zeros-add-positives}
use traceability.Core.Route.Kahn.{collect_indegree, collect_successors, kahn, successors_of}
use traceability.Core.Route.Kahn.Counts.{
  preds_of, IsDistinct, or_length, get-collect_indegree, collect_indegree_counts,
  count-collect_successors,
}
use traceability.Core.Route.Kahn.Relax.{unmet, pending, Inv}
use traceability.Core.Route.Kahn.Drain.{Turned, Final, Topo, drain-Final}

unmet-nil : (ps : List OperationSeq) → unmet [] ps ≡ length ps
unfolding unmet count
unmet-nil [] = refl
unmet-nil (p ∷ ps) = ap suc (unmet-nil ps)

pending-nil : (o : Option (List OperationSeq)) → or_length o none ≡ pending o [] 0
pending-nil none = refl
pending-nil (some ps) = ap some (omega (arith, unmet-nil ps))

-- A number for each position: the place in the list of those done, the latest highest.
unfoldable pub rank_in : List OperationSeq → OperationSeq → ℕ
rank_in [] k = 0
rank_in (x ∷ done) k = if x == k then suc (length done) else rank_in done k

pub met-get :
    {p : OperationSeq} (done ps : List OperationSeq)
    → unmet done ps ≡ 0
    → Memᴰ p ps
    → 0 < count p done
unfolding unmet
met-get done [] h m = elim m [ ]
met-get {p} done (q ∷ ps) h (Memᴰ.head e) = ground (arith, h, e)
met-get done (q ∷ ps) h (Memᴰ.tail m) = met-get done ps (ground (arith, h)) m

pub met-intro :
    (done ps : List OperationSeq)
    → ((p : OperationSeq) → Memᴰ p ps → 0 < count p done)
    → unmet done ps ≡ 0
unfolding unmet
met-intro done [] f = refl
met-intro done (q ∷ ps) f =
    ground (arith, f q (Memᴰ.head refl), met-intro done ps (λ p m. f p (Memᴰ.tail m)))

rank_in-le : (done : List OperationSeq) (k : OperationSeq) → rank_in done k ≤ length done
unfolding rank_in
rank_in-le [] k = omega arith
rank_in-le (x ∷ done) k = ground (arith, rank_in-le done k)

module _ (ops : List RouteOperation) where
  -- In a list that is topological and has no position twice, predecessors rank lower.
  pub rank_in-lt :
      {p : OperationSeq} (done : List OperationSeq) (k : OperationSeq) (ps : List OperationSeq)
      → Topo ops done
      → ((j : OperationSeq) → count j done ≤ 1)
      → preds_of ops k ≡ some ps
      → 0 < count k done
      → Memᴰ p ps
      → (0 < count p done) × (rank_in done p < rank_in done k)
  unfolding rank_in count
  rank_in-lt [] k ps o once e here m = absurd (omega arith)
  rank_in-lt {p} (x ∷ done) k ps o once e here m = elim (Bool-cases (x == k)) [
    | inl same ↦
        let before : 0 < count p done = met-get done ps (o.0 ps (ground (arith, same, e))) m in
        ground (arith, same, before, once p, rank_in-le done p)
    | inr other ↦
        let (before, lower) =
          rank_in-lt done k ps o.1 (λ j. ground (arith, once j)) e (ground (arith, here, other))
            m in
        ground (arith, other, before, lower, once p)
  ]

module _ (ops : List RouteOperation) (distinct : IsDistinct ops) where
  start-Turned : Turned ops (collect_successors ops [])
  unfolding successors_of count get
  start-Turned k x = omega (arith, count-collect_successors k x ops [] distinct)

  start-Inv :
      Inv ops []
        (length ops)
        []
        (record { indegree = collect_indegree ops []; queue = zeros (collect_indegree ops []) })
  unfolding count get
  start-Inv =
      let m = collect_indegree ops [] in
      let (unique, total) = collect_indegree_counts ops [] distinct (λ k. inl refl) tt in
      record {
        unique = unique;
        counted = λ k. get-collect_indegree ops [] k distinct ∙ pending-nil (preds_of ops k);
        queued = λ k. omega (arith, count-zeros k m unique);
        sized = omega (arith, total, length-zeros-add-positives m);
      }

  -- What the loop leaves.
  pub kahn-Final : Final ops (length ops) (kahn ops)
  unfolding kahn
  kahn-Final =
      let m = collect_indegree ops [] in
      drain-Final ops (length ops) (suc (length ops)) (collect_successors ops []) [] (length ops) m
        (zeros m) 0 start-Turned start-Inv tt (omega arith) (omega arith)

  -- Where no two operations share a position, the fuel is enough: the loop ends because the queue is
  -- empty, having visited no more operations than there are.
  pub kahn_terminates : ((kahn ops).0.queue ≡ []) × ((kahn ops).1 ≤ length ops)
  kahn_terminates = (kahn-Final.empty, omega (arith, kahn-Final.visited))
