-- ===== src/Core/Route/Kahn/Drain.antt =====
-- The `while let` loop of `assert_acyclic` (crates/trace-core/src/route.rs): it ends with an empty
-- queue, and the operations taken from the queue stand in a topological order.
use traceability.Base.{
  ℕ, zero, suc, ◌+◌, ◌≤◌, ◌<◌, List, [], ◌∷◌, Option, none, some, ◌≡◌, refl, ap, ◌∙◌, arith,
}
use traceability.Core.Error.{OperationSeq}
use traceability.Core.Route.{RouteOperation}
use traceability.Core.Route.Index.{Index, zero_at, count}
use traceability.Core.Route.Kahn.{Work, relax, successors_of, drain}
use traceability.Core.Route.Kahn.Counts.{preds_of, needs}
use traceability.Core.Route.Kahn.Relax.{unmet, pending, Inv, relax-Inv}

unmet-cons :
    (seq : OperationSeq) (done ps : List OperationSeq)
    → count seq done ≡ 0
    → unmet done ps ≡ unmet (seq ∷ done) ps + count seq ps
unfolding unmet count
unmet-cons seq done [] h = omega arith
unmet-cons seq done (p ∷ ps) h = ground (arith, unmet-cons seq done ps h)

zero_at-le_one : (k : OperationSeq) (m : Index ℕ) → zero_at k m ≤ 1
unfolding zero_at
zero_at-le_one k m = ground arith

pending-cons :
    (o : Option (List OperationSeq)) (seq c : ℕ) (done : List OperationSeq)
    → count seq done ≡ 0
    → c ≡ needs o seq
    → pending o done 0 ≡ pending o (seq ∷ done) c
pending-cons none seq c done h e = refl
pending-cons (some ps) seq c done h e = ap some (omega (arith, unmet-cons seq done ps h))

module _ (ops : List RouteOperation) where
  -- Each operation of the list stands before (the list is newest first) all its predecessors.
  abbrev pub Topo : List OperationSeq → Type 0
  Topo [] = Unit
  Topo (seq ∷ done) =
      ((ps : List OperationSeq) → preds_of ops seq ≡ some ps → unmet done ps ≡ 0) × Topo done

  -- The successor lists are the predecessor lists turned round.
  abbrev pub Turned : Index (List OperationSeq) → Type 0
  Turned succs = (k x : OperationSeq) → count k (successors_of succs x) ≡ needs (preds_of ops k) x

  pop-Inv :
      (done : List OperationSeq) (total : ℕ) (succs : Index (List OperationSeq)) (m : Index ℕ)
      (seq : OperationSeq) (queue : List OperationSeq)
      → Turned succs
      → Inv ops done (suc total) [] (record { indegree = m; queue = seq ∷ queue })
      → Inv ops
          (seq ∷ done)
          total
          (successors_of succs seq)
          (record { indegree = m; queue = queue })
  unfolding count
  pop-Inv done total succs m seq queue t v = record {
    unique = v.unique;
    counted = λ k.
        v.counted k
        ∙ pending-cons (preds_of ops k) seq (count k (successors_of succs seq)) done
            (ground (arith, v.queued seq, zero_at-le_one seq m)) (t k seq);
    queued = λ k. ground (arith, v.queued k);
    sized = omega (arith, v.sized);
  }

  pop-Topo :
      (done : List OperationSeq) (total : ℕ) (m : Index ℕ) (seq : OperationSeq)
      (queue : List OperationSeq)
      → Inv ops done total [] (record { indegree = m; queue = seq ∷ queue })
      → (ps : List OperationSeq) → preds_of ops seq ≡ some ps
      → unmet done ps ≡ 0
  unfolding count zero_at
  pop-Topo done total m seq queue v ps e = ground (arith, v.counted seq, v.queued seq)

  -- What the loop leaves: nothing in the queue, and `done`, all that was ever taken from it.
  pub record Final (n : ℕ) (result : Work × ℕ) : Type 0 where
    pub done : List OperationSeq
    pub open_count : ℕ
    pub empty : result.0.queue ≡ []
    pub inv : Inv ops done open_count [] result.0
    pub topo : Topo done
    pub visited : result.1 + open_count ≡ n

  pub drain-Final :
      (n fuel : ℕ) (succs : Index (List OperationSeq)) (done : List OperationSeq) (total : ℕ)
      (m : Index ℕ) (queue : List OperationSeq) (visited : ℕ)
      → Turned succs
      → Inv ops done total [] (record { indegree = m; queue = queue })
      → Topo done
      → visited + total ≡ n
      → total < fuel
      → Final n (drain fuel succs m queue visited)
  unfolding drain
  drain-Final n zero succs done total m queue visited t v o e h = absurd (omega arith)
  drain-Final n (suc fuel) succs done total m [] visited t v o e h = record {
    done = done;
    open_count = total;
    empty = refl;
    inv = v;
    topo = o;
    visited = e;
  }
  drain-Final n (suc fuel) succs done zero m (seq ∷ queue) visited t v o e h =
      absurd (omega (arith, v.sized))
  drain-Final n (suc fuel) succs done (suc total) m (seq ∷ queue) visited t v o e h =
      let w : Work = record { indegree = m; queue = queue } in
      let w' = relax (successors_of succs seq) w in
      drain-Final n fuel succs (seq ∷ done) total w'.indegree w'.queue (visited + 1) t
        (relax-Inv ops (seq ∷ done) total (successors_of succs seq) w
          (pop-Inv done total succs m seq queue t v))
        (pop-Topo done (suc total) m seq queue v, o) (omega arith) (omega arith)
