-- ===== src/Core/Route/Kahn/Relax.antt =====
-- The `for` loop of `assert_acyclic` (crates/trace-core/src/route.rs): what one relaxation, and a
-- whole list of them, does to the index and the queue.
use traceability.Base.{
  ℕ, zero, suc, ◌+◌, List, [], ◌∷◌, Option, none, some, ◌≡◌, refl, arith, ◌==◌, if◌then◌else◌,
  length, length-append,
}
use traceability.Core.Error.{OperationSeq}
use traceability.Core.Route.{RouteOperation}
use traceability.Core.Route.Index.{
  get, IsUnique, positives, zero_at, get-write_self, get-write_ne, length-positives-write,
  write-IsUnique, count, count-append,
}
use traceability.Core.Route.Kahn.{Work, relax_at, relax_one, relax}
use traceability.Core.Route.Kahn.Counts.{preds_of}

-- How many of the listed predecessors are not done yet.
unfoldable pub unmet : List OperationSeq → List OperationSeq → ℕ
unfolding count
unmet done [] = 0
unmet done (p ∷ ps) = if count p done == 0 then suc (unmet done ps) else unmet done ps

-- The unmet predecessors of an operation, with those among `rest` that are still to be counted off.
abbrev pub pending : Option (List OperationSeq) → List OperationSeq → ℕ → Option ℕ
pending none done c = none
pending (some ps) done c = some (unmet done ps + c)

module _ (ops : List RouteOperation) (done : List OperationSeq) where
  -- Between two steps of the `for` loop, with `rest` still to relax: each counter is the number of
  -- its unmet predecessors, a position is queued or done exactly when its counter is zero, and then
  -- once, and queue and open counters together number `total`.
  pub record Inv (total : ℕ) (rest : List OperationSeq) (w : Work) : Type 0 where
    pub unique : IsUnique w.indegree
    pub counted :
        (k : OperationSeq) → get k w.indegree ≡ pending (preds_of ops k) done (count k rest)
    pub queued : (k : OperationSeq) → count k w.queue + count k done ≡ zero_at k w.indegree
    pub sized : length w.queue + length (positives w.indegree) ≡ total

  relax_at-Inv :
      (total : ℕ) (next : OperationSeq) (rest : List OperationSeq) (w : Work) (o : Option ℕ)
      → get next w.indegree ≡ o
      → Inv total (next ∷ rest) w
      → Inv total rest (relax_at next w o)
  unfolding count zero_at
  relax_at-Inv total next rest w none e v = record {
    unique = v.unique;
    counted = λ k. ground (arith, v.counted k, e);
    queued = v.queued;
    sized = v.sized;
  }
  relax_at-Inv total next rest w (some zero) e v = absurd (ground (arith, v.counted next, e))
  relax_at-Inv total next rest w (some (suc d)) e v = record {
    unique = write-IsUnique next d w.indegree v.unique;
    counted = λ k. ground (
      arith,
      v.counted k,
      e,
      get-write_self next d (suc d) w.indegree e,
      get-write_ne next k d w.indegree,
    );
    queued = λ k. ground (
      arith,
      v.queued k,
      e,
      get-write_self next d (suc d) w.indegree e,
      get-write_ne next k d w.indegree,
      count-append k w.queue (next ∷ []),
    );
    sized = ground (
      arith,
      v.sized,
      length-positives-write next d (suc d) w.indegree e,
      length-append w.queue (next ∷ []),
    );
  }

  relax_one-Inv :
      (total : ℕ) (next : OperationSeq) (rest : List OperationSeq) (w : Work)
      → Inv total (next ∷ rest) w
      → Inv total rest (relax_one next w)
  unfolding relax_one
  relax_one-Inv total next rest w v = relax_at-Inv total next rest w (get next w.indegree) refl v

  pub relax-Inv :
      (total : ℕ) (rest : List OperationSeq) (w : Work)
      → Inv total rest w
      → Inv total [] (relax rest w)
  unfolding relax
  relax-Inv total [] w v = v
  relax-Inv total (next ∷ rest) w v =
      relax-Inv total rest (relax_one next w) (relax_one-Inv total next rest w v)
