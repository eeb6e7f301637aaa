-- ===== src/Core/Route/Validate.antt =====
-- `Route::validate` of crates/trace-core/src/route.rs.
pub mod Sound
use traceability.Base.{
  ℕ, Bool, true, false, not, List, [], ◌∷◌, Result, ok, err, ◌>>=◌, ◌>>◌, ◌==◌, if◌then◌else◌, any,
  is_empty,
}
use traceability.Core.Error.{
  OperationSeq, CoreError, invalid_route, no_operations, no_entry_operation, duplicate_seq,
  self_predecessor, unknown_predecessor,
}
use traceability.Core.Route.{RouteOperation, Route, contains}
use traceability.Core.Route.Kahn.{assert_acyclic}

-- The first loop: `seen.insert(op.seq)` refuses a position that is there already.
unfoldable pub collect_seen :
    List RouteOperation → List OperationSeq → Result CoreError (List OperationSeq)
collect_seen [] seen = ok seen
collect_seen (op ∷ ops) seen =
    if contains seen op.seq
    then err (invalid_route (duplicate_seq op.seq))
    else collect_seen ops (op.seq ∷ seen)

-- The inner and the outer loop over predecessors.
unfoldable pub check_predecessors :
    List OperationSeq → OperationSeq → List OperationSeq → Result CoreError (Unit {0})
check_predecessors seen seq [] = ok tt
check_predecessors seen seq (p ∷ ps) =
    if p == seq
    then err (invalid_route (self_predecessor seq))
    else if not (contains seen p)
    then err (invalid_route (unknown_predecessor seq p))
    else check_predecessors seen seq ps

unfoldable pub check_operations :
    List OperationSeq → List RouteOperation → Result CoreError (Unit {0})
unfolding check_predecessors
check_operations seen [] = ok tt
check_operations seen (op ∷ ops) =
    check_predecessors seen op.seq op.predecessors >> check_operations seen ops

unfoldable pub check_entry : List RouteOperation → Result CoreError (Unit {0})
check_entry ops =
    if not (any (λ o. is_empty o.predecessors) ops)
    then err (invalid_route no_entry_operation)
    else ok tt

unfoldable pub validate : Route → Result CoreError (Unit {0})
validate r = if is_empty r.operations then err (invalid_route no_operations) else (do
  seen ← collect_seen r.operations []
  check_operations seen r.operations
  check_entry r.operations
  assert_acyclic r)
