-- ===== src/Samples/Routes.antt =====
-- Examples for the route of the samples.
use traceability.Base.{length, [], ◌∷◌, ok, ◌≡◌, ◌↔◌, ◌≤◌, refl, true, false, Memᴰ}
use traceability.Core.Route.{
  RouteOperation, operation, contains, predecessor_satisfied, predecessors_satisfied,
  ready_operations, is_complete,
}
use traceability.Core.Route.Validate.{collect_seen, check_operations, check_entry, validate}
use traceability.Core.Route.Validate.Sound.{IsWellFormed, validate_iff}
use traceability.Core.Route.Index.{zeros, insert, get, write}
use traceability.Core.Route.Kahn.{kahn, assert_acyclic}
use traceability.Core.Route.Kahn.Counts.{IsDistinct, preds_of}
use traceability.Core.Route.Kahn.Order.{kahn_terminates}
use traceability.Core.Route.Progress.{validated-never_stuck}
use traceability.Core.Route.Worked.{
  Worked, start, completing, RequiredBefore, direct, Worked-RequiredBefore,
}
use traceability.Samples.{first, second, third, route}

pub route_valid : validate route ≡ ok tt
unfolding validate collect_seen check_operations check_entry assert_acyclic kahn zeros insert get
    write
route_valid = refl

validate_iff_example : (validate route ≡ ok tt) ↔ IsWellFormed route
validate_iff_example = validate_iff route

third_missing : is_complete route (10 ∷ []) ≡ false
unfolding is_complete
third_missing = refl

validated-never_stuck_example : (op : RouteOperation) × Memᴰ op (ready_operations route (10 ∷ []))
validated-never_stuck_example = validated-never_stuck route (10 ∷ []) route_valid third_missing

abbrev skipping : RouteOperation
skipping = record third { predecessors = 20 ∷ [] }

-- Through an optional operation an operation does not wait for the required one behind it.
skipping_waits_for_nothing : predecessors_satisfied route skipping [] ≡ true
unfolding predecessors_satisfied predecessor_satisfied operation
skipping_waits_for_nothing = refl

first_ready : Memᴰ first (ready_operations route [])
unfolding ready_operations predecessors_satisfied predecessor_satisfied operation
first_ready = Memᴰ.head refl

third_ready : Memᴰ third (ready_operations route (10 ∷ []))
unfolding ready_operations predecessors_satisfied predecessor_satisfied operation
third_ready = Memᴰ.tail (Memᴰ.head refl)

-- The first operation, then the third, without the second.
short_way : Worked route (30 ∷ 10 ∷ [])
short_way = completing (completing start first_ready) third_ready

first_before_third : RequiredBefore route 10 30
unfolding operation
first_before_third =
    direct {op = third} refl refl (Memᴰ.tail (Memᴰ.tail (Memᴰ.head refl)))
      (Memᴰ.tail (Memᴰ.head refl))

Worked-RequiredBefore_example : contains (30 ∷ 10 ∷ []) 10 ≡ true
Worked-RequiredBefore_example =
    Worked-RequiredBefore route route_valid short_way first_before_third refl

route-IsDistinct : IsDistinct (first ∷ second ∷ third ∷ [])
unfolding preds_of
route-IsDistinct = (refl, (refl, (refl, tt)))

kahn_terminates_example :
    ((kahn (first ∷ second ∷ third ∷ [])).0.queue ≡ [])
    × ((kahn (first ∷ second ∷ third ∷ [])).1 ≤ length (first ∷ second ∷ third ∷ []))
kahn_terminates_example = kahn_terminates (first ∷ second ∷ third ∷ []) route-IsDistinct
