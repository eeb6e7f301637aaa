-- ===== src/Core/Unit.antt =====
-- crates/trace-core/src/unit.rs: the lifecycle states of a unit and its transitions. A method that
-- takes `&mut self` returns the unit as it leaves it, with its result.
pub mod Lifecycle
pub mod Payload
pub mod Measured
use Prim.Native.String.{◌++◌ as text_append}
use traceability.Base.{ℕ, String, Bool, true, false, not, Option, Result, ok, err, if◌then◌else◌}
use traceability.Core.Error.{
  RowId, UnitUid, OperationSeq, CoreError, illegal_transition, retired_uid,
}

pub data UnitState : Type 0 where
  born marked in_process held quarantined reworking completed shipped scrapped : UnitState

unfoldable pub is_terminal : UnitState → Bool
is_terminal scrapped = true
is_terminal _ = false

unfoldable pub accepts_work : UnitState → Bool
accepts_work born = true
accepts_work marked = true
accepts_work in_process = true
accepts_work reworking = true
accepts_work _ = false

unfoldable pub name : UnitState → String
name born = "BORN"
name marked = "MARKED"
name in_process = "IN_PROCESS"
name held = "HELD"
name quarantined = "QUARANTINED"
name reworking = "REWORKING"
name completed = "COMPLETED"
name shipped = "SHIPPED"
name scrapped = "SCRAPPED"

unfoldable pub can_transition_to : UnitState → UnitState → Bool
can_transition_to scrapped next = false
can_transition_to born marked = true
can_transition_to born in_process = true
can_transition_to born quarantined = true
can_transition_to born held = true
can_transition_to born scrapped = true
can_transition_to born _ = false
can_transition_to marked in_process = true
can_transition_to marked quarantined = true
can_transition_to marked held = true
can_transition_to marked scrapped = true
can_transition_to marked _ = false
can_transition_to in_process in_process = true
can_transition_to in_process completed = true
can_transition_to in_process quarantined = true
can_transition_to in_process held = true
can_transition_to in_process reworking = true
can_transition_to in_process scrapped = true
can_transition_to in_process _ = false
can_transition_to reworking in_process = true
can_transition_to reworking quarantined = true
can_transition_to reworking held = true
can_transition_to reworking scrapped = true
can_transition_to reworking _ = false
can_transition_to quarantined reworking = true
can_transition_to quarantined in_process = true
can_transition_to quarantined scrapped = true
can_transition_to quarantined held = true
can_transition_to quarantined _ = false
can_transition_to held in_process = true
can_transition_to held reworking = true
can_transition_to held quarantined = true
can_transition_to held scrapped = true
can_transition_to held _ = false
can_transition_to completed shipped = true
can_transition_to completed quarantined = true
can_transition_to completed reworking = true
can_transition_to completed scrapped = true
can_transition_to completed _ = false
can_transition_to shipped quarantined = true
can_transition_to shipped scrapped = true
can_transition_to shipped _ = false

-- The struct `Unit`, under a name that the library's one-element type leaves free.
pub record TracedUnit : Type 0 where
  pub id : RowId
  pub uid : UnitUid
  pub tenant_id : RowId
  pub plant_id : RowId
  pub product_revision_id : RowId
  pub job_card_id : RowId
  pub serial : String
  pub state : UnitState
  pub current_operation : Option OperationSeq
  pub index_in_job : ℕ

-- `self.state == UnitState::Scrapped`, the derived equality at that constant.
abbrev is_scrapped : UnitState → Bool
is_scrapped scrapped = true
is_scrapped _ = false

abbrev pub illegal_move : UnitState → UnitState → CoreError
illegal_move from next = illegal_transition (name from) (text_append "move to " (name next))

-- `uid_text` is the canonical text of a ULID, `Ulid::to_string` of the `ulid` crate.
module _ (uid_text : UnitUid → String) where
  unfoldable pub transition_to : TracedUnit → UnitState → TracedUnit × Result CoreError (Unit {0})
  unfolding can_transition_to
  transition_to u next =
      if is_scrapped u.state
      then (u, err (retired_uid (uid_text u.uid)))
      else if not (can_transition_to u.state next)
      then (u, err (illegal_move u.state next))
      else (record u { state = next }, ok tt)
