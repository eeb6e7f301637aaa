-- ===== src/Core/Config.antt =====
-- crates/trace-core/src/config.rs: the configuration that the engine reads. A `BTreeSet<RowId>` is only
-- asked whether it contains an id, so it stands as the list of its members.
use traceability.Base.{ℕ, String, Bool, List, Option, find?, str_eq}
use traceability.Core.Error.{RowId}
use traceability.Core.Route.{contains}

pub record Station : Type 0 where
  pub id : RowId
  pub line_id : RowId
  pub code : String
  pub name : String
  pub operations : List RowId
  pub active : Bool

unfoldable pub can_perform : Station → RowId → Bool
can_perform s operation_def_id = contains s.operations operation_def_id

pub data MarkMethod : Type 0 where
  laser_dpm label both no_mark : MarkMethod

pub data Material : Type 0 where
  aluminium plastic steel pcb other : Material

-- `min_mark_grade` is a `char`, by its code point.
pub record ProductRevision : Type 0 where
  pub id : RowId
  pub product_id : RowId
  pub revision : String
  pub material : Material
  pub mark_method : MarkMethod
  pub min_mark_grade : Option ℕ
  pub active : Bool

pub record Operator : Type 0 where
  pub id : RowId
  pub tenant_id : RowId
  pub username : String
  pub display_name : String
  pub certifications : List RowId
  pub active : Bool

unfoldable pub is_certified_for : Operator → RowId → Bool
is_certified_for op skill_id = contains op.certifications skill_id

pub data TrackingMode : Type 0 where
  serialised lot_tracked non_tracked : TrackingMode

-- `qty` is an `f64` that the code never reads.
pub record BomLine (F : Type 0) : Type 0 where
  pub id : RowId
  pub position : String
  pub part_no : String
  pub qty : F
  pub tracking : TrackingMode

pub record Bom (F : Type 0) : Type 0 where
  pub id : RowId
  pub product_revision_id : RowId
  pub revision : String
  pub lines : List (BomLine F)

unfoldable pub line_for_part : {F : Type 0} → Bom F → String → Option (BomLine F)
line_for_part bom part_no = find? (λ l. str_eq l.part_no part_no) bom.lines
