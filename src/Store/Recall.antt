-- ===== src/Store/Recall.antt =====
-- `units_affected_by_lot` of crates/trace-store/src/query.rs: the units that consumed a lot, and those
-- above them in the genealogy. The order of the rows that come back, by `uid`, is left out.
pub mod Reached
use traceability.Base.{
  ℕ, zero, suc, ◌+◌, ◌≤◌, String, Bool, true, false, ◌&&◌, List, [], ◌∷◌, ◌++◌, Option, none, some,
  ◌≡◌, refl, ◌↔◌, inl, inr, ◌⊎◌, arith, ◌==◌, ==_iff, if◌then◌else◌, str_eq, str_eq_iff, any,
  filter, map, Memᴰ, Bool-cases, mem-filter, mem_of_filter, mem-map,
}
use traceability.Core.Error.{RowId, OperationSeq}
use traceability.Core.Route.{contains}
use traceability.Store.{UnitRow}

-- A row of `genealogy_link`: what went into the parent, a unit or a lot. `qty` and the instants are not read.
pub record GenealogyRow : Type 0 where
  pub parent_unit_id : RowId
  pub child_unit_id : Option RowId
  pub bom_line_id : Option RowId
  pub lot_no : Option String
  pub operation_seq : OperationSeq

-- `link_child_unit` and `link_lot`: one row each.
unfoldable pub link_child_unit :
    List GenealogyRow → (parent child : RowId) → Option RowId → OperationSeq → List GenealogyRow
link_child_unit rows parent child bom_line_id operation_seq =
    record {
      parent_unit_id = parent;
      child_unit_id = some child;
      bom_line_id = bom_line_id;
      lot_no = none;
      operation_seq = operation_seq;
    }
    ∷ rows

unfoldable pub link_lot :
    List GenealogyRow → RowId → String → Option RowId → OperationSeq → List GenealogyRow
link_lot rows parent lot_no bom_line_id operation_seq =
    record {
      parent_unit_id = parent;
      child_unit_id = none;
      bom_line_id = bom_line_id;
      lot_no = some lot_no;
      operation_seq = operation_seq;
    }
    ∷ rows

abbrev pub is_lot : String → GenealogyRow → Bool
is_lot lot_no row = elim row.lot_no [ none ↦ false | some found ↦ str_eq found lot_no ]

abbrev pub has_child : List RowId → GenealogyRow → Bool
has_child units row = elim row.child_unit_id [ none ↦ false | some child ↦ contains units child ]

module _ (rows : List GenealogyRow) where
  unfoldable pub seed : String → List RowId
  seed lot_no = map (λ (r : GenealogyRow). r.parent_unit_id) (filter (is_lot lot_no) rows)

  -- One step of the recursion: the parents of the units of the last one.
  unfoldable pub parents : List RowId → List RowId
  parents units = map (λ (r : GenealogyRow). r.parent_unit_id) (filter (has_child units) rows)

  -- `depth` counts the steps that are left.
  unfoldable pub rolled_up : ℕ → List RowId → List RowId
  rolled_up zero units = units
  rolled_up (suc depth) units = units ++ rolled_up depth (parents units)

-- `r.depth < 32`
abbrev pub max_depth : ℕ
max_depth = 32

unfoldable pub units_affected_by_lot :
    {Stamp : Type 0} → List GenealogyRow → List (UnitRow Stamp) → String → List (UnitRow Stamp)
units_affected_by_lot rows units lot_no =
    filter (λ u. contains (rolled_up rows max_depth (seed rows lot_no)) u.id) units

-- A unit that consumed the lot, or, by so many steps, a unit that one of those went into.
pub data IsAffected (rows : List GenealogyRow) (lot_no : String) : ℕ → RowId → Type 0 where
  consumed :
      {row : GenealogyRow}
      → Memᴰ row rows
      → row.lot_no ≡ some lot_no
      → IsAffected rows lot_no zero row.parent_unit_id
  went_into :
      {depth : ℕ} {child : RowId} {row : GenealogyRow}
      → IsAffected rows lot_no depth child
      → Memᴰ row rows
      → row.child_unit_id ≡ some child
      → IsAffected rows lot_no (suc depth) row.parent_unit_id
