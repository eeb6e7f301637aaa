-- ===== src/Core/Dcp.antt =====
-- crates/trace-core/src/dcp.rs: data collection points, their limits, sampling and evaluation. `f64`
-- and its comparison are a parameter; `>=` and `<=` are both `le`, with the sides as the code has them.
pub mod Verdicts
use traceability.Base.{
  ℕ, zero, suc, ◌%◌, String, Bool, true, false, not, ◌&&◌, ◌||◌, Option, none, some, Result, ok,
  err, ◌==◌, if◌then◌else◌,
}
use traceability.Core.Error.{RowId, CoreError, value_type_mismatch}

-- What the code uses of `f64`: `a <= b`, `is_nan` and the text of `{:?}`.
pub record Float64 (F : Type 0) : Type 0 where
  pub le : F → F → Bool
  pub is_nan : F → Bool
  pub debug_text : F → String

pub data DataType : Type 0 where
  numeric_type text_type boolean_type barcode_type : DataType

unfoldable pub type_name : DataType → String
type_name numeric_type = "NUMERIC"
type_name text_type = "TEXT"
type_name boolean_type = "BOOLEAN"
type_name barcode_type = "BARCODE"

pub data Value (F : Type 0) : Type 0 where
  numeric : F → Value F
  text : String → Value F
  boolean : Bool → Value F
  barcode : String → Value F

unfoldable pub datatype : {F : Type 0} → Value F → DataType
datatype (numeric n) = numeric_type
datatype (text s) = text_type
datatype (boolean b) = boolean_type
datatype (barcode s) = barcode_type

unfoldable pub canonical : {F : Type 0} → Float64 F → Value F → String
canonical f (numeric n) = f.debug_text n
canonical f (text s) = s
canonical f (boolean true) = "true"
canonical f (boolean false) = "false"
canonical f (barcode s) = s

pub record Limits (F : Type 0) : Type 0 where
  pub min : Option F
  pub max : Option F
  pub nominal : Option F

-- `Option::is_none_or`
abbrev pub is_none_or : {F : Type 0} → Option F → (F → Bool) → Bool
is_none_or none p = true
is_none_or (some m) p = p m

abbrev is_some : {F : Type 0} → Option F → Bool
is_some none = false
is_some (some m) = true

unfoldable pub accepts : {F : Type 0} → Float64 F → Limits F → F → Bool
accepts f l v =
    if f.is_nan v
    then false
    else is_none_or l.min (λ m. f.le m v) && is_none_or l.max (λ m. f.le v m)

unfoldable pub is_bounded : {F : Type 0} → Limits F → Bool
is_bounded l = is_some l.min || is_some l.max

abbrev coherent : {F : Type 0} → Float64 F → Option F → Option F → Bool
coherent f (some a) (some b) = f.le a b
coherent f _ _ = true

unfoldable pub is_coherent : {F : Type 0} → Float64 F → Limits F → Bool
is_coherent f l = coherent f l.min l.max

pub data SampleRule : Type 0 where
  every first_off : SampleRule
  every_nth : (n : ℕ) → SampleRule

unfoldable pub applies_to : SampleRule → ℕ → Bool
applies_to every unit_index_in_job = true
applies_to first_off unit_index_in_job = unit_index_in_job == 0
applies_to (every_nth zero) unit_index_in_job = true
applies_to (every_nth (suc n)) unit_index_in_job = unit_index_in_job % suc n == 0

pub record DataCollectionPoint (F : Type 0) : Type 0 where
  pub id : RowId
  pub name : String
  pub label : String
  pub unit : Option String
  pub datatype : DataType
  pub limits : Limits F
  pub sample_rule : SampleRule
  pub mandatory : Bool
  pub device_id : Option RowId

pub data Verdict : Type 0 where
  pass fail : Verdict

-- The derived equality of `DataType`.
abbrev same_type : DataType → DataType → Bool
same_type numeric_type numeric_type = true
same_type text_type text_type = true
same_type boolean_type boolean_type = true
same_type barcode_type barcode_type = true
same_type _ _ = false

-- `match value { Value::Numeric(n) if self.limits.is_bounded() => …, _ => Pass }`
abbrev judge : {F : Type 0} → Float64 F → Limits F → Value F → Verdict
judge f l (numeric n) = if is_bounded l then (if accepts f l n then pass else fail) else pass
judge f l _ = pass

unfoldable pub evaluate :
    {F : Type 0} → Float64 F → DataCollectionPoint F → Value F → Result CoreError Verdict
unfolding datatype is_bounded accepts
evaluate f d value =
    if not (same_type (datatype value) d.datatype)
    then err (value_type_mismatch (canonical f value) (type_name d.datatype))
    else ok (judge f d.limits value)
