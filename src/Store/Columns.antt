-- ===== src/Store/Columns.antt =====
-- How a measured value stands in its row (crates/trace-store/src/repo.rs): `append_measurement` splits it
-- into columns, `value_from_columns` reads them back.
use traceability.Base.{
  String, Bool, Option, none, some, Result, ok, err, ◌≡◌, refl, if◌then◌else◌, str_eq,
}
use traceability.Core.Dcp.{Value, numeric, text, boolean, barcode}
use traceability.Store.{StoreError, decode}

-- `datatype`, `num_value`, `text_value` and `bool_value`.
pub record Columns (F : Type 0) : Type 0 where
  pub datatype : String
  pub num : Option F
  pub shown : Option String
  pub truth : Option Bool

module _ {F : Type 0} where
  unfoldable pub columns_of : Value F → Columns F
  columns_of (numeric n) = record { datatype = "NUMERIC"; num = some n; shown = none; truth = none }
  columns_of (text s) = record { datatype = "TEXT"; num = none; shown = some s; truth = none }
  columns_of (boolean b) = record { datatype = "BOOLEAN"; num = none; shown = none; truth = some b }
  columns_of (barcode s) = record { datatype = "BARCODE"; num = none; shown = some s; truth = none }

  -- `ok_or_else(|| missing(field))`, inside the constructor of the value.
  abbrev pub required :
      {A : Type 0} → String → Option A → (A → Value F) → Result StoreError (Value F)
  required field none make = err (decode "measurement" field "null column")
  required field (some found) make = ok (make found)

  unfoldable pub value_from_columns : Columns F → Result StoreError (Value F)
  value_from_columns c =
      if str_eq c.datatype "NUMERIC"
      then required "num_value" c.num numeric
      else if str_eq c.datatype "TEXT"
      then required "text_value" c.shown text
      else if str_eq c.datatype "BOOLEAN"
      then required "bool_value" c.truth boolean
      else if str_eq c.datatype "BARCODE"
      then required "text_value" c.shown barcode
      else err (decode "measurement" "datatype" c.datatype)

  -- A value that is written to its columns is read back as it was.
  pub value_from_columns-columns_of :
      (value : Value F) → value_from_columns (columns_of value) ≡ ok value
  unfolding value_from_columns columns_of
  value_from_columns-columns_of (numeric n) = refl
  value_from_columns-columns_of (text s) = refl
  value_from_columns-columns_of (boolean b) = refl
  value_from_columns-columns_of (barcode s) = refl
