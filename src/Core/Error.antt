-- ===== src/Core/Error.antt =====
-- crates/trace-core/src/error.rs, and the id types of crates/trace-core/src/id.rs. A message that the
-- code formats stands as its template (the constructor) with the values put into it.
use traceability.Base.{ℕ, List, String}

-- An `i64` surrogate key. It is only compared for equality, so it stands as a number.
abbrev pub RowId : Type 0
RowId = ℕ

-- The 128-bit value of a ULID.
abbrev pub UnitUid : Type 0
UnitUid = ℕ

-- `u32`, a position within a route.
abbrev pub OperationSeq : Type 0
OperationSeq = ℕ

-- The texts that `Route::validate` and `assert_acyclic` put into `InvalidRoute`.
pub data RouteProblem : Type 0 where
  no_operations no_entry_operation : RouteProblem
  duplicate_seq : (seq : OperationSeq) → RouteProblem
  self_predecessor : (seq : OperationSeq) → RouteProblem
  unknown_predecessor : (seq predecessor : OperationSeq) → RouteProblem
  cycle_detected : (stuck : List OperationSeq) → RouteProblem

-- What is shown as expected or found in a broken chain: a hash, or "{n} payloads".
pub data Shown : Type 0 where
  hash : (bytes : List ℕ) → Shown
  payloads : (count : ℕ) → Shown

pub data CoreError : Type 0 where
  malformed_id : (text : String) → CoreError
  invalid_route : (problem : RouteProblem) → CoreError
  illegal_transition : (from action : String) → CoreError
  retired_uid : (uid : String) → CoreError
  station_cannot_serve : (station : String) → CoreError
  value_type_mismatch : (value datatype : String) → CoreError
  hash_chain_broken : (seq : ℕ) → (expected found : Shown) → CoreError
