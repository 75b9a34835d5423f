-- ===== src/Database/Accessor.antt =====
-- crates/proof-of-sql/src/base/database/accessor.rs: the traits `MetadataAccessor` and
-- `CommitmentAccessor`, which the code takes as arguments.
use sxt_proof_of_sql.Shared.{ℕ}
use sxt_proof_of_sql.Database.Names.{TableRef}
use sxt_proof_of_sql.Database.ColumnType.{ColumnRef}

pub record CommitmentAccessor (Point : Type 0) : Type 0 where
  pub get_length : TableRef → ℕ
  pub get_offset : TableRef → ℕ
  pub get_commitment : ColumnRef → Point
