-- ===== src/Database.antt =====
-- crates/proof-of-sql/src/base/database and base/math: the data model of a table.
pub mod Names
pub mod Decimal
pub mod ColumnType
pub mod IndexMap
pub mod Accessor
