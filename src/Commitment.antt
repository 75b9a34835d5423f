-- ===== src/Commitment.antt =====
-- crates/proof-of-sql/src/base/commitment: commitments to columns and tables, with metadata.
pub mod Bounds
pub mod CommittableColumn
pub mod ColumnBounds
pub mod Metadata
pub mod MetadataMap
pub mod Scheme
pub mod Vec
pub mod Columns
pub mod Table
pub mod Query
mod Tests
