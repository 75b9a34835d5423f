-- ===== src/SliceOps.antt =====
-- crates/proof-of-sql/src/base/slice_ops, other than the inner product.
pub mod BatchInverse
pub mod Tests
