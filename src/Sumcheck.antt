-- ===== src/Sumcheck.antt =====
-- crates/proof-of-sql/src/proof_primitive/sumcheck: the proof that a sum of products of multilinear
-- extensions, over all rows, has a claimed value.
pub mod Prover
pub mod Protocol
pub mod Tables
pub mod Round
pub mod Values
pub mod Fixing
pub mod Complete
pub mod Evaluation
pub mod Accepts
pub mod Rejects
pub mod Tests
