-- ===== src/Proof.antt =====
-- crates/proof-of-sql/src/sql/proof: what a verifier keeps while it goes over a query.
pub mod Indexes
pub mod MleEvaluations
pub mod VerificationBuilder
pub mod CompositePolynomialBuilder
pub mod ProofBuilder
pub mod Tests
