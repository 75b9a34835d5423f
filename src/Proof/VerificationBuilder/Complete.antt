-- ===== src/Proof/VerificationBuilder/Complete.antt =====
-- What crates/proof-of-sql/src/sql/proof/verification_builder.rs hands on once it is complete.
use sxt_proof_of_sql.Scalar.{Scalar}
use sxt_proof_of_sql.Proof.VerificationBuilder.{VerificationBuilder}
