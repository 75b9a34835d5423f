-- ===== src/Polynomial.antt =====
-- crates/proof-of-sql/src/base/polynomial: vectors of the values of the Lagrange basis, sums of it,
-- interpolation, and sums of products of multilinear extensions.
pub mod Weights
pub mod EvaluationVector
pub mod Lagrange
pub mod Coefficients
pub mod Interpolate
pub mod Composite
pub mod MultilinearExtension
pub mod Tests
