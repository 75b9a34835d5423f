-- ===== src/Lib.antt =====
-- Proof of SQL: the sumcheck and its polynomials, what a verifier keeps during a proof, commitments to
-- tables, and the variable-length encoding of numbers.
--
-- The program proves the results of SQL queries. A verifier keeps, for each table, a commitment to
-- each of its columns with metadata about the column; it updates them when rows or columns are added,
-- adds them up and subtracts them, and hands them to the checker of a proof. A proof of a query states
-- its constraints as a composite polynomial over the rows that adds up to a known sum; the sumcheck
-- reduces that to the value of the polynomial at one point, which the verifier puts together from the
-- evaluations in the proof with a verification builder. The development models commitments
-- (crates/proof-of-sql/src/base/commitment), the types of names and columns that they use
-- (base/database), polynomials (base/polynomial), the sumcheck (proof_primitive/sumcheck), parts of a
-- proof (sql/proof), batch inversion (base/slice_ops), and the encoding of numbers (base/encode).
-- Paths below are under crates/proof-of-sql/src.
--
-- Shared: what the other modules share. `Result` has a third outcome, `panic`, for an `expect`, an
-- `unwrap`, an assertion or an index that fails.
--
-- Scalar: the trait `Scalar` (base/scalar/mod.rs) as a record of the operations of a field and its laws,
-- with finite sums, naturals in the field, and the field of five elements for runs.
--
-- Polynomial, over any field:
--   Weights                       the values of the Lagrange basis, by the bits of an index
--   EvaluationVector              evaluation_vector.rs
--   Lagrange                      lagrange_basis_evaluation.rs: truncated sums and inner products
--   Coefficients, Interpolate     interpolate.rs: the value of a polynomial from its samples
--   Composite                     composite_polynomial.rs: sums of products of shared vectors
--   MultilinearExtension          multilinear_extension.rs: a slice by its address and its entries
-- Loops are recursion on the slice, the coordinates or the number of rounds left, so no fuel is needed.
-- A shift `1 << n` is the power, exact: the tables of that size are in memory.
--
-- Sumcheck: Prover (prover_state.rs and prover_round.rs), Protocol (proof.rs and subclaim.rs). A
-- transcript of the crate `merlin` is a parameter, a type with the three operations used, of which
-- nothing is asked. Round, Values, Fixing and Complete follow the prover through its rounds; Accepts and
-- Rejects draw the conclusions for the verifier. A parallel map is a map and a parallel reduction a sum
-- in the order of the index.
--
-- Proof: Indexes (indexes.rs), MleEvaluations (sumcheck_mle_evaluations.rs and
-- sumcheck_random_scalars.rs), VerificationBuilder (verification_builder.rs), whose operations may come
-- in any order: `Step` and `Run`; CompositePolynomialBuilder (composite_polynomial_builder.rs and
-- sumcheck_subpolynomial.rs), with Represents, Shares, Produces, Composes and Makes on the products
-- that it shares and adds up, and ProofBuilder (proof_builder.rs). A new vector gets the next address, since the
-- builder keeps those that it shares.
--
-- SliceOps: BatchInverse (batch_inverse.rs), for any number of threads.
--
-- Database: identifiers, table references, column types (crates/proof-of-sql-parser/src/identifier.rs
-- and resource_id.rs, base/database/table_ref.rs and column.rs), the accessor traits (accessor.rs),
-- and the third-party `IndexMap` as a record of operations and laws, with an instance.
--
-- Commitment, from the bottom up:
--   Bounds, ColumnBounds          column_bounds.rs: exact or estimated minimum and maximum
--   CommittableColumn             committable_column.rs: the data that is committed to
--   Metadata                      column_commitment_metadata.rs: type and bounds of one column
--   MetadataMap                   column_commitment_metadata_map.rs: metadata of all columns
--   Scheme, Vec                   a commitment scheme (a parameter) and vec_commitment_ext.rs
--   Columns                       column_commitments.rs: commitments with metadata
--   Table                         table_commitment.rs: column commitments and a range of rows
--   Query                         query_commitments.rs: the tables of a query, by their names
-- A method that takes `&mut self` returns the new value; on an error the receiver is as it was. What
-- a value means is stated by the rows it stands for: `Describes` for bounds, `DescribesColumn` for
-- metadata, `IsExact` and `Commits` for column commitments, `IsExactTable` and `CommitsTable` for
-- tables. The scheme is linear (`IsLinear`): a column's commitment at an offset is the sum of those of
-- its parts. `usize` sums wrap at 2 ^ 64.
--
-- Encode: Varint, ZigZag and Sized (varint_trait.rs), U256 (u256.rs and scalar_varint.rs), Scalar
-- (zigzag.rs, over the field of the ark_ff crate, a parameter). Groups states the format by itself: a
-- list of bytes and its value. The writers recurse on the bytes of the slice and the readers on those
-- that are left, so no fuel is needed; `bit_length` and `leading_zeros` count within the width of the
-- word.
--
-- Not modelled: parsing and type checking of queries, proof plans, the proof of a query as a whole,
-- decimals, bit distributions, result transformations, the curves of the commitment schemes, arrow
-- conversions.
pub mod Shared
pub mod Scalar
pub mod Polynomial
pub mod Sumcheck
pub mod Proof
pub mod SliceOps
pub mod Database
pub mod Commitment
pub mod Encode
