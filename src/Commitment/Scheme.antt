-- ===== src/Commitment/Scheme.antt =====
-- crates/proof-of-sql/src/base/commitment/mod.rs, the trait `Commitment`: the operations that the
-- collections of commitments use, and what they rely on.
use sxt_proof_of_sql.Shared.{ℕ, ◌+◌, List, length, map, ◌≡◌}
use sxt_proof_of_sql.Commitment.CommittableColumn.{CommittableColumn, column_type, concat, len}

pub record Scheme : Type 1 where
  pub Point : Type 0
  pub PublicSetup : Type 0
  pub default : Point
  pub add : Point → Point → Point
  pub sub : Point → Point → Point
  -- The slice of commitments is overwritten; the value is the new slice.
  pub compute_commitments : List Point → List CommittableColumn → ℕ → PublicSetup → List Point

-- A scheme that is linear in the rows, as a Pedersen commitment is: each column has a commitment of
-- its own, and rows that follow others are committed to with the generators that follow theirs.
pub record IsLinear (s : Scheme) : Type 1 where
  pub commit : CommittableColumn → ℕ → s.PublicSetup → s.Point
  pub computes :
      (out : List s.Point) (columns : List CommittableColumn) (offset : ℕ) (setup : s.PublicSetup)
      → length out ≡ length columns
      → s.compute_commitments out columns offset setup ≡ map (λ c. commit c offset setup) columns
  pub commit-concat :
      (c d : CommittableColumn) (offset : ℕ) (setup : s.PublicSetup)
      → column_type c ≡ column_type d
      → commit (concat c d) offset setup
        ≡ s.add (commit c offset setup) (commit d (offset + len c) setup)
  pub add_comm : (a b : s.Point) → s.add a b ≡ s.add b a
  pub sub-add : (a b : s.Point) → s.sub (s.add a b) b ≡ a
