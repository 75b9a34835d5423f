-- ===== src/Commitment/Vec.antt =====
-- crates/proof-of-sql/src/base/commitment/vec_commitment_ext.rs: `VecCommitmentExt` for
-- `Vec<C: Commitment>`.
pub mod Linear
use sxt_proof_of_sql.Shared.{
  ℕ, Result, ok, err, panic, ◌>>=◌, Bool, not, ◌==◌, List, [], ◌∷◌, ◌++◌, length, replicate,
  get_elem?, Option, some, none, if◌then◌else◌, expect_some,
}
use sxt_proof_of_sql.Commitment.CommittableColumn.{CommittableColumn}
use sxt_proof_of_sql.Commitment.Scheme.{Scheme}

pub data NumColumnsMismatch : Type 0 where
  num_columns_mismatch : NumColumnsMismatch

module _ (s : Scheme) where
  open s use {Point, PublicSetup, default, add, sub, compute_commitments}

  -- The loops go over the shorter of the two slices and leave the rest of the first as it is.
  unfoldable pub unsafe_add_assign : List Point → List Point → List Point
  unsafe_add_assign (a ∷ as') (b ∷ bs) = add a b ∷ unsafe_add_assign as' bs
  unsafe_add_assign as' _ = as'

  unfoldable pub unsafe_sub_assign : List Point → List Point → List Point
  unsafe_sub_assign (a ∷ as') (b ∷ bs) = sub a b ∷ unsafe_sub_assign as' bs
  unsafe_sub_assign as' _ = as'

  unfoldable pub from_commitable_columns_with_offset :
      List CommittableColumn → ℕ → PublicSetup → List Point
  from_commitable_columns_with_offset columns offset setup =
      compute_commitments (replicate (length columns) default) columns offset setup

  unfoldable pub from_columns_with_offset : List CommittableColumn → ℕ → PublicSetup → List Point
  unfolding from_commitable_columns_with_offset
  from_columns_with_offset columns offset setup =
      from_commitable_columns_with_offset columns offset setup

  unfoldable pub try_append_rows_with_offset :
      List Point → List CommittableColumn → ℕ → PublicSetup → Result NumColumnsMismatch (List Point)
  try_append_rows_with_offset commitments columns offset setup =
      if not (length commitments == length columns)
      then err num_columns_mismatch
      else ok
          (unsafe_add_assign commitments (from_commitable_columns_with_offset columns offset setup))

  unfoldable pub extend_columns_with_offset :
      List Point → List CommittableColumn → ℕ → PublicSetup → List Point
  extend_columns_with_offset commitments columns offset setup =
      commitments ++ from_columns_with_offset columns offset setup

  unfoldable pub try_add : List Point → List Point → Result NumColumnsMismatch (List Point)
  try_add commitments other =
      if not (length commitments == length other)
      then err num_columns_mismatch
      else ok (unsafe_add_assign commitments other)

  unfoldable pub try_sub : List Point → List Point → Result NumColumnsMismatch (List Point)
  try_sub commitments other =
      if not (length commitments == length other)
      then err num_columns_mismatch
      else ok (unsafe_sub_assign commitments other)

  unfoldable pub num_commitments : List Point → ℕ
  num_commitments commitments = length commitments

  unfoldable pub to_decompressed : List Point → Option (List Point)
  to_decompressed commitments = some commitments

  -- `Some(self[i])`: an index out of bounds panics.
  unfoldable pub get_decompressed_commitment {ε} :
      {E : Type ε} → List Point → ℕ → Result E (Option Point)
  get_decompressed_commitment commitments i = do
    c ← expect_some (get_elem? commitments i)
    ok (some c)
