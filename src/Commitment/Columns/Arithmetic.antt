-- ===== src/Commitment/Columns/Arithmetic.antt =====
-- `try_add` and `try_sub` on values that commit to tables.
use sxt_proof_of_sql.Shared.{ℕ, ◌+◌, ok, List, length, ◌≡◌, refl, sym, ◌∙◌, ap, ==_iff}
use sxt_proof_of_sql.Database.IndexMap.{IndexMap, DistinctKeys}
use sxt_proof_of_sql.Commitment.Metadata.{ColumnCommitmentMetadata}
use sxt_proof_of_sql.Commitment.MetadataMap.Exact.{
  Columns, SameSchema, concat_columns, DistinctKeys-concat_columns, DistinctKeys-SameSchema,
  length-SameSchema, length-zip_columns,
}
use sxt_proof_of_sql.Commitment.MetadataMap.Described.{
  try_union-DescribesColumns, try_difference-DescribesColumns_end,
  try_difference-DescribesColumns_front,
}
use sxt_proof_of_sql.Commitment.Scheme.{Scheme, IsLinear}
use sxt_proof_of_sql.Commitment.Vec
use sxt_proof_of_sql.Commitment.Vec.Linear.{add_assign_comm, sub_assign-add_assign}
use sxt_proof_of_sql.Commitment.Columns.{ColumnCommitments, try_add, try_sub}
use sxt_proof_of_sql.Commitment.Columns.FromColumns.{
  HasRows, commits, length-commits, Commits, commits-concat_columns,
}

module _ (s : Scheme) (index_map : IndexMap ColumnCommitmentMetadata) (linear : IsLinear s) where
  open s use {Point, PublicSetup}

  -- Collections of one length are added and subtracted.
  try_add-points :
      (as' bs : List Point)
      → length as' ≡ length bs
      → Vec.try_add s as' bs ≡ ok (Vec.unsafe_add_assign s as' bs)
  unfolding Vec.try_add
  try_add-points as' bs h = rw ((==_iff (length as') (length bs)).1 h)

  try_sub-points :
      (as' bs : List Point)
      → length as' ≡ length bs
      → Vec.try_sub s as' bs ≡ ok (Vec.unsafe_sub_assign s as' bs)
  unfolding Vec.try_sub
  try_sub-points as' bs h = rw ((==_iff (length as') (length bs)).1 h)

  module _ (xs ys : Columns) (n offset : ℕ) (setup : PublicSetup) (same : SameSchema xs ys)
      (rows : HasRows n xs) where
    abbrev front : List Point
    front = commits s index_map linear xs offset setup

    abbrev back : List Point
    back = commits s index_map linear ys (offset + n) setup

    abbrev whole : List Point
    whole = commits s index_map linear (concat_columns xs ys) offset setup

    length-front-back : length front ≡ length back
    length-front-back =
        length-commits s index_map linear xs offset setup
        ∙ length-SameSchema xs ys same
        ∙ sym (length-commits s index_map linear ys (offset + n) setup)

    length-whole-front : length whole ≡ length front
    length-whole-front =
        length-commits s index_map linear (concat_columns xs ys) offset setup
        ∙ length-zip_columns xs ys same
        ∙ sym (length-commits s index_map linear xs offset setup)

    sum : Vec.unsafe_add_assign s front back ≡ whole
    sum = commits-concat_columns s index_map linear xs ys n offset setup same rows

    swapped_sum : Vec.unsafe_add_assign s back front ≡ whole
    swapped_sum = sym (add_assign_comm s linear front back length-front-back) ∙ sum

    without_back : Vec.unsafe_sub_assign s whole back ≡ front
    without_back =
        ap (λ w. Vec.unsafe_sub_assign s w back) (sym sum)
        ∙ sub_assign-add_assign s linear front back length-front-back

    without_front : Vec.unsafe_sub_assign s whole front ≡ back
    without_front =
        ap (λ w. Vec.unsafe_sub_assign s w front) (sym swapped_sum)
        ∙ sub_assign-add_assign s linear back front (sym length-front-back)

    add_points : Vec.try_add s front back ≡ ok whole
    add_points = try_add-points front back length-front-back ∙ ap ok sum

    add_swapped_points : Vec.try_add s back front ≡ ok whole
    add_swapped_points = try_add-points back front (sym length-front-back) ∙ ap ok swapped_sum

    sub_back_points : Vec.try_sub s whole back ≡ ok front
    sub_back_points =
        try_sub-points whole back (length-whole-front ∙ length-front-back) ∙ ap ok without_back

    sub_front_points : Vec.try_sub s whole front ≡ ok back
    sub_front_points = try_sub-points whole front length-whole-front ∙ ap ok without_front

    abbrev IsFront : ColumnCommitments s index_map → Type 0
    IsFront cc = Commits s index_map linear cc xs offset setup

    abbrev IsBack : ColumnCommitments s index_map → Type 0
    IsBack cc = Commits s index_map linear cc ys (offset + n) setup

    abbrev IsWhole : ColumnCommitments s index_map → Type 0
    IsWhole cc = Commits s index_map linear cc (concat_columns xs ys) offset setup

    -- Adding the commitments to two stretches of rows that meet, in either order, gives the
    -- commitment to all of the rows.
    pub try_add-concat_columns :
        (a b : ColumnCommitments s index_map)
        → IsFront a
        → IsBack b
        → (r : ColumnCommitments s index_map) × (try_add s index_map a b ≡ ok r)
          × (try_add s index_map b a ≡ ok r)
          × IsWhole r
    unfolding try_add
    try_add-concat_columns a b p q =
        let (m, u, v, d) =
          try_union-DescribesColumns index_map a.column_metadata b.column_metadata xs ys same
            p.distinct p.described q.described in
        (
          record { commitments = whole; column_metadata = m },
          rw (u, p.committed, q.committed, add_points),
          rw (v, p.committed, q.committed, add_swapped_points),
          record {
            committed = refl;
            described = d;
            distinct = DistinctKeys-concat_columns xs ys same p.distinct;
          },
        )

    -- Subtracting the commitment to the last rows leaves that to the first ones.
    pub try_sub-concat_columns_end :
        (a b : ColumnCommitments s index_map)
        → DistinctKeys xs
        → IsWhole a
        → IsBack b
        → (r : ColumnCommitments s index_map) × (try_sub s index_map a b ≡ ok r) × IsFront r
    unfolding try_sub
    try_sub-concat_columns_end a b distinct p q =
        let (m, u, d) =
          try_difference-DescribesColumns_end index_map a.column_metadata b.column_metadata xs ys
            same distinct p.described q.described in
        (
          record { commitments = front; column_metadata = m },
          rw (u, p.committed, q.committed, sub_back_points),
          record { committed = refl; described = d; distinct = distinct },
        )

    -- Subtracting the commitment to the first rows leaves that to the last ones.
    pub try_sub-concat_columns_front :
        (a b : ColumnCommitments s index_map)
        → DistinctKeys xs
        → IsWhole a
        → IsFront b
        → (r : ColumnCommitments s index_map) × (try_sub s index_map a b ≡ ok r) × IsBack r
    unfolding try_sub
    try_sub-concat_columns_front a b distinct p q =
        let (m, u, d) =
          try_difference-DescribesColumns_front index_map a.column_metadata b.column_metadata xs ys
            same distinct p.described q.described in
        (
          record { commitments = back; column_metadata = m },
          rw (u, p.committed, q.committed, sub_front_points),
          record {
            committed = refl;
            described = d;
            distinct = DistinctKeys-SameSchema xs ys same distinct;
          },
        )
