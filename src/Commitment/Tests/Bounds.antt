-- ===== src/Commitment/Tests/Bounds.antt =====
-- The theorems about bounds and metadata at small collections.
use sxt_proof_of_sql.Shared.{ℕ, ok, true, ◌&&◌, ◌≡◌, refl, List, [], ◌∷◌, ◌++◌, arith}
use sxt_proof_of_sql.Shared.Int.{ℤ, pos, negsuc, int_ord, int_eq}
use sxt_proof_of_sql.Database.ColumnType.{ColumnType}
use sxt_proof_of_sql.Commitment.CommittableColumn.{CommittableColumn, big_int, column_type}
use sxt_proof_of_sql.Commitment.Bounds.{
  Bounds, BoundsInner, sharp, bounded, from_iter, union, union_inner, min_of, max_of, difference,
  Describes, is_exact, IsWithin,
}
use sxt_proof_of_sql.Commitment.Bounds.FromIter.{exact, span, exact-Describes, from_iter-Describes}
use sxt_proof_of_sql.Commitment.Bounds.Union.{union-Describes_both}
use sxt_proof_of_sql.Commitment.Bounds.Difference.{minus, difference-minus}
use sxt_proof_of_sql.Commitment.ColumnBounds
use sxt_proof_of_sql.Commitment.Metadata
use sxt_proof_of_sql.Commitment.Metadata.{
  ColumnCommitmentMetadata, DescribesColumn, from_column_type_with_max_bounds,
}
use sxt_proof_of_sql.Commitment.Metadata.MaxBounds.{
  from_column_type_with_max_bounds-DescribesColumn,
}

abbrev first_values : List ℤ
first_values = pos 3 ∷ negsuc 1 ∷ pos 7 ∷ []

abbrev second_values : List ℤ
second_values = pos 9 ∷ pos 8 ∷ []

from_iter-Describes_example :
    (b : Bounds ℤ) × (from_iter {E = ℕ} first_values ≡ ok b)
    × Describes b first_values
    × (is_exact b ≡ true)
from_iter-Describes_example = from_iter-Describes {E = ℕ} first_values

abbrev wide_range : BoundsInner ℤ
wide_range = record { min = negsuc 9; max = pos 20 }

first_values-IsWithin : IsWithin wide_range (exact first_values)
unfolding exact span union_inner min_of max_of
first_values-IsWithin = (refl, refl)

second_values-IsWithin : IsWithin wide_range (exact second_values)
unfolding exact span union_inner min_of max_of
second_values-IsWithin = (refl, refl)

union-Describes_both_example :
    Describes (union (exact first_values) (exact second_values)) (first_values ++ second_values)
    × (is_exact (union (exact first_values) (exact second_values))
        ≡ (is_exact (exact first_values) && is_exact (exact second_values)))
    × IsWithin wide_range (union (exact first_values) (exact second_values))
union-Describes_both_example =
    union-Describes_both (exact first_values) (exact second_values) first_values second_values
      wide_range (exact-Describes first_values) (exact-Describes second_values)
      first_values-IsWithin second_values-IsWithin

difference-minus_example :
    Describes
      (difference (exact first_values) (exact second_values))
      (minus first_values second_values)
difference-minus_example =
    difference-minus (exact first_values) (exact second_values) first_values second_values
      (exact-Describes first_values) (exact-Describes second_values)

abbrev low_range : Bounds ℤ
low_range = sharp (record { min = pos 1; max = pos 4 })

abbrev high_range : Bounds ℤ
high_range = bounded (record { min = pos 3; max = pos 8 })

abbrev big_int_metadata : ColumnCommitmentMetadata
big_int_metadata = record {
  column_type = ColumnType.big_int;
  bounds = ColumnBounds.big_int low_range;
}

abbrev varchar_metadata : ColumnCommitmentMetadata
varchar_metadata = record { column_type = ColumnType.varchar; bounds = ColumnBounds.no_order }

abbrev some_column : CommittableColumn
some_column = big_int (pos 3 ∷ negsuc 1 ∷ [])

from_column_type_with_max_bounds-DescribesColumn_example :
    (m : ColumnCommitmentMetadata) × (from_column_type_with_max_bounds {E = ℕ}
        (column_type some_column)
      ≡ ok m)
    × DescribesColumn m some_column
    × Metadata.IsValid m
from_column_type_with_max_bounds-DescribesColumn_example =
    from_column_type_with_max_bounds-DescribesColumn {E = ℕ} some_column
      ((omega arith, omega arith), ((omega arith, omega arith), tt))
