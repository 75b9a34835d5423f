-- ===== src/Commitment/Metadata/Sound.antt =====
-- Union and difference of metadata: when they fail, that they never panic, and what they say of
-- the columns.
use sxt_proof_of_sql.Shared.{
  Result, ok, err, >>=-eq-ok, expect-eq-ok, true, false, ◌≡◌, ◌≢◌, refl, sym, ◌∙◌, arith,
  Bool-cases, inl, inr, ◌⊎◌, subst,
}
use sxt_proof_of_sql.Shared.Int.{int_ord}
use sxt_proof_of_sql.Database.ColumnType.{ColumnType, column_type_beq, column_type_beq_iff}
use sxt_proof_of_sql.Commitment.CommittableColumn.{
  CommittableColumn, column_type, concat, column_type-concat,
}
use sxt_proof_of_sql.Commitment.Bounds
use sxt_proof_of_sql.Commitment.ColumnBounds
use sxt_proof_of_sql.Commitment.ColumnBounds.{ColumnBounds}
use sxt_proof_of_sql.Commitment.ColumnBounds.Sound.{
  exact_of, from_column-exact, try_union-exact_of,
  try_union-DescribesColumn as bounds_union-Describes,
  try_difference-DescribesColumn_end as bounds_difference-Describes_end,
  try_difference-DescribesColumn_front as bounds_difference-Describes_front,
  try_union_comm as bounds_union_comm,
}
use sxt_proof_of_sql.Commitment.Metadata.{
  ColumnCommitmentMetadata, ColumnCommitmentMetadataMismatch, metadata_mismatch, fits, from_column,
  try_union, try_difference, IsValid, DescribesColumn,
}

-- Bounds of the variant for one type have a union, and it is of that variant: the `expect` in
-- `try_union` holds.
fits-try_union :
    (t : ColumnType) (a b : ColumnBounds)
    → fits t a ≡ true
    → fits t b ≡ true
    → (r : ColumnBounds) × (ColumnBounds.try_union a b ≡ ok r) × (fits t r ≡ true)
unfolding ColumnBounds.try_union
fits-try_union ColumnType.small_int (ColumnBounds.small_int a) (ColumnBounds.small_int b) h k =
    (ColumnBounds.small_int (Bounds.union a b), refl, refl)
fits-try_union ColumnType.int (ColumnBounds.int a) (ColumnBounds.int b) h k =
    (ColumnBounds.int (Bounds.union a b), refl, refl)
fits-try_union ColumnType.big_int (ColumnBounds.big_int a) (ColumnBounds.big_int b) h k =
    (ColumnBounds.big_int (Bounds.union a b), refl, refl)
fits-try_union ColumnType.int128 (ColumnBounds.int128 a) (ColumnBounds.int128 b) h k =
    (ColumnBounds.int128 (Bounds.union a b), refl, refl)
fits-try_union ColumnType.boolean ColumnBounds.no_order ColumnBounds.no_order h k =
    (ColumnBounds.no_order, refl, refl)
fits-try_union ColumnType.varchar ColumnBounds.no_order ColumnBounds.no_order h k =
    (ColumnBounds.no_order, refl, refl)
fits-try_union ColumnType.scalar ColumnBounds.no_order ColumnBounds.no_order h k =
    (ColumnBounds.no_order, refl, refl)
fits-try_union (ColumnType.decimal75 p s) ColumnBounds.no_order ColumnBounds.no_order h k =
    (ColumnBounds.no_order, refl, refl)
fits-try_union _ _ _ h k = ground arith

-- Bounds of the variant for one type have a difference, and it is of that variant: the `expect` in
-- `try_difference` holds.
fits-try_difference :
    (t : ColumnType) (a b : ColumnBounds)
    → fits t a ≡ true
    → fits t b ≡ true
    → (r : ColumnBounds) × (ColumnBounds.try_difference a b ≡ ok r) × (fits t r ≡ true)
unfolding ColumnBounds.try_difference
fits-try_difference ColumnType.small_int (ColumnBounds.small_int a) (ColumnBounds.small_int b) h k =
    (ColumnBounds.small_int (Bounds.difference a b), refl, refl)
fits-try_difference ColumnType.int (ColumnBounds.int a) (ColumnBounds.int b) h k =
    (ColumnBounds.int (Bounds.difference a b), refl, refl)
fits-try_difference ColumnType.big_int (ColumnBounds.big_int a) (ColumnBounds.big_int b) h k =
    (ColumnBounds.big_int (Bounds.difference a b), refl, refl)
fits-try_difference ColumnType.int128 (ColumnBounds.int128 a) (ColumnBounds.int128 b) h k =
    (ColumnBounds.int128 (Bounds.difference a b), refl, refl)
fits-try_difference ColumnType.boolean ColumnBounds.no_order ColumnBounds.no_order h k =
    (ColumnBounds.no_order, refl, refl)
fits-try_difference ColumnType.varchar ColumnBounds.no_order ColumnBounds.no_order h k =
    (ColumnBounds.no_order, refl, refl)
fits-try_difference ColumnType.scalar ColumnBounds.no_order ColumnBounds.no_order h k =
    (ColumnBounds.no_order, refl, refl)
fits-try_difference (ColumnType.decimal75 p s) ColumnBounds.no_order ColumnBounds.no_order h k =
    (ColumnBounds.no_order, refl, refl)
fits-try_difference _ _ _ h k = ground arith

-- `r` is a valid value for the type of `a`, which is also that of `b`; or the types differ, and
-- the error names them.
abbrev pub Outcome :
    (a b : ColumnCommitmentMetadata)
    → Result ColumnCommitmentMetadataMismatch ColumnCommitmentMetadata
    → Type 0
Outcome a b result =
    ((a.column_type ≡ b.column_type)
      × ((r : ColumnCommitmentMetadata) × (result ≡ ok r)
          × (r.column_type ≡ a.column_type)
          × IsValid r))
    ⊎ ((a.column_type ≢ b.column_type)
        × (result ≡ err (metadata_mismatch a.column_type b.column_type)))

types-differ : (s t : ColumnType) → column_type_beq s t ≡ false → s ≢ t
types-differ s t h e = cc ((column_type_beq_iff s t).1 e)

-- On valid metadata `try_union` never panics: it returns valid metadata of the common type
-- where the two types are equal, and the mismatch error with both types where they are not.
pub metadata_union-Outcome :
    (a b : ColumnCommitmentMetadata) → IsValid a → IsValid b → Outcome a b (try_union a b)
unfolding try_union
metadata_union-Outcome a b va vb = elim (Bool-cases (column_type_beq a.column_type b.column_type)) [
  | inl e ↦
      let same = (column_type_beq_iff a.column_type b.column_type).0 e in
      let (r, p, q) =
        fits-try_union a.column_type a.bounds b.bounds va
          (subst (λ t. fits t b.bounds ≡ true) (sym same) vb) in
      inl (same, (record { column_type = a.column_type; bounds = r }, rw (e, p), refl, q))
  | inr e ↦ inr (types-differ a.column_type b.column_type e, rw e)
]

-- On valid metadata `try_difference` never panics: it returns valid metadata of the common type
-- where the two types are equal, and the mismatch error with both types where they are not.
pub metadata_difference-Outcome :
    (a b : ColumnCommitmentMetadata) → IsValid a → IsValid b → Outcome a b (try_difference a b)
unfolding try_difference
metadata_difference-Outcome a b va vb =
    elim (Bool-cases (column_type_beq a.column_type b.column_type)) [
      | inl e ↦
          let same = (column_type_beq_iff a.column_type b.column_type).0 e in
          let (r, p, q) =
            fits-try_difference a.column_type a.bounds b.bounds va
              (subst (λ t. fits t b.bounds ≡ true) (sym same) vb) in
          inl (same, (record { column_type = a.column_type; bounds = r }, rw (e, p), refl, q))
      | inr e ↦ inr (types-differ a.column_type b.column_type e, rw e)
    ]

pub from_column_lem {ε} :
    {E : Type ε} (c : CommittableColumn)
    → from_column {E = E} c ≡ ok (record { column_type = column_type c; bounds = exact_of c })
unfolding from_column
from_column_lem {E} c = rw (from_column-exact {E = E} c)

-- `from_column` is exact on the rows of two columns together: it is the union of the metadata.
pub try_union-from_column :
    (c d : CommittableColumn)
    → column_type c ≡ column_type d
    → try_union
        (record { column_type = column_type c; bounds = exact_of c })
        (record { column_type = column_type d; bounds = exact_of d })
      ≡ ok (record { column_type = column_type (concat c d); bounds = exact_of (concat c d) })
unfolding try_union
try_union-from_column c d h =
    rw ((column_type_beq_iff (column_type c) (column_type d)).1 h, try_union-exact_of c d h)
      (rw (column_type-concat c d))

-- Metadata that describes two columns unites to metadata that describes their rows together.
pub try_union-DescribesColumn :
    (a b : ColumnCommitmentMetadata) (c d : CommittableColumn)
    → DescribesColumn a c
    → DescribesColumn b d
    → column_type c ≡ column_type d
    → (r : ColumnCommitmentMetadata) × (try_union a b ≡ ok r) × DescribesColumn r (concat c d)
unfolding try_union
try_union-DescribesColumn a b c d h k e =
    let (r, p, q) = bounds_union-Describes a.bounds b.bounds c d h.1 k.1 e in
    (
      record { column_type = a.column_type; bounds = r },
      rw ((column_type_beq_iff a.column_type b.column_type).1 (h.0 ∙ e ∙ sym k.0), p),
      (h.0 ∙ sym (column_type-concat c d), q),
    )

-- Where the rows of `d` are the last ones of a column, the difference describes the other rows.
pub try_difference-DescribesColumn_end :
    (a b : ColumnCommitmentMetadata) (rest d : CommittableColumn)
    → DescribesColumn a (concat rest d)
    → DescribesColumn b d
    → column_type rest ≡ column_type d
    → (r : ColumnCommitmentMetadata) × (try_difference a b ≡ ok r) × DescribesColumn r rest
unfolding try_difference
try_difference-DescribesColumn_end a b rest d h k e =
    let (r, p, q) = bounds_difference-Describes_end a.bounds b.bounds rest d h.1 k.1 e in
    let same : a.column_type ≡ column_type rest = h.0 ∙ column_type-concat rest d in
    (
      record { column_type = a.column_type; bounds = r },
      rw ((column_type_beq_iff a.column_type b.column_type).1 (same ∙ e ∙ sym k.0), p),
      (same, q),
    )

-- Where the rows of `d` are the first ones of a column, the difference describes the other rows.
pub try_difference-DescribesColumn_front :
    (a b : ColumnCommitmentMetadata) (rest d : CommittableColumn)
    → DescribesColumn a (concat d rest)
    → DescribesColumn b d
    → column_type rest ≡ column_type d
    → (r : ColumnCommitmentMetadata) × (try_difference a b ≡ ok r) × DescribesColumn r rest
unfolding try_difference
try_difference-DescribesColumn_front a b rest d h k e =
    let (r, p, q) = bounds_difference-Describes_front a.bounds b.bounds rest d h.1 k.1 e in
    let same : a.column_type ≡ column_type rest = h.0 ∙ column_type-concat d rest ∙ sym e in
    (
      record { column_type = a.column_type; bounds = r },
      rw ((column_type_beq_iff a.column_type b.column_type).1 (same ∙ e ∙ sym k.0), p),
      (same, q),
    )

pub try_union_comm :
    (a b : ColumnCommitmentMetadata) {r : ColumnCommitmentMetadata}
    → try_union a b ≡ ok r
    → try_union b a ≡ ok r
unfolding try_union
try_union_comm a b h = elim (Bool-cases (column_type_beq a.column_type b.column_type)) [
  | inl e ↦
      let same = (column_type_beq_iff a.column_type b.column_type).0 e in
      let (bounds, p, q) = >>=-eq-ok _ _ (rw e at h) in
      let swapped = bounds_union_comm a.bounds b.bounds (expect-eq-ok _ _ p) in
      rw ((column_type_beq_iff b.column_type a.column_type).1 (sym same), swapped)
        ((λ i. ok (record { column_type = sym same i; bounds = bounds })) ∙ q)
  | inr e ↦ cc (rw e at h)
]
