-- ===== src/Commitment/MetadataMap/Described.antt =====
-- Union and difference of maps that describe tables.
use sxt_proof_of_sql.Shared.{
  ok, >>=-eq-ok, map_err-eq-ok, true, ◌==◌, List, [], ◌∷◌, length, ◌≡◌, sym, ◌∙◌, ap, subst, arith,
  Bool-cases, inl, inr,
}
use sxt_proof_of_sql.Database.Names.{identifier_eq, identifier_beq, identifier_beq_iff}
use sxt_proof_of_sql.Database.IndexMap.{IndexMap, DistinctKeys}
use sxt_proof_of_sql.Commitment.Metadata
use sxt_proof_of_sql.Commitment.Metadata.{ColumnCommitmentMetadata}
use sxt_proof_of_sql.Commitment.Metadata.Sound.{try_union_comm}
use sxt_proof_of_sql.Commitment.MetadataMap.{
  Entry, zip_entries, try_union, try_difference, column_commitment_metadata,
}
use sxt_proof_of_sql.Commitment.MetadataMap.Exact.{
  Columns, SameSchema, SameSchema-sym, concat_columns, zip_columns_swap, DescribesColumns,
  zip_union-DescribesColumns, zip_difference-DescribesColumns_end,
  zip_difference-DescribesColumns_front, length-DescribesColumns, length-SameSchema,
  length-zip_columns, DistinctKeys-DescribesColumns, DistinctKeys-concat_columns,
  DistinctKeys-SameSchema,
}

-- Where the union of entries exists, that in the other order is the same.
zip_union_comm :
    (es fs : List Entry) {gs : List Entry}
    → length es ≡ length fs
    → zip_entries Metadata.try_union es fs ≡ ok gs
    → zip_entries Metadata.try_union fs es ≡ ok gs
unfolding zip_entries
zip_union_comm [] [] l h = h
zip_union_comm [] (f ∷ fs) l h = absurd (omega arith)
zip_union_comm (e ∷ es) [] l h = absurd (omega arith)
zip_union_comm ((i, a) ∷ es) ((j, b) ∷ fs) l h = elim (Bool-cases (identifier_beq i j)) [
  | inr e ↦ cc (rw e at h)
  | inl e ↦
      let same : i ≡ j = (identifier_beq_iff i j).0 e in
      let (entry, p, q) = >>=-eq-ok _ _ (rw e at h) in
      let (metadata, p₁, p₂) = >>=-eq-ok _ _ p in
      let (rest, q₁, q₂) = >>=-eq-ok _ _ q in
      let swapped = try_union_comm a b (map_err-eq-ok column_commitment_metadata _ p₁) in
      let swapped_rest = zip_union_comm es fs (omega arith) q₁ in
      rw ((identifier_beq_iff j i).1 (sym same), swapped, swapped_rest)
        (ap (λ k. ok ((k, metadata) ∷ rest)) (sym same) ∙ cc)
]

module _ (index_map : IndexMap ColumnCommitmentMetadata) where
  open index_map use {Map, entries, len, collect, len_entries, collect_entries}

  same_len :
      (m n : Map) (xs ys : Columns)
      → DescribesColumns (entries m) xs
      → DescribesColumns (entries n) ys
      → length xs ≡ length ys
      → (len m == len n) ≡ true
  same_len m n xs ys p q h = ground (
    arith,
    len_entries m,
    len_entries n,
    length-DescribesColumns (entries m) xs p,
    length-DescribesColumns (entries n) ys q,
  )

  -- A map made from entries that describe a table describes it.
  collected :
      (es : List Entry) (columns : Columns)
      → DescribesColumns es columns
      → DistinctKeys columns
      → DescribesColumns (entries (collect es)) columns
  collected es columns p d =
      rw (collect_entries es (DistinctKeys-DescribesColumns es columns p d)) p

  -- The union of maps for `xs` and for `ys`, in either order, describes the rows of `xs` followed
  -- by those of `ys`.
  pub try_union-DescribesColumns :
      (m n : Map) (xs ys : Columns)
      → SameSchema xs ys
      → DistinctKeys xs
      → DescribesColumns (entries m) xs
      → DescribesColumns (entries n) ys
      → (r : Map) × (try_union index_map m n ≡ ok r)
        × (try_union index_map n m ≡ ok r)
        × DescribesColumns (entries r) (concat_columns xs ys)
  unfolding try_union
  try_union-DescribesColumns m n xs ys h d p q =
      let (es, e, r) = zip_union-DescribesColumns xs ys (entries m) (entries n) h p q in
      let lengths = length-SameSchema xs ys h in
      let entry_lengths =
        length-DescribesColumns (entries m) xs p
        ∙ lengths
        ∙ sym (length-DescribesColumns (entries n) ys q) in
      (
        collect es,
        rw (same_len m n xs ys p q lengths, e),
        rw (
          same_len n m ys xs q p (sym lengths),
          zip_union_comm (entries m) (entries n) entry_lengths e,
        ),
        collected es (concat_columns xs ys) r (DistinctKeys-concat_columns xs ys h d),
      )

  -- The difference describes what is left when the last rows, or the first ones, are taken off.
  pub try_difference-DescribesColumns_end :
      (m n : Map) (xs ys : Columns)
      → SameSchema xs ys
      → DistinctKeys xs
      → DescribesColumns (entries m) (concat_columns xs ys)
      → DescribesColumns (entries n) ys
      → (r : Map) × (try_difference index_map m n ≡ ok r) × DescribesColumns (entries r) xs
  unfolding try_difference
  try_difference-DescribesColumns_end m n xs ys h d p q =
      let (es, e, r) = zip_difference-DescribesColumns_end xs ys (entries m) (entries n) h p q in
      let lengths = length-zip_columns xs ys h ∙ length-SameSchema xs ys h in
      (collect es, rw (same_len m n (concat_columns xs ys) ys p q lengths, e), collected es xs r d)

  pub try_difference-DescribesColumns_front :
      (m n : Map) (xs ys : Columns)
      → SameSchema xs ys
      → DistinctKeys xs
      → DescribesColumns (entries m) (concat_columns xs ys)
      → DescribesColumns (entries n) xs
      → (r : Map) × (try_difference index_map m n ≡ ok r) × DescribesColumns (entries r) ys
  unfolding try_difference
  try_difference-DescribesColumns_front m n xs ys h d p q =
      let (es, e, r) =
        zip_difference-DescribesColumns_front ys xs (entries m) (entries n) (SameSchema-sym xs ys h)
          (subst (DescribesColumns (entries m)) (sym (zip_columns_swap xs ys h)) p) q in
      (
        collect es,
        rw (same_len m n (concat_columns xs ys) xs p q (length-zip_columns xs ys h), e),
        collected es ys r (DistinctKeys-SameSchema xs ys h d),
      )
