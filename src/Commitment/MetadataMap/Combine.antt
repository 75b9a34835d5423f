-- ===== src/Commitment/MetadataMap/Combine.antt =====
-- `try_union` and `try_difference` of metadata maps: they never panic on valid maps, and succeed
-- exactly where the columns have the same identifiers and types in the same order.
use sxt_proof_of_sql.Shared.{
  suc, Result, ok, err, ◌>>=◌, false, ◌==◌, List, [], ◌∷◌, All, ◌≡◌, refl, ap, length, ◌⊎◌, inl,
  inr, arith, Bool-cases,
}
use sxt_proof_of_sql.Database.Names.{Identifier, identifier_eq, identifier_beq, identifier_beq_iff}
use sxt_proof_of_sql.Database.IndexMap.{IndexMap, has_key, DistinctKeys}
use sxt_proof_of_sql.Commitment.Metadata
use sxt_proof_of_sql.Commitment.Metadata.{
  ColumnCommitmentMetadata, ColumnCommitmentMetadataMismatch, metadata_mismatch,
}
use sxt_proof_of_sql.Commitment.Metadata.Sound.{
  Outcome, metadata_union-Outcome, metadata_difference-Outcome,
}
use sxt_proof_of_sql.Commitment.MetadataMap.{
  ColumnCommitmentsMismatch, mismatched_identifier, num_columns, column_commitment_metadata, Entry,
  zip_entries, try_union, try_difference,
}

abbrev pub ValidEntries : List Entry → Type 0
ValidEntries = All (λ e. Metadata.IsValid e.1)

-- The same identifiers and types in the same order.
abbrev pub SameColumns : List Entry → List Entry → Type 0
SameColumns [] [] = Unit
SameColumns ((i, a) ∷ xs) ((j, b) ∷ ys) =
    (i ≡ j) × (a.column_type ≡ b.column_type) × SameColumns xs ys
SameColumns _ _ = ⊥

pub has_key-SameColumns :
    (k : Identifier) (xs ys : List Entry) → SameColumns xs ys → has_key k xs ≡ has_key k ys
has_key-SameColumns k [] [] h = refl
has_key-SameColumns k [] (y ∷ ys) h = absurd h
has_key-SameColumns k (x ∷ xs) [] h = absurd h
has_key-SameColumns k ((i, a) ∷ xs) ((j, b) ∷ ys) h = rw (h.0, has_key-SameColumns k xs ys h.2)

pub DistinctKeys-SameColumns :
    (xs ys : List Entry) → SameColumns xs ys → DistinctKeys ys → DistinctKeys xs
DistinctKeys-SameColumns [] [] h d = tt
DistinctKeys-SameColumns [] (y ∷ ys) h d = absurd h
DistinctKeys-SameColumns (x ∷ xs) [] h d = absurd h
DistinctKeys-SameColumns ((i, a) ∷ xs) ((j, b) ∷ ys) h d =
    (rw (h.0, has_key-SameColumns j xs ys h.2) d.0, DistinctKeys-SameColumns xs ys h.2 d.1)

pub length-SameColumns : (xs ys : List Entry) → SameColumns xs ys → length xs ≡ length ys
length-SameColumns [] [] h = refl
length-SameColumns [] (y ∷ ys) h = absurd h
length-SameColumns (x ∷ xs) [] h = absurd h
length-SameColumns ((i, a) ∷ xs) ((j, b) ∷ ys) h = ap suc (length-SameColumns xs ys h.2)

-- What a combination of two lists of entries gives: valid entries for the columns of the first
-- where the columns agree, and an error where they do not.
abbrev pub Combined :
    {M : Type 0}
    → (M → List Entry)
    → List Entry
    → List Entry
    → Result ColumnCommitmentsMismatch M
    → Type 0
Combined {M} view xs ys result =
    (SameColumns xs ys
      × ((m : M) × (result ≡ ok m) × SameColumns (view m) xs × ValidEntries (view m)))
    ⊎ (¬ SameColumns xs ys × ((e : ColumnCommitmentsMismatch) × (result ≡ err e)))

module _
    (op : ColumnCommitmentMetadata
      → ColumnCommitmentMetadata
      → Result ColumnCommitmentMetadataMismatch ColumnCommitmentMetadata)
    (op_outcome : (a b : ColumnCommitmentMetadata)
      → Metadata.IsValid a
      → Metadata.IsValid b
      → Outcome a b (op a b)) where
  zip_entries_outcome :
      (xs ys : List Entry)
      → length xs ≡ length ys
      → ValidEntries xs
      → ValidEntries ys
      → Combined (λ es. es) xs ys (zip_entries op xs ys)
  unfolding zip_entries
  zip_entries_outcome [] [] h vx vy = inl (tt, ([], refl, tt, tt))
  zip_entries_outcome [] (y ∷ ys) h vx vy = absurd (omega arith)
  zip_entries_outcome (x ∷ xs) [] h vx vy = absurd (omega arith)
  zip_entries_outcome ((i, a) ∷ xs) ((j, b) ∷ ys) h vx vy = elim (Bool-cases (identifier_beq i j)) [
    | inr e ↦
        inr (λ s. cc ((identifier_beq_iff i j).1 s.0), (mismatched_identifier i.name j.name, rw e))
    | inl e ↦ elim (op_outcome a b vx.0 vy.0) [
      | inr (differ, p) ↦ inr (
        λ s. differ s.1,
        (column_commitment_metadata (metadata_mismatch a.column_type b.column_type), rw (e, p)),
      )
      | inl (same, (r, p, t, v)) ↦ elim (zip_entries_outcome xs ys (omega arith) vx.1 vy.1) [
        | inl (s, (es, q, u, w)) ↦ inl (
          ((identifier_beq_iff i j).0 e, same, s),
          ((i, r) ∷ es, rw (e, p, q), (refl, t, u), (v, w)),
        )
        | inr (differ, (x, q)) ↦ inr (λ s. differ s.2, (x, rw (e, p, q)))
      ]
    ]
  ]

module _ (index_map : IndexMap ColumnCommitmentMetadata) where
  open index_map use {Map, entries, len, collect, entries_distinct, len_entries, collect_entries}

  -- Outcome for maps, from that for their entries.
  collect_outcome :
      (a b : Map) (r : Result ColumnCommitmentsMismatch (List Entry))
      → Combined (λ es. es) (entries a) (entries b) r
      → Combined entries (entries a) (entries b) (do es ← r; ok (collect es))
  collect_outcome a b r (inl (s, (es, p, t, v))) =
      let kept : entries (collect es) ≡ es =
        collect_entries es (DistinctKeys-SameColumns es (entries a) t (entries_distinct a)) in
      inl (s, (collect es, rw p, rw kept t, rw kept v))
  collect_outcome a b r (inr (differ, (e, p))) = inr (differ, (e, rw p))

  num_columns_differ :
      (a b : Map) → (len a == len b) ≡ false → ¬ SameColumns (entries a) (entries b)
  num_columns_differ a b e s =
      ground (arith, len_entries a, len_entries b, length-SameColumns (entries a) (entries b) s)

  -- On valid maps `try_union` never panics. It succeeds exactly where the columns of the two maps
  -- have the same identifiers and types in the same order, and then the map that it returns is
  -- valid and has those columns.
  pub try_union_outcome :
      (a b : Map)
      → ValidEntries (entries a)
      → ValidEntries (entries b)
      → Combined entries (entries a) (entries b) (try_union index_map a b)
  unfolding try_union
  try_union_outcome a b va vb = elim (Bool-cases (len a == len b)) [
    | inl e ↦ rw e (
        collect_outcome a b _ (
          zip_entries_outcome Metadata.try_union metadata_union-Outcome (entries a) (entries b)
            (ground (arith, len_entries a, len_entries b)) va vb))
    | inr e ↦ inr (num_columns_differ a b e, (num_columns, rw e))
  ]

  -- On valid maps `try_difference` never panics. It succeeds exactly where the columns of the two maps
  -- have the same identifiers and types in the same order, and then the map that it returns is
  -- valid and has those columns.
  pub try_difference_outcome :
      (a b : Map)
      → ValidEntries (entries a)
      → ValidEntries (entries b)
      → Combined entries (entries a) (entries b) (try_difference index_map a b)
  unfolding try_difference
  try_difference_outcome a b va vb = elim (Bool-cases (len a == len b)) [
    | inl e ↦ rw e (
        collect_outcome a b _ (
          zip_entries_outcome Metadata.try_difference metadata_difference-Outcome (entries a)
            (entries b) (ground (arith, len_entries a, len_entries b)) va vb))
    | inr e ↦ inr (num_columns_differ a b e, (num_columns, rw e))
  ]
