-- ===== src/Commitment/Columns/Unique.antt =====
-- The duplicate checks of `ColumnCommitments`.
use sxt_proof_of_sql.Shared.{
  Result, ok, err, true, false, List, [], ◌∷◌, ◌++◌, All, equal, ◌≡◌, refl, ◌⊎◌, inl, inr,
  Bool-cases, arith,
}
use sxt_proof_of_sql.Database.Names.{Identifier, identifier_eq, identifier_beq_iff}
use sxt_proof_of_sql.Database.IndexMap.{IndexMap, has_key, DistinctKeys}
use sxt_proof_of_sql.Database.IndexMap.Keys.{identifier_beq_sym, has_key-append}
use sxt_proof_of_sql.Commitment.CommittableColumn.{CommittableColumn}
use sxt_proof_of_sql.Commitment.Metadata.{ColumnCommitmentMetadata}
use sxt_proof_of_sql.Commitment.MetadataMap.Exact.{Columns}
use sxt_proof_of_sql.Commitment.Scheme.{Scheme}
use sxt_proof_of_sql.Commitment.Columns.{
  DuplicateIdentifiers, duplicate_identifiers, seen_before, check_unique, check_new,
}

abbrev Unseen : List Identifier → Columns → Type 0
Unseen seen = All (λ e. seen_before e.0 seen ≡ false)

Unseen-has_key :
    (i : Identifier) (seen : List Identifier) (columns : Columns)
    → Unseen (i ∷ seen) columns
    → (has_key i columns ≡ false) × Unseen seen columns
Unseen-has_key i seen [] h = (refl, tt)
Unseen-has_key i seen ((j, c) ∷ columns) h =
    let (absent, rest) = Unseen-has_key i seen columns h.1 in
    (ground (arith, identifier_beq_sym j i), (ground arith, rest))

has_key-Unseen :
    (i : Identifier) (seen : List Identifier) (columns : Columns)
    → has_key i columns ≡ false
    → Unseen seen columns
    → Unseen (i ∷ seen) columns
has_key-Unseen i seen [] h k = tt
has_key-Unseen i seen ((j, c) ∷ columns) h k =
    (ground (arith, identifier_beq_sym i j), has_key-Unseen i seen columns (ground arith) k.1)

-- The columns are passed on if they are fine; else the error names one of them.
abbrev pub Checked : Type 0 → Columns → Result DuplicateIdentifiers Columns → Type 0
Checked fine columns result =
    (fine × (result ≡ ok columns))
    ⊎ (¬ fine
        × ((i : Identifier) × (result ≡ err (duplicate_identifiers i.name))
            × (has_key i columns ≡ true)))

-- The identifier stands at two places.
abbrev pub IsRepeated : Identifier → Columns → Type 0
IsRepeated i [] = ⊥
IsRepeated i ((j, c) ∷ columns) = ((i ≡ j) × (has_key i columns ≡ true)) ⊎ IsRepeated i columns

-- The columns are passed on if no identifier repeats; else the error names one that does, or that
-- was seen before.
abbrev CheckedUnique :
    List Identifier → Type 0 → Columns → Result DuplicateIdentifiers Columns → Type 0
CheckedUnique seen fine columns result =
    (fine × (result ≡ ok columns))
    ⊎ (¬ fine
        × ((i : Identifier) × (result ≡ err (duplicate_identifiers i.name))
            × (((seen_before i seen ≡ true) × (has_key i columns ≡ true)) ⊎ IsRepeated i columns)))

-- One that repeats after `i`, or is `i`, or was seen before `i`.
at_first_or_later :
    (i j : Identifier) (c : CommittableColumn) (seen : List Identifier) (columns : Columns)
    → ((seen_before j (i ∷ seen) ≡ true) × (has_key j columns ≡ true)) ⊎ IsRepeated j columns
    → ((seen_before j seen ≡ true) × (has_key j ((i, c) ∷ columns) ≡ true))
      ⊎ IsRepeated j ((i, c) ∷ columns)
at_first_or_later i j c seen columns (inr repeated) = inr (inr repeated)
at_first_or_later i j c seen columns (inl (before, later)) = elim (Bool-cases (equal j i)) [
  | inl same ↦ inr (inl ((identifier_beq_iff j i).0 same, later))
  | inr other ↦ inl (rw other at before, ground arith)
]

check_unique_seen :
    (seen : List Identifier) (columns : Columns)
    → CheckedUnique seen
        (DistinctKeys columns × Unseen seen columns)
        columns
        (check_unique seen columns)
unfolding check_unique
check_unique_seen seen [] = inl ((tt, tt), refl)
check_unique_seen seen ((i, c) ∷ columns) = elim (Bool-cases (seen_before i seen)) [
  | inl e ↦
      inr (λ h. cc (h.1.0), (i, rw e, inl (e, ground (arith, (identifier_beq_iff i i).1 refl))))
  | inr e ↦ elim (check_unique_seen (i ∷ seen) columns) [
    | inl ((distinct, unseen), p) ↦
        let (absent, rest) = Unseen-has_key i seen columns unseen in
        inl (((absent, distinct), (e, rest)), rw (e, p))
    | inr (bad, (j, p, q)) ↦ inr (
      λ h. bad (h.0.1, has_key-Unseen i seen columns h.0.0 h.1.1),
      (j, rw (e, p), at_first_or_later i j c seen columns q),
    )
  ]
]

All_nil : (columns : Columns) → Unseen [] columns
All_nil [] = tt
All_nil (e ∷ columns) = (refl, All_nil columns)

-- The check passes exactly where the identifiers are distinct; else the error names one that repeats.
pub check_unique_cases :
    (columns : Columns)
    → (DistinctKeys columns × (check_unique [] columns ≡ ok columns))
      ⊎ (¬ DistinctKeys columns
          × ((i : Identifier) × (check_unique [] columns ≡ err (duplicate_identifiers i.name))
              × IsRepeated i columns))
check_unique_cases columns = elim (check_unique_seen [] columns) [
  | inl (h, p) ↦ inl (h.0, p)
  | inr (bad, (i, p, inr repeated)) ↦ inr (λ h. bad (h, All_nil columns), (i, p, repeated))
  | inr (bad, (i, p, inl (before, later))) ↦ absurd (cc before)
]

pub IsRepeated-has_key :
    (i : Identifier) (columns : Columns) → IsRepeated i columns → has_key i columns ≡ true
IsRepeated-has_key i [] h = elim h [ ]
IsRepeated-has_key i ((j, c) ∷ columns) (inl (same, later)) = ground (arith, later)
IsRepeated-has_key i ((j, c) ∷ columns) (inr repeated) =
    ground (arith, IsRepeated-has_key i columns repeated)

-- No identifier of `columns` is in `entries`.
abbrev pub Absent : {V : Type 0} → List (Identifier × V) → Columns → Type 0
Absent entries = All (λ e. has_key e.0 entries ≡ false)

module _ {V : Type 0} where
  Absent-cons :
      (i : Identifier) (v : V) (xs ys : List (Identifier × V))
      → All (λ e. has_key e.0 ((i, v) ∷ xs) ≡ false) ys
      → (has_key i ys ≡ false) × All (λ e. has_key e.0 xs ≡ false) ys
  Absent-cons i v xs [] h = (refl, tt)
  Absent-cons i v xs ((j, w) ∷ ys) h =
      let (absent, rest) = Absent-cons i v xs ys h.1 in
      (ground (arith, identifier_beq_sym j i), (ground arith, rest))

  pub DistinctKeys-append :
      (xs ys : List (Identifier × V))
      → DistinctKeys xs
      → DistinctKeys ys
      → All (λ e. has_key e.0 xs ≡ false) ys
      → DistinctKeys (xs ++ ys)
  DistinctKeys-append [] ys h k a = k
  DistinctKeys-append ((i, v) ∷ xs) ys h k a =
      let (absent, rest) = Absent-cons i v xs ys a in
      (ground (arith, has_key-append i xs ys), DistinctKeys-append xs ys h.1 k rest)

  Absent-cons_of :
      (i : Identifier) (v : V) (xs ys : List (Identifier × V))
      → has_key i ys ≡ false
      → All (λ e. has_key e.0 xs ≡ false) ys
      → All (λ e. has_key e.0 ((i, v) ∷ xs) ≡ false) ys
  Absent-cons_of i v xs [] h k = tt
  Absent-cons_of i v xs ((j, w) ∷ ys) h k =
      (ground (arith, identifier_beq_sym i j), Absent-cons_of i v xs ys (ground arith) k.1)

  pub DistinctKeys-Absent :
      (xs ys : List (Identifier × V))
      → DistinctKeys (xs ++ ys)
      → All (λ e. has_key e.0 xs ≡ false) ys
  DistinctKeys-Absent [] ys h = All_all ys
    where
      All_all : (zs : List (Identifier × V)) → All (λ e. false ≡ false) zs
      All_all [] = tt
      All_all (z ∷ zs) = (refl, All_all zs)
  DistinctKeys-Absent ((i, v) ∷ xs) ys h =
      Absent-cons_of i v xs ys (ground (arith, has_key-append i xs ys))
        (DistinctKeys-Absent xs ys h.1)

module _ (s : Scheme) (index_map : IndexMap ColumnCommitmentMetadata) where
  pub check_new_cases :
      (present : index_map.Map) (columns : Columns)
      → Checked
          (Absent (index_map.entries present) columns)
          columns
          (check_new s index_map present columns)
  unfolding check_new
  check_new_cases present [] = inl (tt, refl)
  check_new_cases present ((i, c) ∷ columns) =
      elim (Bool-cases (index_map.contains_key present i)) [
        | inl e ↦ inr (
          λ h. cc (index_map.contains_key_entries present i, h.0),
          (i, rw e, ground (arith, (identifier_beq_iff i i).1 refl)),
        )
        | inr e ↦ elim (check_new_cases present columns) [
          | inl (h, p) ↦ inl ((cc (index_map.contains_key_entries present i), h), rw (e, p))
          | inr (bad, (j, p, q)) ↦ inr (λ h. bad h.1, (j, rw (e, p), ground arith))
        ]
      ]

pub check_unique_ok :
    (columns : Columns) → DistinctKeys columns → check_unique [] columns ≡ ok columns
check_unique_ok columns h = elim (check_unique_cases columns) [
  | inl (g, p) ↦ p
  | inr (bad, found) ↦ absurd (bad h)
]
