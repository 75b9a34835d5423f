-- ===== src/Commitment/Query/FromAccessor.antt =====
-- The accessor that `from_accessor_with_max_bounds` makes agrees with the one it is made from.
use sxt_proof_of_sql.Shared.{
  ◌+◌, ◌<◌, ok, some, true, leb, List, [], ◌∷◌, ◌++◌, map, All, Contains, ◌≡◌, refl, sym, ◌∙◌, ap,
  subst, ◌⊎◌, inl, inr, arith, Bool-cases,
}
use sxt_proof_of_sql.Database.Names.{TableRef, table_ref_eq, table_ref_beq, table_ref_beq_iff}
use sxt_proof_of_sql.Database.ColumnType.{ColumnType, ColumnRef, ColumnField}
use sxt_proof_of_sql.Database.IndexMap.{IndexMap}
use sxt_proof_of_sql.Database.Accessor.{CommitmentAccessor}
use sxt_proof_of_sql.Commitment.Bounds
use sxt_proof_of_sql.Commitment.Metadata
use sxt_proof_of_sql.Commitment.Metadata.{ColumnCommitmentMetadata}
use sxt_proof_of_sql.Commitment.MetadataMap
use sxt_proof_of_sql.Commitment.MetadataMap.{Entry, field_entries}
use sxt_proof_of_sql.Commitment.Scheme.{Scheme}
use sxt_proof_of_sql.Commitment.Columns
use sxt_proof_of_sql.Commitment.Columns.{ColumnCommitments}
use sxt_proof_of_sql.Commitment.Table
use sxt_proof_of_sql.Commitment.Table.{TableCommitment, usize_mod, usize_add, range_len}
use sxt_proof_of_sql.Commitment.Query
use sxt_proof_of_sql.Commitment.Query.{get, push_column, table_columns}

max_bounds_ok {ε} :
    {E : Type ε} (t : ColumnType)
    → (m : ColumnCommitmentMetadata) × (Metadata.from_column_type_with_max_bounds {E = E} t ≡ ok m)
unfolding Metadata.from_column_type_with_max_bounds Bounds.try_new
max_bounds_ok ColumnType.small_int = (_, refl)
max_bounds_ok ColumnType.int = (_, refl)
max_bounds_ok ColumnType.big_int = (_, refl)
max_bounds_ok ColumnType.int128 = (_, refl)
max_bounds_ok ColumnType.boolean = (_, refl)
max_bounds_ok ColumnType.varchar = (_, refl)
max_bounds_ok ColumnType.scalar = (_, refl)
max_bounds_ok (ColumnType.decimal75 p s) = (_, refl)

field_entries_ok {ε} :
    {E : Type ε} (fields : List ColumnField)
    → (entries : List Entry) × (field_entries {E = E} fields ≡ ok entries)
unfolding field_entries
field_entries_ok [] = ([], refl)
field_entries_ok {E} (f ∷ fields) =
    let (m, p) = max_bounds_ok {E = E} f.data_type in
    let (entries, q) = field_entries_ok {E = E} fields in ((f.name, m) ∷ entries, rw (p, q) refl)

-- The keys of the grouped columns are the tables of the columns.
abbrev Has : {V : Type 0} → TableRef → List (TableRef × V) → Type 0
Has {V} k l = (v : V) × (get k l ≡ some v)

push_column-Has :
    (k : TableRef) (f : ColumnField) (l : List (TableRef × List ColumnField))
    → Has k (push_column k f l)
unfolding push_column get
push_column-Has k f [] = (f ∷ [], rw ((table_ref_beq_iff k k).1 refl) refl)
push_column-Has k f ((t, columns) ∷ l) = elim (Bool-cases (table_ref_beq t k)) [
  | inl e ↦ (columns ++ f ∷ [], rw (e, e) refl)
  | inr e ↦ let (v, p) = push_column-Has k f l in (v, rw (e, e) p)
]

push_column-Has_other :
    (j k : TableRef) (f : ColumnField) (l : List (TableRef × List ColumnField))
    → Has j l
    → Has j (push_column k f l)
unfolding push_column get
push_column-Has_other j k f [] h = cc (h.1)
push_column-Has_other j k f ((t, columns) ∷ l) (v, h) = elim (Bool-cases (table_ref_beq t j)) [
  | inl e ↦ elim (Bool-cases (table_ref_beq t k)) [
    | inl d ↦ (columns ++ f ∷ [], rw (d, e) refl)
    | inr d ↦ (columns, rw (d, e) refl)
  ]
  | inr e ↦ elim (Bool-cases (table_ref_beq t k)) [
    | inl d ↦ (v, rw (d, e) (rw e at h))
    | inr d ↦ let (u, p) = push_column-Has_other j k f l (v, (rw e at h)) in (u, rw (d, e) p)
  ]
]

push_column-All :
    (P : TableRef → Type 0) (k : TableRef) (f : ColumnField)
    (l : List (TableRef × List ColumnField))
    → P k
    → All (λ e. P e.0) l
    → All (λ e. P e.0) (push_column k f l)
unfolding push_column
push_column-All P k f [] h a = (h, tt)
push_column-All P k f ((t, columns) ∷ l) h a = elim (Bool-cases (table_ref_beq t k)) [
  | inl e ↦ rw e a
  | inr e ↦ rw e (a.0, push_column-All P k f l h a.1)
]

abbrev grown : List (TableRef × List ColumnField) → ColumnRef → List (TableRef × List ColumnField)
grown acc c = push_column c.table_ref (record { name = c.column_id; data_type = c.column_type }) acc

table_columns-Has :
    (columns : List ColumnRef) (acc : List (TableRef × List ColumnField)) (k : TableRef)
    → Has k acc ⊎ ((r : ColumnRef) × (r.table_ref ≡ k) × Contains r columns)
    → Has k (table_columns acc columns)
unfolding table_columns
table_columns-Has [] acc k (inl h) = h
table_columns-Has [] acc k (inr (r, e, m)) = absurd m
table_columns-Has (c ∷ columns) acc k (inl h) =
    table_columns-Has columns (grown acc c) k (inl (push_column-Has_other k c.table_ref _ acc h))
table_columns-Has (c ∷ columns) acc k (inr (r, e, inr m)) =
    table_columns-Has columns (grown acc c) k (inr (r, e, m))
table_columns-Has (c ∷ columns) acc k (inr (r, e, inl m)) =
    table_columns-Has columns (grown acc c) k (
      inl (
        subst (λ u. Has u (grown acc c)) (ap (λ (x : ColumnRef). x.table_ref) (sym m) ∙ e)
          (push_column-Has c.table_ref _ acc)))

table_columns-All :
    (P : TableRef → Type 0) (columns : List ColumnRef) (acc : List (TableRef × List ColumnField))
    → All (λ e. P e.0) acc
    → All (λ (r : ColumnRef). P r.table_ref) columns
    → All (λ e. P e.0) (table_columns acc columns)
unfolding table_columns
table_columns-All P [] acc a h = a
table_columns-All P (c ∷ columns) acc a h =
    table_columns-All P columns (grown acc c) (push_column-All P c.table_ref _ acc h.0 a) h.1

-- The accessor's rows of a table end within `usize`.
abbrev pub Fits : {P : Type 0} → CommitmentAccessor P → TableRef → Type 0
Fits accessor t = accessor.get_offset t + accessor.get_length t < usize_mod

module _ (s : Scheme) (index_map : IndexMap ColumnCommitmentMetadata)
    (accessor : CommitmentAccessor s.Point) where
  -- A table made from the accessor spans the accessor's rows.
  abbrev Spans : TableRef → TableCommitment s index_map → Type 0
  Spans table t =
      (t.range.start ≡ accessor.get_offset table) × (range_len t.range ≡ accessor.get_length table)

  table_ok {ε} :
      {E : Type ε} (table : TableRef) (fields : List ColumnField)
      → Fits accessor table
      → (t : TableCommitment s index_map) × (Table.from_accessor_with_max_bounds s index_map {E = E}
            table fields accessor
          ≡ ok t)
        × Spans table t
  unfolding Table.from_accessor_with_max_bounds Columns.from_accessor_with_max_bounds
      MetadataMap.from_column_fields_with_max_bounds Table.try_new range_len
  table_ok {E} table fields h =
      let (entries, p) = field_entries_ok {E = E} fields in
      (
        record {
          column_commitments = record {
            commitments =
                map
                  (λ (c : ColumnField).
                    accessor.get_commitment
                      (record { table_ref = table; column_id = c.name; column_type = c.data_type }))
                  fields;
            column_metadata = index_map.collect entries;
          };
          range = record {
            start = accessor.get_offset table;
            end = usize_add (accessor.get_offset table) (accessor.get_length table);
          };
        },
        rw (p, ordered) refl,
        (refl, omega arith),
      )
    where
      ordered :
          leb
            (accessor.get_offset table)
            (usize_add (accessor.get_offset table) (accessor.get_length table))
          ≡ true
      ordered = ground arith

  table_commitments_ok {ε} :
      {E : Type ε} (l : List (TableRef × List ColumnField))
      → All (λ e. Fits accessor e.0) l
      → (q : List (TableRef × TableCommitment s index_map)) × (Query.table_commitments s index_map
            {E = E} accessor l
          ≡ ok q)
        × ((k : TableRef)
            → Has k l
            → (t : TableCommitment s index_map) × (get k q ≡ some t) × Spans k t)
  unfolding Query.table_commitments get
  table_commitments_ok [] h = ([], refl, λ k m. cc (m.1))
  table_commitments_ok {E} ((table, fields) ∷ l) h =
      let (t, p, spans) = table_ok {E = E} table fields h.0 in
      let (q, r, rest) = table_commitments_ok {E = E} l h.1 in
      (
        (table, t) ∷ q,
        rw (p, r) refl,
        λ k m. elim (Bool-cases (table_ref_beq table k)) [
          | inl e ↦ (t, rw e refl, subst (λ u. Spans u t) ((table_ref_beq_iff table k).0 e) spans)
          | inr e ↦ let (u, x, y) = rest k (m.0, (rw e at m.1)) in (u, rw e x, y)
        ],
      )

  -- Where the accessor's rows of every table in use end within `usize`, the commitments of a query
  -- are made without a panic, and for each table of a column their length and offset are the
  -- accessor's.
  pub from_accessor-lengths {ε} :
      {E : Type ε} (columns : List ColumnRef) (r : ColumnRef)
      → All (λ (c : ColumnRef). Fits accessor c.table_ref) columns
      → Contains r columns
      → (q : Query.QueryCommitments s index_map) × (Query.from_accessor_with_max_bounds s index_map
            {E = E} columns accessor
          ≡ ok q)
        × (Query.get_length s index_map {E = E} q r.table_ref
            ≡ ok (accessor.get_length r.table_ref))
        × (Query.get_offset s index_map {E = E} q r.table_ref
            ≡ ok (accessor.get_offset r.table_ref))
  unfolding Query.from_accessor_with_max_bounds Query.get_length Query.get_offset Table.num_rows
  from_accessor-lengths {E} columns r h m =
      let (q, p, spans) =
        table_commitments_ok {E = E} (table_columns [] columns)
          (table_columns-All (Fits accessor) columns [] tt h) in
      let (t, found, (start, len)) =
        spans r.table_ref (table_columns-Has columns [] r.table_ref (inr (r, refl, m))) in
      (q, p, rw (found, len) refl, rw (found, start) refl)
