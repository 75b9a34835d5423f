-- ===== src/Commitment/MetadataMap/Exact.antt =====
-- Metadata maps against the columns that they describe.
use sxt_proof_of_sql.Shared.{
  Result, ok, List, [], ◌∷◌, ◌≡◌, refl, sym, ◌∙◌, length, ap, ap₂, subst, suc, false, arith,
}
use sxt_proof_of_sql.Database.Names.{Identifier, identifier_eq, identifier_beq_iff}
use sxt_proof_of_sql.Database.IndexMap.Keys.{identifier_beq_refl}
use sxt_proof_of_sql.Database.IndexMap.{has_key, DistinctKeys}
use sxt_proof_of_sql.Commitment.CommittableColumn.{CommittableColumn, column_type, concat}
use sxt_proof_of_sql.Commitment.ColumnBounds.Sound.{exact_of, exact_of-DescribesColumn}
use sxt_proof_of_sql.Commitment.Metadata
use sxt_proof_of_sql.Commitment.Metadata.{
  ColumnCommitmentMetadata, ColumnCommitmentMetadataMismatch,
}
use sxt_proof_of_sql.Commitment.Metadata.Sound.{
  from_column_lem, try_union-from_column, try_union-DescribesColumn,
  try_difference-DescribesColumn_end, try_difference-DescribesColumn_front,
}
use sxt_proof_of_sql.Commitment.MetadataMap.{Entry, column_entries, zip_entries}

abbrev pub Columns : Type 0
Columns = List (Identifier × CommittableColumn)

abbrev pub exact_metadata : CommittableColumn → ColumnCommitmentMetadata
exact_metadata c = record { column_type = column_type c; bounds = exact_of c }

-- The entries that `from_columns` makes.
abbrev pub exact_entries : Columns → List Entry
exact_entries [] = []
exact_entries ((i, c) ∷ columns) = (i, exact_metadata c) ∷ exact_entries columns

pub column_entries-exact {ε} :
    {E : Type ε} (columns : Columns) → column_entries {E = E} columns ≡ ok (exact_entries columns)
unfolding column_entries
column_entries-exact [] = refl
column_entries-exact {E} ((i, c) ∷ columns) =
    rw (from_column_lem {E = E} c, column_entries-exact {E = E} columns)

pub has_key-exact_entries :
    (k : Identifier) (columns : Columns) → has_key k (exact_entries columns) ≡ has_key k columns
has_key-exact_entries k [] = refl
has_key-exact_entries k ((i, c) ∷ columns) = rw (has_key-exact_entries k columns)

pub DistinctKeys-exact_entries :
    (columns : Columns) → DistinctKeys columns → DistinctKeys (exact_entries columns)
DistinctKeys-exact_entries [] h = tt
DistinctKeys-exact_entries ((i, c) ∷ columns) h =
    (rw (has_key-exact_entries i columns) h.0, DistinctKeys-exact_entries columns h.1)

-- Two tables with the same identifiers and column types in the same order.
abbrev pub SameSchema : Columns → Columns → Type 0
SameSchema [] [] = Unit
SameSchema ((i, c) ∷ xs) ((j, d) ∷ ys) =
    (i ≡ j) × (column_type c ≡ column_type d) × SameSchema xs ys
SameSchema _ _ = ⊥

abbrev pub zip_columns :
    (CommittableColumn → CommittableColumn → CommittableColumn) → Columns → Columns → Columns
zip_columns f ((i, c) ∷ xs) ((j, d) ∷ ys) = (i, f c d) ∷ zip_columns f xs ys
zip_columns f _ _ = []

-- The rows of the first table followed by those of the second.
abbrev pub concat_columns : Columns → Columns → Columns
concat_columns = zip_columns concat

-- Metadata of the type of each column, with bounds that hold for it.
abbrev pub DescribesColumns : List Entry → Columns → Type 0
DescribesColumns [] [] = Unit
DescribesColumns ((i, m) ∷ es) ((j, c) ∷ columns) =
    (i ≡ j) × Metadata.DescribesColumn m c × DescribesColumns es columns
DescribesColumns _ _ = ⊥

pub exact_entries-DescribesColumns :
    (columns : Columns) → DescribesColumns (exact_entries columns) columns
exact_entries-DescribesColumns [] = tt
exact_entries-DescribesColumns ((i, c) ∷ columns) =
    (refl, (refl, exact_of-DescribesColumn c), exact_entries-DescribesColumns columns)

pub has_key-concat_columns :
    (k : Identifier) (xs ys : Columns)
    → SameSchema xs ys
    → has_key k (concat_columns xs ys) ≡ has_key k xs
has_key-concat_columns k [] [] h = refl
has_key-concat_columns k [] (y ∷ ys) h = absurd h
has_key-concat_columns k (x ∷ xs) [] h = absurd h
has_key-concat_columns k ((i, c) ∷ xs) ((j, d) ∷ ys) h = rw (has_key-concat_columns k xs ys h.2)

pub DistinctKeys-concat_columns :
    (xs ys : Columns) → SameSchema xs ys → DistinctKeys xs → DistinctKeys (concat_columns xs ys)
DistinctKeys-concat_columns [] [] h d = tt
DistinctKeys-concat_columns [] (y ∷ ys) h d = absurd h
DistinctKeys-concat_columns (x ∷ xs) [] h d = absurd h
DistinctKeys-concat_columns ((i, c) ∷ xs) ((j, d) ∷ ys) h k =
    (rw (has_key-concat_columns i xs ys h.2) k.0, DistinctKeys-concat_columns xs ys h.2 k.1)

-- The union of exact entries is exact on the rows together.
pub zip_entries-exact :
    (xs ys : Columns)
    → SameSchema xs ys
    → zip_entries Metadata.try_union (exact_entries xs) (exact_entries ys)
      ≡ ok (exact_entries (concat_columns xs ys))
unfolding zip_entries
zip_entries-exact [] [] h = refl
zip_entries-exact [] (y ∷ ys) h = absurd h
zip_entries-exact (x ∷ xs) [] h = absurd h
zip_entries-exact ((i, c) ∷ xs) ((j, d) ∷ ys) h =
    rw (h.0, identifier_beq_refl j, try_union-from_column c d h.1, zip_entries-exact xs ys h.2)

-- An operation on metadata that, where `whole` holds of the columns, gives metadata of `result`.
module _
    (op : ColumnCommitmentMetadata
      → ColumnCommitmentMetadata
      → Result ColumnCommitmentMetadataMismatch ColumnCommitmentMetadata)
    (first second result : CommittableColumn → CommittableColumn → CommittableColumn)
    (op-DescribesColumn : (a b : ColumnCommitmentMetadata) (c d : CommittableColumn)
      → Metadata.DescribesColumn a (first c d)
      → Metadata.DescribesColumn b (second c d)
      → column_type c ≡ column_type d
      → (r : ColumnCommitmentMetadata) × (op a b ≡ ok r)
        × Metadata.DescribesColumn r (result c d)) where
  zip_entries-DescribesColumns :
      (xs ys : Columns) (es fs : List Entry)
      → SameSchema xs ys
      → DescribesColumns es (zip_columns first xs ys)
      → DescribesColumns fs (zip_columns second xs ys)
      → (gs : List Entry) × (zip_entries op es fs ≡ ok gs)
        × DescribesColumns gs (zip_columns result xs ys)
  unfolding zip_entries
  zip_entries-DescribesColumns [] [] [] [] h p q = ([], refl, tt)
  zip_entries-DescribesColumns ((k, c) ∷ xs) ((l, d) ∷ ys) ((i, a) ∷ es) ((j, b) ∷ fs) h p q =
      let (r, e, s) = op-DescribesColumn a b c d p.1 q.1 h.1 in
      let (gs, f, t) = zip_entries-DescribesColumns xs ys es fs h.2 p.2 q.2 in
      ((i, r) ∷ gs, rw ((identifier_beq_iff i j).1 (p.0 ∙ sym q.0), e, f), (p.0, s, t))
  zip_entries-DescribesColumns _ _ _ _ h p q = ground arith

zip_columns_first : (xs ys : Columns) → SameSchema xs ys → zip_columns (λ c d. c) xs ys ≡ xs
zip_columns_first [] [] h = refl
zip_columns_first [] (y ∷ ys) h = absurd h
zip_columns_first (x ∷ xs) [] h = absurd h
zip_columns_first ((i, c) ∷ xs) ((j, d) ∷ ys) h =
    ap (λ zs. (i, c) ∷ zs) (zip_columns_first xs ys h.2)

zip_columns_second : (xs ys : Columns) → SameSchema xs ys → zip_columns (λ c d. d) xs ys ≡ ys
zip_columns_second [] [] h = refl
zip_columns_second [] (y ∷ ys) h = absurd h
zip_columns_second (x ∷ xs) [] h = absurd h
zip_columns_second ((i, c) ∷ xs) ((j, d) ∷ ys) h =
    ap₂ (λ k zs. (k, d) ∷ zs) h.0 (zip_columns_second xs ys h.2)

-- `DescribesColumns` under the union of entries, and under the difference, where the rows of `ys`
-- are the last or the first rows of the table that `es` describes.
pub zip_union-DescribesColumns :
    (xs ys : Columns) (es fs : List Entry)
    → SameSchema xs ys
    → DescribesColumns es xs
    → DescribesColumns fs ys
    → (gs : List Entry) × (zip_entries Metadata.try_union es fs ≡ ok gs)
      × DescribesColumns gs (concat_columns xs ys)
zip_union-DescribesColumns xs ys es fs h p q =
    zip_entries-DescribesColumns Metadata.try_union (λ c d. c) (λ c d. d) concat
      try_union-DescribesColumn xs ys es fs h
      (subst (DescribesColumns es) (sym (zip_columns_first xs ys h)) p)
      (subst (DescribesColumns fs) (sym (zip_columns_second xs ys h)) q)

pub zip_difference-DescribesColumns_end :
    (xs ys : Columns) (es fs : List Entry)
    → SameSchema xs ys
    → DescribesColumns es (concat_columns xs ys)
    → DescribesColumns fs ys
    → (gs : List Entry) × (zip_entries Metadata.try_difference es fs ≡ ok gs)
      × DescribesColumns gs xs
zip_difference-DescribesColumns_end xs ys es fs h p q =
    let (gs, e, r) =
      zip_entries-DescribesColumns Metadata.try_difference concat (λ c d. d) (λ c d. c)
        try_difference-DescribesColumn_end xs ys es fs h p
        (subst (DescribesColumns fs) (sym (zip_columns_second xs ys h)) q) in
    (gs, e, subst (DescribesColumns gs) (zip_columns_first xs ys h) r)

pub zip_difference-DescribesColumns_front :
    (xs ys : Columns) (es fs : List Entry)
    → SameSchema xs ys
    → DescribesColumns es (zip_columns (λ c d. concat d c) xs ys)
    → DescribesColumns fs ys
    → (gs : List Entry) × (zip_entries Metadata.try_difference es fs ≡ ok gs)
      × DescribesColumns gs xs
zip_difference-DescribesColumns_front xs ys es fs h p q =
    let (gs, e, r) =
      zip_entries-DescribesColumns Metadata.try_difference (λ c d. concat d c) (λ c d. d) (λ c d. c)
        try_difference-DescribesColumn_front xs ys es fs h p
        (subst (DescribesColumns fs) (sym (zip_columns_second xs ys h)) q) in
    (gs, e, subst (DescribesColumns gs) (zip_columns_first xs ys h) r)

pub length-exact_entries : (columns : Columns) → length (exact_entries columns) ≡ length columns
length-exact_entries [] = refl
length-exact_entries ((i, c) ∷ columns) = ap suc (length-exact_entries columns)

pub length-SameSchema : (xs ys : Columns) → SameSchema xs ys → length xs ≡ length ys
length-SameSchema [] [] h = refl
length-SameSchema [] (y ∷ ys) h = absurd h
length-SameSchema (x ∷ xs) [] h = absurd h
length-SameSchema ((i, c) ∷ xs) ((j, d) ∷ ys) h = ap suc (length-SameSchema xs ys h.2)

pub length-DescribesColumns :
    (es : List Entry) (columns : Columns) → DescribesColumns es columns → length es ≡ length columns
length-DescribesColumns [] [] h = refl
length-DescribesColumns [] (y ∷ ys) h = absurd h
length-DescribesColumns (x ∷ xs) [] h = absurd h
length-DescribesColumns ((i, c) ∷ xs) ((j, d) ∷ ys) h = ap suc (length-DescribesColumns xs ys h.2)

pub has_key-SameSchema :
    (k : Identifier) (xs ys : Columns) → SameSchema xs ys → has_key k xs ≡ has_key k ys
has_key-SameSchema k [] [] h = refl
has_key-SameSchema k [] (y ∷ ys) h = absurd h
has_key-SameSchema k (x ∷ xs) [] h = absurd h
has_key-SameSchema k ((i, c) ∷ xs) ((j, d) ∷ ys) h = rw (h.0, has_key-SameSchema k xs ys h.2)

pub DistinctKeys-SameSchema :
    (xs ys : Columns) → SameSchema xs ys → DistinctKeys xs → DistinctKeys ys
DistinctKeys-SameSchema [] [] h d = tt
DistinctKeys-SameSchema [] (y ∷ ys) h d = absurd h
DistinctKeys-SameSchema (x ∷ xs) [] h d = absurd h
DistinctKeys-SameSchema ((i, c) ∷ xs) ((j, d) ∷ ys) h k = (
  sym (has_key-SameSchema j xs ys h.2) ∙ subst (λ l. has_key l xs ≡ false) h.0 k.0,
  DistinctKeys-SameSchema xs ys h.2 k.1,
)

pub has_key-DescribesColumns :
    (k : Identifier) (es : List Entry) (columns : Columns)
    → DescribesColumns es columns
    → has_key k es ≡ has_key k columns
has_key-DescribesColumns k [] [] h = refl
has_key-DescribesColumns k [] (y ∷ ys) h = absurd h
has_key-DescribesColumns k (x ∷ xs) [] h = absurd h
has_key-DescribesColumns k ((i, m) ∷ es) ((j, c) ∷ columns) h =
    rw (h.0, has_key-DescribesColumns k es columns h.2)

pub DistinctKeys-DescribesColumns :
    (es : List Entry) (columns : Columns)
    → DescribesColumns es columns
    → DistinctKeys columns
    → DistinctKeys es
DistinctKeys-DescribesColumns [] [] h d = tt
DistinctKeys-DescribesColumns [] (y ∷ ys) h d = absurd h
DistinctKeys-DescribesColumns (x ∷ xs) [] h d = absurd h
DistinctKeys-DescribesColumns ((i, m) ∷ es) ((j, c) ∷ columns) h k = (
  rw (h.0, has_key-DescribesColumns j es columns h.2) k.0,
  DistinctKeys-DescribesColumns es columns h.2 k.1,
)

pub SameSchema-sym : (xs ys : Columns) → SameSchema xs ys → SameSchema ys xs
SameSchema-sym [] [] h = tt
SameSchema-sym [] (y ∷ ys) h = absurd h
SameSchema-sym (x ∷ xs) [] h = absurd h
SameSchema-sym ((i, c) ∷ xs) ((j, d) ∷ ys) h = (sym h.0, sym h.1, SameSchema-sym xs ys h.2)

pub zip_columns_swap :
    (xs ys : Columns)
    → SameSchema xs ys
    → zip_columns (λ c d. concat d c) ys xs ≡ concat_columns xs ys
zip_columns_swap [] [] h = refl
zip_columns_swap [] (y ∷ ys) h = absurd h
zip_columns_swap (x ∷ xs) [] h = absurd h
zip_columns_swap ((i, c) ∷ xs) ((j, d) ∷ ys) h =
    ap₂ (λ k zs. (k, concat c d) ∷ zs) (sym h.0) (zip_columns_swap xs ys h.2)

pub length-zip_columns :
    (xs ys : Columns) → SameSchema xs ys → length (concat_columns xs ys) ≡ length xs
length-zip_columns [] [] h = refl
length-zip_columns [] (y ∷ ys) h = absurd h
length-zip_columns (x ∷ xs) [] h = absurd h
length-zip_columns ((i, c) ∷ xs) ((j, d) ∷ ys) h = ap suc (length-zip_columns xs ys h.2)
