-- ===== src/Database/IndexMap/Instance.antt =====
-- A map that meets the laws: a list of entries with distinct keys.
use sxt_proof_of_sql.Shared.{
  false, List, [], ◌∷◌, ◌++◌, length, ◌≡◌, refl, sym, ◌∙◌, ap, if◌then◌else◌, equal, Bool-cases,
  inl, inr, arith, subst,
}
use mathlib.Core.List.{append_assoc, append-nil}
use sxt_proof_of_sql.Database.Names.{Identifier, identifier_eq, identifier_beq_iff}
use sxt_proof_of_sql.Database.IndexMap.Keys.{has_key-middle}
use sxt_proof_of_sql.Database.IndexMap.{IndexMap, has_key, DistinctKeys, value_at, index_of}

module _ {V : Type 0} where
  -- A key that is there keeps its place and gets the new value.
  unfoldable pub insert : Identifier → V → List (Identifier × V) → List (Identifier × V)
  insert k v [] = (k, v) ∷ []
  insert k v ((j, w) ∷ l) = if equal k j then (j, v) ∷ l else (j, w) ∷ insert k v l

  has_key-insert :
      (i k : Identifier) (v : V) (l : List (Identifier × V))
      → has_key i l ≡ false
      → equal i k ≡ false
      → has_key i (insert k v l) ≡ false
  unfolding insert
  has_key-insert i k v [] h e = ground arith
  has_key-insert i k v ((j, w) ∷ l) h e = ground (arith, has_key-insert i k v l)

  insert-DistinctKeys :
      (k : Identifier) (v : V) (l : List (Identifier × V))
      → DistinctKeys l
      → DistinctKeys (insert k v l)
  unfolding insert
  insert-DistinctKeys k v [] h = (refl, tt)
  insert-DistinctKeys k v ((j, w) ∷ l) h = elim (Bool-cases (equal k j)) [
    | inl e ↦ rw e h
    | inr e ↦ rw e (has_key-insert j k v l h.0 (differ e), insert-DistinctKeys k v l h.1)
  ]
    where
      differ : equal k j ≡ false → equal j k ≡ false
      differ e = ground (arith, identifier_beq_iff j k, identifier_beq_iff k j)

  insert_new :
      (k : Identifier) (v : V) (l : List (Identifier × V))
      → has_key k l ≡ false
      → insert k v l ≡ l ++ (k, v) ∷ []
  unfolding insert
  insert_new k v [] h = refl
  insert_new k v ((j, w) ∷ l) h = ground (arith, insert_new k v l)

  unfoldable pub insert_all : List (Identifier × V) → List (Identifier × V) → List (Identifier × V)
  insert_all l [] = l
  insert_all l ((k, v) ∷ more) = insert_all (insert k v l) more

  pub insert_all-DistinctKeys :
      (l more : List (Identifier × V)) → DistinctKeys l → DistinctKeys (insert_all l more)
  unfolding insert_all
  insert_all-DistinctKeys l [] h = h
  insert_all-DistinctKeys l ((k, v) ∷ more) h =
      insert_all-DistinctKeys (insert k v l) more (insert-DistinctKeys k v l h)

  pub insert_all-append :
      (l more : List (Identifier × V)) → DistinctKeys (l ++ more) → insert_all l more ≡ l ++ more
  unfolding insert_all
  insert_all-append l [] h = sym (append-nil l)
  insert_all-append l ((k, v) ∷ more) h =
      ap (λ xs. insert_all xs more) (insert_new k v l (has_key-middle l more k v h))
      ∙ insert_all-append (l ++ (k, v) ∷ []) more
          (subst DistinctKeys (sym (append_assoc l ((k, v) ∷ []) more)) h)
      ∙ append_assoc l ((k, v) ∷ []) more

abbrev pub Distinct : Type 0 → Type 0
Distinct V = (l : List (Identifier × V)) × DistinctKeys l

abbrev pub list_map : (V : Type 0) → IndexMap V
list_map V = record {
  Map = Distinct V;
  entries = λ m. m.0;
  len = λ m. length m.0;
  get = λ m k. value_at k m.0;
  get_index_of = λ m k. index_of k m.0;
  contains_key = λ m k. has_key k m.0;
  collect = λ l. (insert_all [] l, insert_all-DistinctKeys [] l tt);
  extend = λ m l. (insert_all m.0 l, insert_all-DistinctKeys m.0 l m.1);
  entries_distinct = λ m. m.1;
  len_entries = λ m. refl;
  get_entries = λ m k. refl;
  get_index_of_entries = λ m k. refl;
  contains_key_entries = λ m k. refl;
  collect_entries = λ l h. insert_all-append [] l h;
  extend_entries = λ m l h. insert_all-append m.0 l h;
}
