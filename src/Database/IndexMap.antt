-- ===== src/Database/IndexMap.antt =====
-- What the code relies on of the `indexmap` crate: a map with the order of insertion, keyed by
-- identifiers. The crate is not part of the repository, so a map is a parameter with these laws.
pub mod Keys
pub mod Instance
use sxt_proof_of_sql.Shared.{
  ℕ, suc, ◌+◌, Bool, true, false, ◌||◌, List, [], ◌∷◌, ◌++◌, length, Option, none, some, ◌≡◌,
  if◌then◌else◌, equal, map,
}
use mathlib.Core.Option
use sxt_proof_of_sql.Database.Names.{Identifier, identifier_eq}

module _ {V : Type 0} where
  abbrev pub has_key : Identifier → List (Identifier × V) → Bool
  has_key k [] = false
  has_key k ((j, v) ∷ l) = equal k j || has_key k l

  abbrev pub DistinctKeys : List (Identifier × V) → Type 0
  DistinctKeys [] = Unit
  DistinctKeys ((k, v) ∷ l) = (has_key k l ≡ false) × DistinctKeys l

  abbrev pub value_at : Identifier → List (Identifier × V) → Option V
  value_at k [] = none
  value_at k ((j, v) ∷ l) = if equal k j then some v else value_at k l

  abbrev pub index_of : Identifier → List (Identifier × V) → Option ℕ
  index_of k [] = none
  index_of k ((j, v) ∷ l) = if equal k j then some 0 else Option.map suc (index_of k l)

pub record IndexMap (V : Type 0) : Type 1 where
  pub Map : Type 0
  -- The order of iteration.
  pub entries : Map → List (Identifier × V)
  pub len : Map → ℕ
  pub get : Map → Identifier → Option V
  pub get_index_of : Map → Identifier → Option ℕ
  pub contains_key : Map → Identifier → Bool
  pub collect : List (Identifier × V) → Map
  pub extend : Map → List (Identifier × V) → Map
  -- Keys are distinct, and the lookups go by the entries.
  pub entries_distinct : (m : Map) → DistinctKeys (entries m)
  pub len_entries : (m : Map) → len m ≡ length (entries m)
  pub get_entries : (m : Map) (k : Identifier) → get m k ≡ value_at k (entries m)
  pub get_index_of_entries : (m : Map) (k : Identifier) → get_index_of m k ≡ index_of k (entries m)
  pub contains_key_entries : (m : Map) (k : Identifier) → contains_key m k ≡ has_key k (entries m)
  -- New keys are put at the end. (What happens to a key that is there is not relied on.)
  pub collect_entries : (l : List (Identifier × V)) → DistinctKeys l → entries (collect l) ≡ l
  pub extend_entries :
      (m : Map) (l : List (Identifier × V))
      → DistinctKeys (entries m ++ l)
      → entries (extend m l) ≡ entries m ++ l
