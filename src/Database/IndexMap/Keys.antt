-- ===== src/Database/IndexMap/Keys.antt =====
-- Keys of lists of entries.
use sxt_proof_of_sql.Shared.{true, false, ◌||◌, List, [], ◌∷◌, ◌++◌, ◌≡◌, refl, arith}
use sxt_proof_of_sql.Database.Names.{Identifier, identifier_eq, identifier_beq, identifier_beq_iff}
use sxt_proof_of_sql.Database.IndexMap.{has_key, DistinctKeys}

pub identifier_beq_refl : (k : Identifier) → identifier_beq k k ≡ true
identifier_beq_refl k = (identifier_beq_iff k k).1 refl

pub identifier_beq_sym :
    (j k : Identifier) → identifier_beq j k ≡ false → identifier_beq k j ≡ false
identifier_beq_sym j k e = ground (arith, identifier_beq_iff j k, identifier_beq_iff k j)

module _ {V : Type 0} where
  pub has_key-append :
      (k : Identifier) (xs ys : List (Identifier × V))
      → has_key k (xs ++ ys) ≡ (has_key k xs || has_key k ys)
  has_key-append k [] ys = refl
  has_key-append k ((j, w) ∷ xs) ys = ground (arith, has_key-append k xs ys)

  -- In a list with distinct keys a key of the second part is not in the first.
  pub has_key-middle :
      (xs ys : List (Identifier × V)) (k : Identifier) (v : V)
      → DistinctKeys (xs ++ (k, v) ∷ ys)
      → has_key k xs ≡ false
  has_key-middle [] ys k v h = refl
  has_key-middle ((j, w) ∷ xs) ys k v h = ground (
    arith,
    has_key-middle xs ys k v h.1,
    has_key-append j xs ((k, v) ∷ ys),
    identifier_beq_sym j k,
  )

  pub DistinctKeys-append_left :
      (xs ys : List (Identifier × V)) → DistinctKeys (xs ++ ys) → DistinctKeys xs
  DistinctKeys-append_left [] ys h = tt
  DistinctKeys-append_left ((k, v) ∷ xs) ys h =
      (ground (arith, has_key-append k xs ys), DistinctKeys-append_left xs ys h.1)

  pub DistinctKeys-append_right :
      (xs ys : List (Identifier × V)) → DistinctKeys (xs ++ ys) → DistinctKeys ys
  DistinctKeys-append_right [] ys h = h
  DistinctKeys-append_right ((k, v) ∷ xs) ys h = DistinctKeys-append_right xs ys h.1
