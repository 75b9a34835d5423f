-- ===== src/SliceOps/BatchInverse/Chunks.antt =====
-- `batch_inversion_and_mul` of crates/proof-of-sql/src/base/slice_ops/batch_inverse.rs: the chunks
-- make no difference.
use mathlib.Core.List.{map-append}
use sxt_proof_of_sql.Shared.{
  ℕ, zero, suc, ◌+◌, ◌-◌, ◌/◌, ◌≤◌, ◌<◌, ◌≡◌, ◌≢◌, refl, sym, ap, ◌∙◌, arith, List, [], ◌∷◌, length,
  map, take, drop, take-append-drop, ok,
}
use sxt_proof_of_sql.Scalar.{Scalar}
use sxt_proof_of_sql.SliceOps.BatchInverse.{max_of, in_chunks, batch_inversion_and_mul}
use sxt_proof_of_sql.SliceOps.BatchInverse.Serial.{
  scaled_inverse, serial_batch_inversion_and_mul-map,
}

length-drop_le : {A : Type 0} (n : ℕ) (xs : List A) → length (drop n xs) ≤ length xs
length-drop_le zero xs = omega arith
length-drop_le (suc n) [] = omega arith
length-drop_le (suc n) (x ∷ xs) = omega (arith, length-drop_le n xs)

module _ {S : Type 0} ⦃s : Scalar S⦄ where
  in_chunks-map :
      (rounds size : ℕ) (v : List S) (coeff : S)
      → s.one ≢ s.zero
      → 0 < size
      → length v ≤ rounds
      → in_chunks rounds size v coeff ≡ ok (map (scaled_inverse coeff) v)
  unfolding in_chunks
  in_chunks-map rounds size [] coeff one pos h = refl
  in_chunks-map zero size (f ∷ v) coeff one pos h = absurd (omega arith)
  in_chunks-map (suc rounds) zero (f ∷ v) coeff one pos h = absurd (omega arith)
  in_chunks-map (suc rounds) (suc size) (f ∷ v) coeff one pos h =
      rw
        (
          serial_batch_inversion_and_mul-map (f ∷ take size v) coeff one,
          in_chunks-map rounds (suc size) (drop size v) coeff one pos
              (omega (arith, length-drop_le size v)),
        )
        (ap ok (
          sym (map-append (scaled_inverse coeff) (f ∷ take size v) (drop size v))
          ∙ ap (λ l. map (scaled_inverse coeff) (f ∷ l)) (take-append-drop size v)))

  -- `batch_inversion_and_mul` never panics, and for any number of threads it replaces each entry but
  -- the zeros by the coefficient times its inverse: the chunks end, whatever their size, and the
  -- one inverse of the product of a chunk gives those of its entries.
  pub batch_inversion_and_mul-map :
      (current_num_threads : ℕ) (v : List S) (coeff : S)
      → s.one ≢ s.zero
      → batch_inversion_and_mul current_num_threads v coeff ≡ ok (map (scaled_inverse coeff) v)
  unfolding batch_inversion_and_mul
  batch_inversion_and_mul-map current_num_threads v coeff one =
      in_chunks-map (length v)
        (max_of ((length v + max_of 1 current_num_threads - 1) / max_of 1 current_num_threads) 256)
        v coeff one
        (at_least ((length v + max_of 1 current_num_threads - 1) / max_of 1 current_num_threads))
        (omega arith)
    where
      at_least : (n : ℕ) → 0 < max_of n 256
      at_least n = ground arith
