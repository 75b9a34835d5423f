-- ===== src/SliceOps/BatchInverse.antt =====
-- crates/proof-of-sql/src/base/slice_ops/batch_inverse.rs. The number of threads of the crate
-- `rayon` is an argument; the chunks are separate, so that they are inverted one after the other.
pub mod Serial
pub mod Chunks
use mathlib.Core.List.{reverse}
use sxt_proof_of_sql.Shared.{
  ℕ, zero, suc, ◌+◌, ◌-◌, ◌/◌, Option, none, some, Bool, List, [], ◌∷◌, ◌++◌, length, take, drop,
  leb, if◌then◌else◌, Result, ok, panic, ◌>>=◌, expect_some,
}
use sxt_proof_of_sql.Scalar.{Scalar, ◌⊗◌}

abbrev pub max_of : ℕ → ℕ → ℕ
max_of a b = if leb a b then b else a

module _ {S : Type 0} ⦃s : Scalar S⦄ where
  abbrev pub is_zero : S → Bool
  is_zero f = s.is_equal f s.zero

  -- The first pass: the products of the entries so far, zeros left out.
  unfoldable pub prefix_products : S → List S → List S
  prefix_products tmp [] = []
  prefix_products tmp (f ∷ v) =
      let rest = prefix_products tmp v in
      let more = prefix_products (tmp ⊗ f) v in if is_zero f then rest else tmp ⊗ f ∷ more

  -- `tmp` after the first pass.
  unfoldable pub total_product : S → List S → S
  total_product tmp [] = tmp
  total_product tmp (f ∷ v) =
      let rest = total_product tmp v in
      let more = total_product (tmp ⊗ f) v in if is_zero f then rest else more

  -- The second pass, last entry first, with the products that are left.
  unfoldable pub invert_backwards : S → List S → List S → List S
  invert_backwards tmp [] products = []
  invert_backwards tmp (f ∷ fs) [] = f ∷ fs
  invert_backwards tmp (f ∷ fs) (p ∷ products) =
      let kept = invert_backwards tmp fs (p ∷ products) in
      let more = invert_backwards (tmp ⊗ f) fs products in
      if is_zero f then f ∷ kept else tmp ⊗ p ∷ more

  unfoldable pub serial_batch_inversion_and_mul : List S → S → Result (Unit {0}) (List S)
  unfolding prefix_products total_product invert_backwards
  serial_batch_inversion_and_mul v coeff =
      expect_some (s.inv (total_product s.one v)) >>= λ inverse. ok (
        reverse (
          invert_backwards (inverse ⊗ coeff) (reverse v)
            (drop 1 (reverse (prefix_products s.one v)) ++ (s.one ∷ []))))

  -- `par_chunks_mut`; a chunk has an entry at least, so that the rounds suffice.
  unfoldable pub in_chunks : ℕ → ℕ → List S → S → Result (Unit {0}) (List S)
  unfolding serial_batch_inversion_and_mul
  in_chunks rounds size [] coeff = ok []
  in_chunks zero size (f ∷ v) coeff = panic
  in_chunks (suc rounds) size (f ∷ v) coeff =
      serial_batch_inversion_and_mul (take size (f ∷ v)) coeff >>= λ first.
      in_chunks rounds size (drop size (f ∷ v)) coeff >>= λ rest. ok (first ++ rest)

  -- 256 is `MIN_RAYON_LEN`.
  unfoldable pub batch_inversion_and_mul : ℕ → List S → S → Result (Unit {0}) (List S)
  unfolding in_chunks
  batch_inversion_and_mul current_num_threads v coeff =
      let num_cpus_available = max_of 1 current_num_threads in
      let num_elem_per_thread =
        max_of ((length v + num_cpus_available - 1) / num_cpus_available) 256 in
      in_chunks (length v) num_elem_per_thread v coeff

  unfoldable pub batch_inversion : ℕ → List S → Result (Unit {0}) (List S)
  unfolding batch_inversion_and_mul
  batch_inversion current_num_threads v = batch_inversion_and_mul current_num_threads v s.one
