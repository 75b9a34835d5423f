-- ===== src/Proof/Indexes/Ascending.antt =====
-- What `Indexes::valid` of crates/proof-of-sql/src/sql/proof/indexes.rs tests.
use sxt_proof_of_sql.Shared.{
  ℕ, zero, suc, ◌+◌, ◌-◌, ◌≤◌, ◌<◌, ◌≡◌, ◌↔◌, ◌⊎◌, subst, refl, ◌∙◌, arith, true, false, Bool-cases,
  ◌&&◌, ◌||◌, inl, inr, List, [], ◌∷◌, length, tabulate, length-tabulate, leb, ltb, ◌==◌,
}
use sxt_proof_of_sql.Proof.Indexes.{Indexes, are_ascending, valid, iter, len, is_empty}

-- Each index is at least `low` and below `n`, and each is above the one before.
abbrev pub IsAscending : ℕ → ℕ → List ℕ → Type 0
IsAscending n low [] = Unit
IsAscending n low (i ∷ ix) = (low ≤ i) × (i < n) × IsAscending n (suc i) ix

are_ascending-IsAscending :
    (n prev : ℕ) (ix : List ℕ) → (are_ascending n prev ix ≡ true) ↔ IsAscending n (suc prev) ix
unfolding are_ascending
are_ascending-IsAscending n prev [] = (λ _. tt, λ _. refl)
are_ascending-IsAscending n prev (i ∷ ix) =
    let (to, from) = are_ascending-IsAscending n i ix in
    elim (Bool-cases (leb i prev || leb n i)) [
      | inl bad ↦ (
        λ h. absurd (cc (rw bad at h)),
        λ h. let (lo, hi, _) = h in absurd (ground (arith, bad, lo, hi)),
      )
      | inr good ↦ (
        λ h. (ground (arith, good), ground (arith, good), to (rw good at h)),
        λ h. let (_, _, rest) = h in rw good (from rest),
      )
    ]

tabulate-IsAscending :
    (n low count : ℕ) → low + count ≤ n → IsAscending n low (tabulate low count (λ i. i))
tabulate-IsAscending n low zero h = tt
tabulate-IsAscending n low (suc count) h =
    (omega arith, omega arith, tabulate-IsAscending n (suc low) count (omega arith))

-- Sparse indexes ascend below `n`. A range ends within `n`, and has an index or is `0..end`.
abbrev pub IsValid : ℕ → Indexes → Type 0
IsValid n (Indexes.sparse ix) = IsAscending n 0 ix
IsValid n (Indexes.dense start end) =
    IsAscending n 0 (tabulate start (end - start) (λ i. i))
    × (end ≤ n)
    × ((start < end) ⊎ (start ≡ 0))

valid-sparse : (ix : List ℕ) (n : ℕ) → (valid (Indexes.sparse ix) n ≡ true) ↔ IsAscending n 0 ix
unfolding valid
valid-sparse [] n = (λ _. tt, λ _. refl)
valid-sparse (i ∷ ix) n =
    let (to, from) = are_ascending-IsAscending n i ix in
    elim (Bool-cases (leb n i)) [
      | inl bad ↦ (
        λ h. absurd (cc (rw bad at h)),
        λ h. let (_, hi, _) = h in absurd (ground (arith, bad, hi)),
      )
      | inr good ↦ (
        λ h. (omega arith, ground (arith, good), to (rw good at h)),
        λ h. let (_, _, rest) = h in rw good (from rest),
      )
    ]

IsAscending-lower :
    (n low high : ℕ) (ix : List ℕ) → low ≤ high → IsAscending n high ix → IsAscending n low ix
IsAscending-lower n low high [] h a = tt
IsAscending-lower n low high (i ∷ ix) h (lo, hi, rest) = (omega arith, hi, rest)

-- `Indexes::valid` for `n` rows accepts exactly the sparse indexes that are below `n` and ascend, so
-- that none repeats, and the ranges that end within `n` and have an index or start at zero: their
-- indexes, too, are below `n` and ascend.
pub valid-IsValid : (ix : Indexes) (n : ℕ) → (valid ix n ≡ true) ↔ IsValid n ix
unfolding valid
valid-IsValid (Indexes.sparse ix) n = valid-sparse ix n
valid-IsValid (Indexes.dense start end) n = (
  λ h. (in_range (fits h), fits h, starts h),
  λ h.
      let (_, fits, starts) = h in
      elim starts [ inl below ↦ ground arith | inr first ↦ ground arith ],
)
  where
    fits : (leb end n && (ltb start end || start == 0)) ≡ true → end ≤ n
    fits h = ground arith

    starts : (leb end n && (ltb start end || start == 0)) ≡ true → (start < end) ⊎ (start ≡ 0)
    starts h = ground arith

    nothing : leb start end ≡ false → 0 ≡ end - start
    nothing e = ground arith

    in_range : end ≤ n → IsAscending n 0 (tabulate start (end - start) (λ i. i))
    in_range le = elim (Bool-cases (leb start end)) [
      | inl ordered ↦
          IsAscending-lower n 0 start _ (omega arith)
            (tabulate-IsAscending n start (end - start) (ground (arith, ordered, le)))
      | inr empty ↦ subst (λ k. IsAscending n 0 (tabulate start k (λ i. i))) (nothing empty) tt
    ]

-- `len` and `is_empty` speak of the indexes of the iterator.
pub length-iter : (ix : Indexes) → length (iter ix) ≡ len ix
unfolding iter len
length-iter (Indexes.sparse ix) = refl
length-iter (Indexes.dense start end) = length-tabulate start (end - start) (λ i. i) ∙ ground arith

pub is_empty_iff : (ix : Indexes) → (is_empty ix ≡ true) ↔ (len ix ≡ 0)
unfolding is_empty len
is_empty_iff (Indexes.sparse []) = (λ _. refl, λ _. refl)
is_empty_iff (Indexes.sparse (i ∷ ix)) = (λ h. absurd (cc h), λ h. absurd (omega arith))
is_empty_iff (Indexes.dense start end) = ground arith
