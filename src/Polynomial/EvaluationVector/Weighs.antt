-- ===== src/Polynomial/EvaluationVector/Weighs.antt =====
-- The vector of crates/proof-of-sql/src/base/polynomial/evaluation_vector.rs holds the values of
-- the Lagrange basis.
use sxt_proof_of_sql.Shared.{
  ℕ, zero, suc, ◌+◌, ◌^◌, ◌≤◌, ◌≡◌, ◌⊎◌, inl, inr, refl, sym, ap, ap₂, ◌∙◌, subst, arith, List, [],
  ◌∷◌, ◌++◌, length, length-append, length-zero, take-append, drop-append, take, drop, map, leb,
  if◌then◌else◌, ok, panic, tabulate, length-tabulate, tabulate-append, tabulate-shift,
  tabulate_congr, pow_double, Bool-cases, leb→le,
}
use mathlib.Core.List.{append-nil, append_assoc}
use sxt_proof_of_sql.Scalar.{Scalar, ◌⊖◌, ◌⊗◌}
use sxt_proof_of_sql.Scalar.Ring.{difference_laws, ring_laws}
use sxt_proof_of_sql.Polynomial.Weights.{weight, weight-append_low, weight-append_high}
use sxt_proof_of_sql.Polynomial.EvaluationVector.{
  compute_evaluation_vector_impl, split_level, fill_level, fill_levels, fill_first, fill_vector,
  compute_evaluation_vector,
}

module _ {S : Type 0} ⦃s : Scalar S⦄ where
  impl-whole :
      (i n : ℕ) (w : ℕ → S) (p : S)
      → compute_evaluation_vector_impl (tabulate i n w) [] p
        ≡ (tabulate i n (λ j. w j ⊗ (s.one ⊖ p)), [])
  unfolding compute_evaluation_vector_impl
  impl-whole i zero w p = refl
  impl-whole i (suc n) w p = rw (impl-whole (suc i) n w p)

  -- The right slice gets as many entries as both have.
  impl-part :
      (i n : ℕ) (w : ℕ → S) (rs : List S) (p : S)
      → (c : ℕ) × (rest : List S) × (compute_evaluation_vector_impl (tabulate i n w) rs p
          ≡ (tabulate i n (λ j. w j ⊗ (s.one ⊖ p)), tabulate i c (λ j. w j ⊗ p) ++ rest))
        × (c + length rest ≡ length rs)
        × ((c ≡ n) ⊎ ((rest ≡ []) × (c ≤ n)))
  unfolding compute_evaluation_vector_impl
  impl-part i zero w rs p = (0, rs, refl, omega arith, inl refl)
  impl-part i (suc n) w [] p =
      (0, [], impl-whole i (suc n) w p, omega arith, inr (refl, omega arith))
  impl-part i (suc n) w (r ∷ rs) p =
      let (c, rest, e, total, size) = impl-part (suc i) n w rs p in
      let less : w i ⊖ w i ⊗ p ≡ w i ⊗ (s.one ⊖ p) = simp difference_laws in
      (
        suc c,
        rest,
        rw (e, less),
        omega arith,
        elim size [ inl e ↦ inl (omega arith) | inr (e, le) ↦ inr (e, omega arith) ],
      )

  -- Of `n` entries the first `2 ^ k` are filled, or all of them.
  abbrev IsFilled : ℕ → List S → List S → Type 0
  IsFilled n ps v =
      (m : ℕ) × (rest : List S) × (v ≡ tabulate 0 m (weight ps) ++ rest)
      × (m + length rest ≡ n)
      × ((m ≡ 2 ^ length ps) ⊎ ((rest ≡ []) × (m ≤ 2 ^ length ps)))

  -- Filled, and no longer than `2 ^ k`: all of it.
  IsFilled-all :
      (n : ℕ) (ps v : List S) → IsFilled n ps v → n ≤ 2 ^ length ps → v ≡ tabulate 0 n (weight ps)
  IsFilled-all n ps v (m, rest, e, total, size) le =
      let none_left : rest ≡ [] = elim size [
        | inl e ↦ length-zero rest (omega arith)
        | inr (e, _) ↦ e
      ] in
      e
      ∙ ap₂ (λ k l. tabulate 0 k (weight ps) ++ l) {u = rest} {v = []}
          (omega (arith, ap length none_left)) none_left
      ∙ append-nil _

  size-append : (ps : List S) (p : S) → 2 ^ length (ps ++ (p ∷ [])) ≡ 2 ^ length ps + 2 ^ length ps
  size-append ps p =
      ap (λ k. 2 ^ k) {x = length (ps ++ (p ∷ []))} {y = suc (length ps)}
        (omega (arith, length-append ps (p ∷ [])))
      ∙ pow_double (length ps)

  -- Both halves of a new level.
  low_and_high :
      (ps : List S) (p : S) (c k : ℕ)
      → c ≤ 2 ^ length ps
      → 2 ^ length ps + c ≡ k
      → tabulate 0 (2 ^ length ps) (λ j. weight ps j ⊗ (s.one ⊖ p))
          ++ tabulate 0 c (λ j. weight ps j ⊗ p)
        ≡ tabulate 0 k (weight (ps ++ (p ∷ [])))
  low_and_high ps p c k le e =
      ap₂ ◌++◌
        (tabulate_congr 0 (2 ^ length ps) λ j _ lt. sym (weight-append_low ps p j (omega arith)))
        (tabulate_congr 0 c {g = λ j. weight (ps ++ (p ∷ [])) (2 ^ length ps + j)}
            (λ j _ lt. sym (weight-append_high ps p j _ (omega arith) refl))
          ∙ tabulate-shift (2 ^ length ps) 0 (2 ^ length ps) c _ (omega arith))
      ∙ tabulate-append 0 (2 ^ length ps) (2 ^ length ps) c k _ (omega arith) e

  abbrev IsLevel : ℕ → List S → Type 0
  IsLevel level ps = length ps ≡ suc level

  fill_level-IsFilled :
      (n level : ℕ) (ps : List S) (p : S) (v : List S)
      → IsLevel level ps
      → IsFilled n ps v
      → IsFilled n (ps ++ (p ∷ [])) (fill_level level p v)
  unfolding fill_level split_level
  fill_level-IsFilled n level ps p v lv (m, rest, e, total, size) =
      elim (Bool-cases (leb (length v) (2 ^ (level + 1)))) [
        | inl short ↦ (
          n,
          [],
          rw (short, whole (leb→le _ _ short), impl-whole 0 n (weight ps) p)
              (ap (λ l. l ++ [])
                (tabulate_congr 0 n λ j _ lt.
                  sym (weight-append_low ps p j (omega (arith, len, mid, leb→le _ _ short))))),
          omega arith,
          inr (refl, omega (arith, size-append ps p, len, mid, leb→le _ _ short)),
        )
        | inr long ↦
            let full : m ≡ 2 ^ length ps = elim size [
              | inl e ↦ e
              | inr (none_left, le) ↦ absurd (ground (arith, len, mid, ap length none_left))
            ] in
            let front : take (2 ^ (level + 1)) v ≡ tabulate 0 (2 ^ length ps) (weight ps) =
              rw (e, full, mid) (take-append (2 ^ length ps) _ rest (length-tabulate 0 _ _)) in
            let back : drop (2 ^ (level + 1)) v ≡ rest =
              rw (e, full, mid) (drop-append (2 ^ length ps) _ rest (length-tabulate 0 _ _)) in
            let (c, rest', e', total', size') = impl-part 0 (2 ^ length ps) (weight ps) rest p in
            (
              2 ^ length ps + c,
              rest',
              rw (long, front, back, e')
                  (sym (append_assoc _ _ rest')
                    ∙ ap (λ l. l ++ rest')
                        (low_and_high ps p c _
                          (elim size' [ inl e ↦ omega arith | inr (_, le) ↦ le ]) refl)),
              omega arith,
              elim size' [
                | inl e ↦ inl (omega (arith, size-append ps p))
                | inr (e, le) ↦ inr (e, omega (arith, size-append ps p))
              ],
            )
      ]
    where
      len : length v ≡ n
      len =
          ap length e
          ∙ length-append _ rest
          ∙ ap (λ k. k + length rest) (length-tabulate 0 m (weight ps))
          ∙ total

      mid : 2 ^ (level + 1) ≡ 2 ^ length ps
      mid = ap (λ k. 2 ^ k) {x = level + 1} {y = length ps} (omega arith)

      whole : length v ≤ 2 ^ (level + 1) → v ≡ tabulate 0 n (weight ps)
      whole le = IsFilled-all n ps v (m, rest, e, total, size) (omega (arith, len, mid))

  fill_levels-IsFilled :
      (n level : ℕ) (ps qs v : List S)
      → IsLevel level ps
      → IsFilled n ps v
      → IsFilled n (ps ++ qs) (fill_levels level qs v)
  unfolding fill_levels
  fill_levels-IsFilled n level ps [] v lv h = rw (append-nil ps) h
  fill_levels-IsFilled n level ps (q ∷ qs) v lv h =
      subst (λ l. IsFilled n l (fill_levels (level + 1) qs (fill_level level q v)))
        (append_assoc ps (q ∷ []) qs)
        (fill_levels-IsFilled n (level + 1) (ps ++ (q ∷ [])) qs (fill_level level q v)
          (omega (arith, length-append ps (q ∷ []))) (fill_level-IsFilled n level ps q v lv h))

  fill_first-IsFilled :
      (p a : S) (v : List S) → IsFilled (suc (length v)) (p ∷ []) (fill_first p (a ∷ v))
  unfolding fill_first weight
  fill_first-IsFilled p a [] = (1, [], simp ring_laws, omega arith, inr (refl, omega arith))
  fill_first-IsFilled p a (b ∷ v) = (2, v, simp ring_laws, omega arith, inl (omega arith))

  ones-weight : (i : ℕ) (v : List S) → map (λ _. s.one) v ≡ tabulate i (length v) (weight [])
  unfolding weight
  ones-weight i [] = refl
  ones-weight i (a ∷ v) = ap (λ l. s.one ∷ l) (ones-weight (suc i) v)

  fill_vector-weight :
      (v point : List S)
      → length v ≤ 2 ^ length point
      → fill_vector v point ≡ tabulate 0 (length v) (weight point)
  unfolding fill_vector
  fill_vector-weight v [] h = ones-weight 0 v
  fill_vector-weight [] (p ∷ ps) h = refl
  fill_vector-weight (a ∷ v) (p ∷ ps) h =
      IsFilled-all (suc (length v)) (p ∷ ps) (fill_levels 0 ps (fill_first p (a ∷ v)))
        (fill_levels-IsFilled (suc (length v)) 0 (p ∷ []) ps (fill_first p (a ∷ v)) refl
          (fill_first-IsFilled p a v))
        h

  -- `compute_evaluation_vector` on a slice of `n` entries writes the first `n` values of the
  -- Lagrange basis at the point: entry `i` is the product, over the coordinates `p` of the point,
  -- of `p` where the bit of `i` is set and of `1 - p` where it is not. A slice that is longer than
  -- two to the number of coordinates fails the assertion.
  pub compute_evaluation_vector-weight :
      (v point : List S)
      → compute_evaluation_vector v point ≡ (
          if leb (length v) (2 ^ length point)
          then ok (tabulate 0 (length v) (weight point))
          else panic)
  unfolding compute_evaluation_vector
  compute_evaluation_vector-weight v point = elim (Bool-cases (leb (length v) (2 ^ length point))) [
    | inl short ↦ rw short (ap ok (fill_vector-weight v point (leb→le _ _ short)))
    | inr long ↦ rw long
  ]
