-- ===== src/Sumcheck/Tables.antt =====
-- The tables of multilinear extensions: `in_place_fix_variable` of
-- crates/proof-of-sql/src/proof_primitive/sumcheck/prover_round.rs against a table of its own.
use sxt_proof_of_sql.Shared.{
  ℕ, zero, suc, ◌+◌, ◌-◌, ◌*◌, ◌^◌, ◌≤◌, ◌<◌, ◌≡◌, refl, sym, ap, ◌∙◌, arith, some, List, [], ◌∷◌,
  ◌++◌, length, get_elem?, set_elem?, tabulate, length-tabulate, tabulate-append, drop, ok, lt→ltb,
  pow_double,
}
use mathlib.Core.List.{append_assoc}
use sxt_proof_of_sql.Scalar.{Scalar, ◌⊕◌, ◌⊖◌, ◌⊗◌}
use sxt_proof_of_sql.Sumcheck.Prover.{fix_rows, in_place_fix_variable}

module _ {A : Type 0} where
  pub get_elem?-append_right :
      (xs ys : List A) (n i j : ℕ)
      → length xs ≡ n
      → n + i ≡ j
      → get_elem? (xs ++ ys) j ≡ get_elem? ys i
  get_elem?-append_right [] ys n i j e d = ap (get_elem? ys) {x = j} {y = i} (omega arith)
  get_elem?-append_right (x ∷ xs) ys n i zero e d = absurd (omega arith)
  get_elem?-append_right (x ∷ xs) ys zero i (suc j) e d = absurd (omega arith)
  get_elem?-append_right (x ∷ xs) ys (suc n) i (suc j) e d =
      get_elem?-append_right xs ys n i j (omega arith) (omega arith)

  get_elem?-drop : (n i j : ℕ) (xs : List A) → n + i ≡ j → get_elem? (drop n xs) i ≡ get_elem? xs j
  get_elem?-drop zero i j xs e = ap (get_elem? xs) {x = i} {y = j} (omega arith)
  get_elem?-drop (suc n) i j [] e = refl
  get_elem?-drop (suc n) i zero (x ∷ xs) e = absurd (omega arith)
  get_elem?-drop (suc n) i (suc j) (x ∷ xs) e = get_elem?-drop n i j xs (omega arith)

  set_elem?-append :
      (xs ys : List A) (y a : A) (n : ℕ)
      → length xs ≡ n
      → set_elem? (xs ++ (y ∷ ys)) n a ≡ some (xs ++ (a ∷ ys))
  set_elem?-append [] ys y a zero e = refl
  set_elem?-append [] ys y a (suc n) e = absurd (omega arith)
  set_elem?-append (x ∷ xs) ys y a zero e = absurd (omega arith)
  set_elem?-append (x ∷ xs) ys y a (suc n) e = rw (set_elem?-append xs ys y a n (omega arith))

  drop-cons : (n : ℕ) (xs : List A) → n < length xs → (x : A) × (drop n xs ≡ x ∷ drop (suc n) xs)
  drop-cons n [] h = absurd (omega arith)
  drop-cons zero (x ∷ xs) h = (x, refl)
  drop-cons (suc n) (x ∷ xs) h = drop-cons n xs (omega arith)

module _ {S : Type 0} ⦃s : Scalar S⦄ where
  -- The entry of a table, zero out of range.
  abbrev pub at : List S → ℕ → S
  at [] i = s.zero
  at (x ∷ xs) zero = x
  at (x ∷ xs) (suc i) = at xs i

  pub get_elem?-at : (xs : List S) (i : ℕ) → i < length xs → get_elem? xs i ≡ some (at xs i)
  get_elem?-at [] i h = absurd (omega arith)
  get_elem?-at (x ∷ xs) zero h = refl
  get_elem?-at (x ∷ xs) (suc i) h = get_elem?-at xs i (omega arith)

  pub at-tabulate_append :
      (i n k : ℕ) (f : ℕ → S) (ys : List S) → k < n → at (tabulate i n f ++ ys) k ≡ f (i + k)
  at-tabulate_append i zero k f ys h = absurd (omega arith)
  at-tabulate_append i (suc n) zero f ys h = ap f {x = i} {y = i + 0} (omega arith)
  at-tabulate_append i (suc n) (suc k) f ys h =
      at-tabulate_append (suc i) n k f ys (omega arith)
      ∙ ap f {x = suc i + k} {y = i + suc k} (omega arith)

  -- The line through two neighbours of a table.
  abbrev pub line : (ℕ → S) → ℕ → S → S
  line table b t = table (b * 2) ⊕ t ⊗ (table (b * 2 + 1) ⊖ table (b * 2))

  module _ (multiplicand : List S) (r : S) where
    -- The table before round `b`: what was written, then what it was.
    written : ℕ → List S
    written b = tabulate 0 b (λ i. line (at multiplicand) i r) ++ drop b multiplicand

    get_elem?-written :
        (b j : ℕ)
        → b ≤ j
        → j < length multiplicand
        → get_elem? (written b) j ≡ some (at multiplicand j)
    unfolding written
    get_elem?-written b j le lt =
        get_elem?-append_right (tabulate 0 b _) (drop b multiplicand) b (j - b) j
          (length-tabulate 0 b _) (omega arith)
        ∙ get_elem?-drop b (j - b) j multiplicand (omega arith)
        ∙ get_elem?-at multiplicand j lt

    set_elem?-written :
        (b : ℕ)
        → b < length multiplicand
        → set_elem? (written b) b (line (at multiplicand) b r) ≡ some (written (suc b))
    unfolding written
    set_elem?-written b lt =
        let (x, e) = drop-cons b multiplicand lt in
        rw
          (
            e,
            set_elem?-append (tabulate 0 b _) (drop (suc b) multiplicand) x
                (line (at multiplicand) b r) b (length-tabulate 0 b _),
          )
          (ap some (
            sym (append_assoc (tabulate 0 b _) (line (at multiplicand) b r ∷ []) _)
            ∙ ap (λ l. l ++ drop (suc b) multiplicand)
                (tabulate-append 0 b b 1 (suc b) (λ i. line (at multiplicand) i r) (omega arith)
                  (omega arith))))

    fix_rows-written :
        (rows b : ℕ)
        → (b + rows) * 2 ≤ length multiplicand
        → fix_rows rows b r (written b) ≡ ok (written (b + rows))
    unfolding fix_rows
    fix_rows-written zero b h = ap (λ k. ok (written k)) {x = b} {y = b + 0} (omega arith)
    fix_rows-written (suc rows) b h =
        rw
          (
            get_elem?-written b (b * 2) (omega arith) (omega arith),
            get_elem?-written b (b * 2 + 1) (omega arith) (omega arith),
            set_elem?-written b (omega arith),
          )
          (fix_rows-written rows (suc b) (omega arith)
            ∙ ap (λ k. ok (written k)) {x = suc b + rows} {y = b + suc rows} (omega arith))

    -- `in_place_fix_variable` of a table with at least `2 * 2 ^ n` entries, `n` above zero: though
    -- each round reads and writes the same table, the first `2 ^ n` entries become those of the
    -- lines through the pairs of entries of the table that was given, at `r`, and the other entries
    -- stay.
    pub in_place_fix_variable-line :
        (n : ℕ)
        → 0 < n
        → 2 ^ suc n ≤ length multiplicand
        → in_place_fix_variable multiplicand r n
          ≡ ok (tabulate 0 (2 ^ n) (λ b. line (at multiplicand) b r) ++ drop (2 ^ n) multiplicand)
    unfolding in_place_fix_variable written
    in_place_fix_variable-line n pos h = rw (lt→ltb 0 n pos) (
        fix_rows-written (2 ^ n) 0 (omega (arith, pow_double n))
        ∙ ap (λ k. ok (written k)) {x = 0 + 2 ^ n} {y = 2 ^ n} (omega arith))
