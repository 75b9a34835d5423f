-- ===== src/Proof/CompositePolynomialBuilder/Shares.antt =====
-- `create_multiplicand_with_deduplicated_mles` of
-- crates/proof-of-sql/src/sql/proof/composite_polynomial_builder.rs: the vectors that it shares have
-- the entries of the terms.
use sxt_proof_of_sql.Shared.{
  ℕ, zero, suc, ◌+◌, ◌-◌, ◌^◌, ◌≤◌, ◌<◌, ◌≡◌, refl, sym, ap, ap₂, ◌∙◌, arith, true, Bool-cases, inl,
  inr, Option, none, some, List, [], ◌∷◌, ◌++◌, length, length-append, get_elem?, replicate, All,
  ok, leb, ◌==◌, ==_iff,
}
use mathlib.Core.Option.{some-injective}
use sxt_proof_of_sql.Scalar.{Scalar, ◌⊗◌}
use sxt_proof_of_sql.Polynomial.Composite.{Rc}
use sxt_proof_of_sql.Polynomial.Composite.AddProduct.{get_elem?-append_left, get_elem?-append_last}
use sxt_proof_of_sql.Polynomial.MultilinearExtension.{MultilinearExtension, to_sumcheck_term}
use sxt_proof_of_sql.Sumcheck.Tables.{at}
use sxt_proof_of_sql.Proof.CompositePolynomialBuilder.{
  CompositePolynomialBuilder, get_mle, share_mle, create_multiplicand_with_deduplicated_mles,
}
use sxt_proof_of_sql.Proof.CompositePolynomialBuilder.Represents.{row_product}

pub le-leb : (a b : ℕ) → a ≤ b → leb a b ≡ true
le-leb a b h = ground arith

module _ {S : Type 0} where
  -- The vector stands at its address in the list of all vectors.
  abbrev pub IsKnown : List (List S) → Rc S → Type 0
  IsKnown contents m = get_elem? contents m.address ≡ some m.entries

  abbrev pub AreKnown : List (List S) → List (S × List (Rc S)) → Type 0
  AreKnown contents = All λ p. (0 < length p.1) × All (IsKnown contents) p.1

  -- Nothing that is known is forgotten.
  abbrev pub Grows : List (List S) → List (List S) → Type 0
  Grows before after =
      (i : ℕ) (t : List S) → get_elem? before i ≡ some t → get_elem? after i ≡ some t

  pub IsKnown-Grows :
      (before after : List (List S)) (ms : List (Rc S))
      → Grows before after
      → All (IsKnown before) ms
      → All (IsKnown after) ms
  IsKnown-Grows before after [] grows h = tt
  IsKnown-Grows before after (m ∷ ms) grows (known, h) =
      (grows m.address m.entries known, IsKnown-Grows before after ms grows h)

  pub AreKnown-Grows :
      (before after : List (List S)) (ps : List (S × List (Rc S)))
      → Grows before after
      → AreKnown before ps
      → AreKnown after ps
  AreKnown-Grows before after [] grows h = tt
  AreKnown-Grows before after (p ∷ ps) grows ((pos, known), h) =
      ((pos, IsKnown-Grows before after p.1 grows known), AreKnown-Grows before after ps grows h)

  pub AreKnown-last :
      (contents : List (List S)) (ps : List (S × List (Rc S))) (c : S) (ms : List (Rc S))
      → AreKnown contents ps
      → 0 < length ms
      → All (IsKnown contents) ms
      → AreKnown contents (ps ++ ((c, ms) ∷ []))
  AreKnown-last contents [] c ms h pos known = ((pos, known), tt)
  AreKnown-last contents (p ∷ ps) c ms (first, h) pos known =
      (first, AreKnown-last contents ps c ms h pos known)

module _ {S : Type 0} ⦃s : Scalar S⦄ where
  pub at-append_zeros : (xs : List S) (k b : ℕ) → at (xs ++ replicate k s.zero) b ≡ at xs b
  at-append_zeros [] zero b = refl
  at-append_zeros [] (suc k) zero = refl
  at-append_zeros [] (suc k) (suc b) = at-append_zeros [] k b
  at-append_zeros (x ∷ xs) k zero = refl
  at-append_zeros (x ∷ xs) k (suc b) = at-append_zeros xs k b

  -- The product of the terms in a row.
  abbrev pub term_row : ℕ → List (MultilinearExtension S) → S
  term_row b [] = s.one
  term_row b (t ∷ terms) = at t.values b ⊗ term_row b terms

  -- What the vectors of a builder hold: all of them are known, the next address is free, `fr` ends
  -- after `size` entries, and a vector found by an id has the entries of the slice with that id.
  pub record IsBuilder (slices : ℕ → List S) (n size : ℕ) (contents : List (List S))
      (v : CompositePolynomialBuilder S) : Type 0 where
    pub variables : v.num_sumcheck_variables ≡ n
    pub degree1_size : length v.fr_multiplicands_degree1 ≡ size
    pub next_free : v.next_address ≡ length contents
    pub fr_known : IsKnown contents v.fr
    pub fr_past : (b : ℕ) → size ≤ b → at v.fr.entries b ≡ s.zero
    pub mles_known :
        (id : ℕ) (m : Rc S)
        → get_mle v.mles id ≡ some m
        → IsKnown contents m × ((b : ℕ) → at m.entries b ≡ at (slices id) b)
    pub rest_known : AreKnown contents v.fr_multiplicands_rest
    pub zerosum_known : AreKnown contents v.zerosum_multiplicands

  -- The term is the slice of its id, of at most `size` entries.
  abbrev pub IsSlice : (ℕ → List S) → ℕ → MultilinearExtension S → Type 0
  IsSlice slices size t = (t.values ≡ slices t.id) × (length t.values ≤ size)

  -- The builder with other vectors only.
  abbrev pub SharesOnly : CompositePolynomialBuilder S → CompositePolynomialBuilder S → Type 0
  SharesOnly v w =
      (w.fr ≡ v.fr)
      × (w.fr_multiplicands_degree1 ≡ v.fr_multiplicands_degree1)
      × (w.fr_multiplicands_rest ≡ v.fr_multiplicands_rest)
      × (w.zerosum_multiplicands ≡ v.zerosum_multiplicands)

  share_mle-IsBuilder :
      (slices : ℕ → List S) (n size : ℕ) (contents : List (List S))
      (v : CompositePolynomialBuilder S) (t : MultilinearExtension S) (found : Option (Rc S))
      → IsBuilder slices n size contents v
      → size ≤ 2 ^ n
      → IsSlice slices size t
      → get_mle v.mles t.id ≡ found
      → (w : CompositePolynomialBuilder S) × (m : Rc S) × (after : List (List S)) × (share_mle v t
            found
          ≡ ok (w, m))
        × Grows contents after
        × IsBuilder slices n size after w
        × SharesOnly v w
        × IsKnown after m
        × ((b : ℕ) → at m.entries b ≡ at t.values b)
  unfolding share_mle to_sumcheck_term get_mle
  share_mle-IsBuilder slices n size contents v t (some m) h fits (same, short) e =
      let (known, entries) = h.mles_known t.id m e in
      (
        v,
        m,
        contents,
        refl,
        (λ i u k. k),
        h,
        (refl, refl, refl, refl),
        known,
        λ b. entries b ∙ ap (λ l. at l b) (sym same),
      )
  share_mle-IsBuilder slices n size contents v t none h fits (same, short) e =
      let padded : List S =
        t.values ++ replicate (2 ^ v.num_sumcheck_variables - length t.values) s.zero in
      let m : Rc S = record { address = v.next_address; entries = padded } in
      let grows : Grows contents (contents ++ (padded ∷ [])) =
        λ i u k. get_elem?-append_left contents (padded ∷ []) i u k in
      let known : IsKnown (contents ++ (padded ∷ [])) m =
        ap (get_elem? (contents ++ (padded ∷ []))) h.next_free
        ∙ get_elem?-append_last contents padded in
      let entries : (b : ℕ) → at padded b ≡ at t.values b =
        λ b. at-append_zeros t.values (2 ^ v.num_sumcheck_variables - length t.values) b in
      (
        record v { mles = (t.id, m) ∷ v.mles; next_address = v.next_address + 1 },
        m,
        contents ++ (padded ∷ []),
        rw (
            le-leb (length t.values) (2 ^ v.num_sumcheck_variables)
              (rw h.variables (omega (arith, short, fits)))),
        grows,
        record {
          variables = h.variables;
          degree1_size = h.degree1_size;
          next_free = omega (arith, h.next_free, length-append contents (padded ∷ []));
          fr_known = grows v.fr.address v.fr.entries h.fr_known;
          fr_past = h.fr_past;
          mles_known = found_in _ m grows known (λ b. entries b ∙ ap (λ l. at l b) same);
          rest_known = AreKnown-Grows contents _ v.fr_multiplicands_rest grows h.rest_known;
          zerosum_known = AreKnown-Grows contents _ v.zerosum_multiplicands grows h.zerosum_known;
        },
        (refl, refl, refl, refl),
        known,
        entries,
      )
    where
      found_in :
          (after : List (List S)) (m : Rc S)
          → Grows contents after
          → IsKnown after m
          → ((b : ℕ) → at m.entries b ≡ at (slices t.id) b)
          → (id : ℕ) (u : Rc S) → get_mle ((t.id, m) ∷ v.mles) id ≡ some u
          → IsKnown after u × ((b : ℕ) → at u.entries b ≡ at (slices id) b)
      found_in after m grows known entries id u k = elim (Bool-cases (t.id == id)) [
        | inl here ↦
            rw (← some-injective _ _ (rw here at k), ← (==_iff t.id id).0 here) (known, entries)
        | inr other ↦
            let (old, values) = h.mles_known id u (rw other at k) in
            (grows u.address u.entries old, values)
      ]

  pub create_multiplicand-IsBuilder :
      (slices : ℕ → List S) (n size : ℕ) (contents : List (List S))
      (v : CompositePolynomialBuilder S) (terms : List (MultilinearExtension S))
      → IsBuilder slices n size contents v
      → size ≤ 2 ^ n
      → All (IsSlice slices size) terms
      → (w : CompositePolynomialBuilder S) × (ms : List (Rc S)) × (after : List (List S))
        × (create_multiplicand_with_deduplicated_mles v terms ≡ ok (w, ms))
        × Grows contents after
        × IsBuilder slices n size after w
        × SharesOnly v w
        × All (IsKnown after) ms
        × (length ms ≡ length terms)
        × ((b : ℕ) → row_product b ms ≡ term_row b terms)
  unfolding create_multiplicand_with_deduplicated_mles
  create_multiplicand-IsBuilder slices n size contents v [] h fits slice =
      (v, [], contents, refl, (λ i u k. k), h, (refl, refl, refl, refl), tt, refl, λ b. refl)
  create_multiplicand-IsBuilder slices n size contents v (t ∷ terms) h fits (slice, slices_rest) =
      let (w, m, after, e, grows, h', (fr, degree1, rest, zerosum), known, entries) =
        share_mle-IsBuilder slices n size contents v t (get_mle v.mles t.id) h fits slice refl in
      let (w', ms, after', e', grows', h'', (fr', degree1', rest', zerosum'), knowns, count, rows) =
        create_multiplicand-IsBuilder slices n size after w terms h' fits slices_rest in
      (
        w',
        m ∷ ms,
        after',
        rw (e, e'),
        (λ i u k. grows' i u (grows i u k)),
        h'',
        (fr' ∙ fr, degree1' ∙ degree1, rest' ∙ rest, zerosum' ∙ zerosum),
        (grows' m.address m.entries known, knowns),
        ap suc count,
        λ b. ap₂ ◌⊗◌ (entries b) (rows b),
      )
