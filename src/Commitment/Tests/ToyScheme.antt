-- ===== src/Commitment/Tests/ToyScheme.antt =====
-- A linear commitment scheme over the integers: row `i` of a column is weighted by the generator
-- `i + 1`. (It hides and binds nothing; it shows that the laws can be met.)
use sxt_proof_of_sql.Shared.{
  ℕ, ◌+◌, suc, Bool, List, [], ◌∷◌, ◌++◌, length, length-map, map, ◌≡◌, ◌∙◌, ap, refl, sym, arith,
  if◌then◌else◌,
}
use sxt_proof_of_sql.Shared.Int.{ℤ, pos, ◌+ℤ◌, ◌-ℤ◌, ◌*ℤ◌, +ℤ_comm, +ℤ_assoc, +ℤ_cancel, int_laws}
use mathlib.Core.List.{map-append}
use native.Mathlib.Nat.{add-zero}
use sxt_proof_of_sql.Commitment.CommittableColumn.{
  CommittableColumn, Limbs, column_type, concat, len,
}
use sxt_proof_of_sql.Commitment.Scheme.{Scheme, IsLinear}

weigh : ℕ → List ℤ → ℤ
weigh offset [] = pos 0
weigh offset (x ∷ xs) = pos (offset + 1) *ℤ x +ℤ weigh (offset + 1) xs

low_limb : Limbs → ℤ
low_limb l = pos l.0

from_bool : Bool → ℤ
from_bool b = if b then pos 1 else pos 0

unfoldable pub commit_column : CommittableColumn → ℕ → Unit {0} → ℤ
unfolding weigh low_limb from_bool
commit_column (CommittableColumn.boolean col) offset u = weigh offset (map from_bool col)
commit_column (CommittableColumn.small_int col) offset u = weigh offset col
commit_column (CommittableColumn.int col) offset u = weigh offset col
commit_column (CommittableColumn.big_int col) offset u = weigh offset col
commit_column (CommittableColumn.int128 col) offset u = weigh offset col
commit_column (CommittableColumn.decimal75 p s col) offset u = weigh offset (map low_limb col)
commit_column (CommittableColumn.scalar col) offset u = weigh offset (map low_limb col)
commit_column (CommittableColumn.varchar col) offset u = weigh offset (map low_limb col)

weigh-append :
    (offset : ℕ) (xs ys : List ℤ)
    → weigh offset (xs ++ ys) ≡ weigh offset xs +ℤ weigh (offset + length xs) ys
unfolding weigh
weigh-append offset [] ys = rw add-zero (omega int_laws)
weigh-append offset (x ∷ xs) ys =
    rw (weigh-append (offset + 1) xs ys, shifted (length xs))
      (sym (+ℤ_assoc (pos (offset + 1) *ℤ x) (weigh (offset + 1) xs) _))
  where
    shifted : (n : ℕ) → offset + 1 + n ≡ offset + suc n
    shifted n = omega arith

weigh-map :
    {A : Type 0} (f : A → ℤ) (offset : ℕ) (xs ys : List A)
    → weigh offset (map f (xs ++ ys))
      ≡ weigh offset (map f xs) +ℤ weigh (offset + length xs) (map f ys)
weigh-map f offset xs ys =
    ap (weigh offset) (map-append f xs ys)
    ∙ weigh-append offset (map f xs) (map f ys)
    ∙ ap (λ n. weigh offset (map f xs) +ℤ weigh (offset + n) (map f ys)) (length-map xs f)

pub commit_column-concat :
    (c d : CommittableColumn) (offset : ℕ) (u : Unit {0})
    → column_type c ≡ column_type d
    → commit_column (concat c d) offset u
      ≡ commit_column c offset u +ℤ commit_column d (offset + len c) u
unfolding commit_column column_type concat len
commit_column-concat (CommittableColumn.boolean xs) (CommittableColumn.boolean ys) offset u h =
    weigh-map from_bool offset xs ys
commit_column-concat (CommittableColumn.small_int xs) (CommittableColumn.small_int ys) offset u h =
    weigh-append offset xs ys
commit_column-concat (CommittableColumn.int xs) (CommittableColumn.int ys) offset u h =
    weigh-append offset xs ys
commit_column-concat (CommittableColumn.big_int xs) (CommittableColumn.big_int ys) offset u h =
    weigh-append offset xs ys
commit_column-concat (CommittableColumn.int128 xs) (CommittableColumn.int128 ys) offset u h =
    weigh-append offset xs ys
commit_column-concat (CommittableColumn.decimal75 p s xs) (CommittableColumn.decimal75 q t ys)
      offset u h =
    weigh-map low_limb offset xs ys
commit_column-concat (CommittableColumn.scalar xs) (CommittableColumn.scalar ys) offset u h =
    weigh-map low_limb offset xs ys
commit_column-concat (CommittableColumn.varchar xs) (CommittableColumn.varchar ys) offset u h =
    weigh-map low_limb offset xs ys
commit_column-concat _ _ offset u h = cc

abbrev pub toy : Scheme
toy = record {
  Point = ℤ;
  PublicSetup = Unit {0};
  default = pos 0;
  add = λ a b. a +ℤ b;
  sub = λ a b. a -ℤ b;
  compute_commitments = λ out columns offset setup. map (λ c. commit_column c offset setup) columns;
}

abbrev pub toy_linear : IsLinear toy
toy_linear = record {
  commit = commit_column;
  computes = λ out columns offset setup h. refl;
  commit-concat = commit_column-concat;
  add_comm = +ℤ_comm;
  sub-add = +ℤ_cancel;
}
