-- ===== src/Diff/Hirschberg/Rows.antt =====
-- The loops of a pass compute the table row by row, within the bounds of the two rows.
use native.Mathlib.Numerals.{add-one}
use native.Mathlib.Nat.{le_refl}
use niceyaml.Prelude.{
  ℕ, zero, suc, ◌+◌, ◌≤◌, ◌<◌, ◌≡◌, refl, sym, ◌∙◌, List, some, arith, length, get_elem?, set,
  length-set, get_elem?-set_self, get_elem?-set_ne, Outcome, ok, put, lt→ltb, Bool-cases, inl, inr,
  ℕ_discrete, Eq, ◌=?◌,
}
use niceyaml.Diff.Hirschberg.{clear, cell, fill_row}
use niceyaml.Diff.Hirschberg.Table.{lcs, lcs-pair, lcs-skip}

-- The cells of a row up to `n`, `n` included.
abbrev pub Holds : List ℕ → ℕ → (ℕ → ℕ) → Type 0
Holds row n t = (j : ℕ) → j ≤ n → get_elem? row j ≡ some (t j)

pub Holds-set :
    (row : List ℕ) (n : ℕ) (t : ℕ → ℕ)
    → suc n < length row
    → Holds row n t
    → Holds (set row (suc n) (t (suc n))) (suc n) t
Holds-set row n t h holds j p = elim (ℕ_discrete j (suc n)) [
  | yes e ↦ rw e (get_elem?-set_self row (suc n) (t (suc n)) h)
  | no ne ↦ get_elem?-set_ne row (t (suc n)) (λ e. ne (sym e)) ∙ holds j (omega arith)
]

-- A write within bounds succeeds.
pub put_lem {ℓ} :
    {A : Type ℓ} (row : List A) (i : ℕ) (v : A) → i < length row → put row i v ≡ ok (set row i v)
put_lem row i v h = rw (lt→ltb _ _ h)

-- How a loop over a row ends: with a row of the same length that holds `t` up to `n`.
pub record Filled (run : Outcome (List ℕ)) (size n : ℕ) (t : ℕ → ℕ) : Type 0 where
  pub row : List ℕ
  pub runs : run ≡ ok row
  pub size_kept : length row ≡ size
  pub holds : Holds row n t

pub clear-Filled :
    (n : ℕ) (row : List ℕ) → n < length row → Filled (clear (suc n) row) (length row) n (λ _. 0)
unfolding clear
clear-Filled zero row h = record {
  row = set row 0 0;
  runs = put_lem row 0 0 h;
  size_kept = length-set row 0 0;
  holds = λ j p. let e : j ≡ 0 = omega arith in rw e (get_elem?-set_self row 0 0 h);
}
clear-Filled (suc n) row h =
    let c : Filled (clear (suc n) row) (length row) n (λ _. 0) = clear-Filled n row (omega arith) in
    let fits : suc n < length c.row = omega (arith, c.size_kept) in
    record {
      row = set c.row (suc n) 0;
      runs = rw (c.runs) (put_lem c.row (suc n) 0 fits);
      size_kept = length-set c.row (suc n) 0 ∙ c.size_kept;
      holds = Holds-set c.row n (λ _. 0) fits c.holds;
    }

module _ {ℓ} {A : Type ℓ} ⦃e : Eq A⦄ (before after : List A) (line col : ℕ → ℕ) where
  -- The table of the lines in the order in which the pass visits them.
  abbrev pub table : ℕ → ℕ → ℕ
  table = lcs (λ k. get_elem? before (line k)) (λ j. get_elem? after (col j))

  cell_lem :
      (x y : A) (row0 row1 : List ℕ) (m j : ℕ)
      → get_elem? before (line m) ≡ some x
      → get_elem? after (col j) ≡ some y
      → get_elem? row0 j ≡ some (table m j)
      → get_elem? row0 (suc j) ≡ some (table m (suc j))
      → get_elem? row1 j ≡ some (table (suc m) j)
      → cell before after x y row0 row1 j ≡ ok (table (suc m) (suc j))
  cell_lem x y row0 row1 m j hx hy diagonal up left = elim (Bool-cases (x =? y)) [
    | inl eq ↦ rw (eq, diagonal, lcs-pair _ _ m j hx hy eq, add-one)
    | inr ne ↦ rw (ne, add-one, left, up, lcs-skip _ _ m j hx hy ne)
  ]

  -- The inner loop completes row `m + 1` from row `m`.
  pub fill_row-Filled :
      (m n : ℕ) {x : A} (row0 : List ℕ)
      → get_elem? before (line m) ≡ some x
      → ((j : ℕ) → j < n → (y : A) × (get_elem? after (col j) ≡ some y))
      → Holds row0 n (table m)
      → (j count : ℕ) (row1 : List ℕ) → j + count ≡ n
      → n < length row1
      → Holds row1 j (table (suc m))
      → Filled
          (fill_row before after col (line m) row0 j count row1)
          (length row1)
          n
          (table (suc m))
  unfolding fill_row
  fill_row-Filled m n row0 hx cols above j zero row1 end fits holds = record {
    row = row1;
    runs = refl;
    size_kept = refl;
    holds = λ k p. holds k (omega arith);
  }
  fill_row-Filled m n {x} row0 hx cols above j (suc count) row1 end fits holds =
      let (y, hy) = cols j (omega arith) in
      let v : ℕ = table (suc m) (suc j) in
      let value : cell before after x y row0 row1 j ≡ ok v =
        cell_lem x y row0 row1 m j hx hy (above j (omega arith)) (above (suc j) (omega arith))
          (holds j (le_refl j)) in
      let r : Filled (fill_row before after col (line m) row0 (suc j) count (set row1 (suc j) v))
          (length (set row1 (suc j) v)) n (table (suc m)) =
        fill_row-Filled m n row0 hx cols above (suc j) count (set row1 (suc j) v) (omega arith)
          (omega (arith, length-set row1 (suc j) v))
          (Holds-set row1 j (table (suc m)) (omega arith) holds) in
      record {
        row = r.row;
        runs = rw (hx, hy, value, add-one, put_lem row1 (suc j) v (omega arith)) r.runs;
        size_kept = r.size_kept ∙ length-set row1 (suc j) v;
        holds = r.holds;
      }
