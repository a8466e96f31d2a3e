-- ===== src/Diff/Hirschberg/Passes.antt =====
-- `forward` and `backward`: neither panics, each returns a row of the table, and neither touches
-- the operations.
use native.Mathlib.Numerals.{add-one}
use niceyaml.Prelude.{
  ◌==◌, false, ℕ, zero, suc, ◌+◌, ◌-◌, ◌≤◌, ◌<◌, ◌≡◌, refl, ◌∙◌, List, ◌++◌, some, arith, length,
  get_elem?, set, take, drop, length-set, length-take, length-drop, length-append,
  get_elem?-set_self, get_elem?-take, get_elem?-append_left, Outcome, ok, Eq, get_elem?_total,
}
use niceyaml.Diff.Hirschberg.{
  Hirschberg, Pass, clear, fill_row, fill_rows, pass, copy_prefix, forward, backward,
}
use niceyaml.Diff.Hirschberg.Table.{lcs-no_lines, lcs-no_cols}
use niceyaml.Diff.Hirschberg.Rows.{Holds, Filled, clear-Filled, put_lem, table, fill_row-Filled}

-- All buffers have one length.
pub record Sized (h : Hirschberg) (size : ℕ) : Type 0 where
  pub row0_size : length h.row0 ≡ size
  pub row1_size : length h.row1 ≡ size
  pub fwd_size : length h.fwd_result ≡ size
  pub bwd_size : length h.bwd_result ≡ size

record Swept (run : Outcome (List ℕ × List ℕ)) (size n : ℕ) (t : ℕ → ℕ) : Type 0 where
  old : List ℕ
  new : List ℕ
  runs : run ≡ ok (old, new)
  old_size : length old ≡ size
  new_size : length new ≡ size
  holds : Holds new n t

record Passed (run : Outcome Pass) (size n : ℕ) (t : ℕ → ℕ) : Type 0 where
  value : Pass
  runs : run ≡ ok value
  old_size : length value.rows.0 ≡ size
  new_size : length value.rows.1 ≡ size
  src_size : length value.src ≡ size
  holds : Holds value.src n t

pub record Ran (run : Outcome (Hirschberg × List ℕ)) (h : Hirschberg) (size n : ℕ) (t : ℕ → ℕ)
    : Type 0 where
  pub state : Hirschberg
  pub result : List ℕ
  pub runs : run ≡ ok (state, result)
  pub sized : Sized state size
  pub ops_kept : state.ops ≡ h.ops
  pub holds : Holds result n t

-- `Reads xs pick n`: the first `n` lines that `pick` names exist.
abbrev pub Reads {ℓ} : {A : Type ℓ} → List A → (ℕ → ℕ) → ℕ → Type ℓ
Reads {A} xs pick n = (k : ℕ) → k < n → (x : A) × (get_elem? xs (pick k) ≡ some x)

copy_prefix_lem :
    (n : ℕ) (dst src : List ℕ)
    → n ≤ length dst
    → n ≤ length src
    → copy_prefix n dst src ≡ ok (take n src ++ drop n dst)
unfolding copy_prefix
copy_prefix_lem n dst src p q = ground arith

copied_size :
    (n : ℕ) (dst src : List ℕ)
    → n ≤ length dst
    → n ≤ length src
    → length (take n src ++ drop n dst) ≡ length dst
copied_size n dst src p q =
    omega (arith, length-append (take n src) (drop n dst), length-take n src, length-drop n dst)

copied-Holds :
    (n : ℕ) (dst src : List ℕ) (t : ℕ → ℕ)
    → suc n ≤ length src
    → Holds src n t
    → Holds (take (suc n) (take (suc n) src ++ drop (suc n) dst)) n t
copied-Holds n dst src t q holds j p =
    get_elem?-take (suc n) (take (suc n) src ++ drop (suc n) dst) j (omega arith)
    ∙ get_elem?-append_left (take (suc n) src) (drop (suc n) dst) j
        (omega (arith, length-take (suc n) src))
    ∙ get_elem?-take (suc n) src j (omega arith)
    ∙ holds j p

module _ {ℓ} {A : Type ℓ} ⦃e : Eq A⦄ (before after : List A) (line col : ℕ → ℕ) (n size : ℕ) where
  fill_rows-Swept :
      n < size
      → Reads after col n
      → (m k count : ℕ) (row0 row1 : List ℕ) → Reads before line m
      → k + count ≡ m
      → length row0 ≡ size
      → length row1 ≡ size
      → Holds row1 n (table before after line col k)
      → Swept
          (fill_rows before after line col n k count row0 row1)
          size
          n
          (table before after line col m)
  unfolding fill_rows
  fill_rows-Swept fits cols m k zero row0 row1 lines end s₀ s₁ holds = record {
    old = row0;
    new = row1;
    runs = refl;
    old_size = s₀;
    new_size = s₁;
    holds = let e' : m ≡ k = omega arith in rw e' holds;
  }
  fill_rows-Swept fits cols m k (suc count) row0 row1 lines end s₀ s₁ holds =
      let (x, hx) = lines k (omega arith) in
      let t : ℕ → ℕ = table before after line col (suc k) in
      let first : Holds (set row0 0 0) 0 t = λ j p.
        let e' : j ≡ 0 = omega arith in
        rw (e', lcs-no_cols _ _ (suc k)) (get_elem?-set_self row0 0 0 (omega arith)) in
      let r : Filled (fill_row before after col (line k) row1 0 n (set row0 0 0))
          (length (set row0 0 0)) n t =
        fill_row-Filled before after line col k n row1 hx cols holds 0 n (set row0 0 0)
          (omega arith) (omega (arith, length-set row0 0 0)) first in
      let s : Swept (fill_rows before after line col n (suc k) count row1 r.row) size n
          (table before after line col m) =
        fill_rows-Swept fits cols m (suc k) count row1 r.row lines (omega arith) s₁
          (r.size_kept ∙ length-set row0 0 0 ∙ s₀) r.holds in
      record {
        old = s.old;
        new = s.new;
        runs = rw (put_lem row0 0 0 (omega arith), r.runs, add-one) s.runs;
        old_size = s.old_size;
        new_size = s.new_size;
        holds = s.holds;
      }

  pass-Passed :
      n < size
      → Reads after col n
      → (m : ℕ) (h : Hirschberg) → Reads before line m
      → Sized h size
      → Passed (pass before after line col m n h) size n (table before after line col m)
  unfolding pass
  pass-Passed fits cols zero h lines s =
      let c₀ : Filled (clear (suc n) h.row0) (length h.row0) n (λ _. 0) =
        clear-Filled n h.row0 (omega (arith, s.row0_size)) in
      let c₁ : Filled (clear (suc n) h.row1) (length h.row1) n (λ _. 0) =
        clear-Filled n h.row1 (omega (arith, s.row1_size)) in
      record {
        value = record { rows = (c₀.row, c₁.row); src = c₀.row };
        runs = rw (add-one, c₀.runs, c₁.runs, fill_rows);
        old_size = c₀.size_kept ∙ s.row0_size;
        new_size = c₁.size_kept ∙ s.row1_size;
        src_size = c₀.size_kept ∙ s.row0_size;
        holds = λ j p. rw lcs-no_lines (c₀.holds j p);
      }
  pass-Passed fits cols (suc m) h lines s =
      let c₀ : Filled (clear (suc n) h.row0) (length h.row0) n (λ _. 0) =
        clear-Filled n h.row0 (omega (arith, s.row0_size)) in
      let c₁ : Filled (clear (suc n) h.row1) (length h.row1) n (λ _. 0) =
        clear-Filled n h.row1 (omega (arith, s.row1_size)) in
      let zeros : Holds c₁.row n (table before after line col 0) =
        λ j p. rw lcs-no_lines (c₁.holds j p) in
      let r : Swept (fill_rows before after line col n 0 (suc m) c₀.row c₁.row) size n
          (table before after line col (suc m)) =
        fill_rows-Swept fits cols (suc m) 0 (suc m) c₀.row c₁.row lines (omega arith)
          (c₀.size_kept ∙ s.row0_size) (c₁.size_kept ∙ s.row1_size) zeros in
      let some_lines : (suc m == 0) ≡ false = ground arith in
      record {
        value = record { rows = (r.old, r.new); src = r.new };
        runs = rw (add-one, c₀.runs, c₁.runs, r.runs, some_lines);
        old_size = r.old_size;
        new_size = r.new_size;
        src_size = r.new_size;
        holds = r.holds;
      }

module _ {ℓ} {A : Type ℓ} ⦃e : Eq A⦄ (before after : List A) where
  -- The table of a forward pass over `before[b_start:]` and `after[a_start:]`.
  abbrev pub table_from : (b_start a_start : ℕ) → ℕ → ℕ → ℕ
  table_from b_start a_start = table before after (λ k. b_start + k) (λ j. a_start + j)

  -- The table of a backward pass over `before[:b_end]` and `after[:a_end]`.
  abbrev pub table_to : (b_end a_end : ℕ) → ℕ → ℕ → ℕ
  table_to b_end a_end = table before after (λ k. b_end - 1 - k) (λ j. a_end - 1 - j)

  pub forward-Ran :
      (b_start b_mid a_start a_end size : ℕ) (h : Hirschberg)
      → Sized h size
      → b_mid ≤ length before
      → a_end ≤ length after
      → a_end - a_start < size
      → Ran
          (forward before after b_start b_mid a_start a_end h)
          h
          size
          (a_end - a_start)
          (table_from b_start a_start (b_mid - b_start))
  unfolding forward
  forward-Ran b_start b_mid a_start a_end size h s b_fits a_fits fits =
      let n : ℕ = a_end - a_start in
      let line : ℕ → ℕ = λ k. b_start + k in
      let col : ℕ → ℕ = λ j. a_start + j in
      let r : Passed (pass before after line col (b_mid - b_start) n h) size n
          (table_from b_start a_start (b_mid - b_start)) =
        pass-Passed before after line col n size fits
          (λ k p. get_elem?_total after (a_start + k) (omega arith)) (b_mid - b_start) h
          (λ k p. get_elem?_total before (b_start + k) (omega arith)) s in
      let copied : List ℕ = take (suc n) r.value.src ++ drop (suc n) h.fwd_result in
      let src_fits : suc n ≤ length r.value.src = omega (arith, r.src_size) in
      let dst_fits : suc n ≤ length h.fwd_result = omega (arith, s.fwd_size) in
      record {
        state = record h { row0 = r.value.rows.0; row1 = r.value.rows.1; fwd_result = copied };
        result = take (suc n) copied;
        runs =
            rw
              (r.runs, add-one, copy_prefix_lem (suc n) h.fwd_result r.value.src dst_fits src_fits);
        sized = record {
          row0_size = r.old_size;
          row1_size = r.new_size;
          fwd_size = copied_size (suc n) h.fwd_result r.value.src dst_fits src_fits ∙ s.fwd_size;
          bwd_size = s.bwd_size;
        };
        ops_kept = refl;
        holds = copied-Holds n h.fwd_result r.value.src _ src_fits r.holds;
      }

  pub backward-Ran :
      (b_mid b_end a_start a_end size : ℕ) (h : Hirschberg)
      → Sized h size
      → b_end ≤ length before
      → a_end ≤ length after
      → a_end - a_start < size
      → Ran
          (backward before after b_mid b_end a_start a_end h)
          h
          size
          (a_end - a_start)
          (table_to b_end a_end (b_end - b_mid))
  unfolding backward
  backward-Ran b_mid b_end a_start a_end size h s b_fits a_fits fits =
      let n : ℕ = a_end - a_start in
      let line : ℕ → ℕ = λ k. b_end - 1 - k in
      let col : ℕ → ℕ = λ j. a_end - 1 - j in
      let r : Passed (pass before after line col (b_end - b_mid) n h) size n
          (table_to b_end a_end (b_end - b_mid)) =
        pass-Passed before after line col n size fits
          (λ k p. get_elem?_total after (a_end - 1 - k) (omega arith)) (b_end - b_mid) h
          (λ k p. get_elem?_total before (b_end - 1 - k) (omega arith)) s in
      let copied : List ℕ = take (suc n) r.value.src ++ drop (suc n) h.bwd_result in
      let src_fits : suc n ≤ length r.value.src = omega (arith, r.src_size) in
      let dst_fits : suc n ≤ length h.bwd_result = omega (arith, s.bwd_size) in
      record {
        state = record h { row0 = r.value.rows.0; row1 = r.value.rows.1; bwd_result = copied };
        result = take (suc n) copied;
        runs =
            rw
              (r.runs, add-one, copy_prefix_lem (suc n) h.bwd_result r.value.src dst_fits src_fits);
        sized = record {
          row0_size = r.old_size;
          row1_size = r.new_size;
          fwd_size = s.fwd_size;
          bwd_size = copied_size (suc n) h.bwd_result r.value.src dst_fits src_fits ∙ s.bwd_size;
        };
        ops_kept = refl;
        holds = copied-Holds n h.bwd_result r.value.src _ src_fits r.holds;
      }
