-- ===== src/Diff/Hirschberg.antt =====
-- diff/hirschberg.go: the buffers, the two table passes and the divide-and-conquer recursion.
-- A slice is a list with the language's bounds check, so a run may panic; the recursion has fuel.
mod Table
mod Rows
mod Passes
mod Middle
mod Optimal
mod Emit
mod Split
mod Recursion
pub mod Correct
use niceyaml.Prelude.{
  ℕ, zero, suc, ◌+◌, ◌-◌, ◌/◌, min, max, Bool, true, ◌&&◌, List, [], ◌∷◌, ◌++◌, Option, none, some,
  Outcome, ok, panic, out_of_fuel, ◌>>=◌, at, put, length, take, drop, replicate, leb, ltb, ◌==◌,
  if◌then◌else◌, Eq, ◌=?◌,
}
use niceyaml.Diff.{Op}
use niceyaml.Diff.Script.{insert_at, delete_at, equal_at}

-- The struct `Hirschberg`. The capacity of a row is the length of its list.
pub record Hirschberg : Type 0 where
  pub row0 : List ℕ
  pub row1 : List ℕ
  pub fwd_result : List ℕ
  pub bwd_result : List ℕ
  pub ops : List Op

abbrev pub new_hirschberg : Hirschberg
new_hirschberg = record { row0 = []; row1 = []; fwd_result = []; bwd_result = []; ops = [] }

-- The four `make` calls, which `Init` and `Diff` share.
unfoldable pub allocate : Hirschberg → ℕ → Hirschberg
allocate h capacity =
    if ltb (length h.row0) capacity
    then record h {
      row0 = replicate capacity 0;
      row1 = replicate capacity 0;
      fwd_result = replicate capacity 0;
      bwd_result = replicate capacity 0;
    }
    else h

-- `Init`. It also reserves room for the operations, which has no effect on any value.
unfoldable pub init : Hirschberg → ℕ → ℕ → Hirschberg
unfolding allocate
init h before_len after_len = allocate h (min before_len after_len + 1)

-- `for k := start; k < start+count; k++ { ops = append(ops, op) }`.
pub append_range : (ℕ → Op) → ℕ → ℕ → List Op → List Op
append_range op start zero ops = ops
append_range op start (suc count) ops = append_range op (start + 1) count (ops ++ op start ∷ [])

-- `for j := 0; j < n; j++ { row[j] = 0 }`.
pub clear : ℕ → List ℕ → Outcome (List ℕ)
clear zero row = ok row
clear (suc n) row = do row' ← clear n row; put row' n 0

-- `copy(dst[:n], src[:n])`.
pub copy_prefix : ℕ → List ℕ → List ℕ → Outcome (List ℕ)
copy_prefix n dst src =
    if leb n (length dst) && leb n (length src) then ok (take n src ++ drop n dst) else panic

-- What the two passes share: the rows with which the loops end, and the one to copy.
pub record Pass : Type 0 where
  pub rows : List ℕ × List ℕ
  pub src : List ℕ

-- `score > best`, where `none` is the -1 that `best` starts with.
abbrev pub beats : ℕ → Option ℕ → Bool
beats score none = true
beats score (some best) = ltb best score

-- The loop that picks `aMid`, `count` rounds from the column `k`.
pub best_mid : (forward backward : List ℕ) (n a_start : ℕ) → ℕ → ℕ → Option ℕ → ℕ → Outcome ℕ
best_mid forward backward n a_start k zero best a_mid = ok a_mid
best_mid forward backward n a_start k (suc count) best a_mid = do
  f ← at forward k
  b ← at backward (n - k)
  let better = beats (f + b) best
  best_mid forward backward n a_start (k + 1) count (if better then some (f + b) else best)
      (if better then a_start + k else a_mid)

module _ {ℓ} {A : Type ℓ} ⦃e : Eq A⦄ (before after : List A) where
  -- The value of `row1[j+1]`.
  abbrev pub cell : A → A → (row0 row1 : List ℕ) → ℕ → Outcome ℕ
  cell x y row0 row1 j =
      if x =? y
      then (do diagonal ← at row0 j; ok (diagonal + 1))
      else (do left ← at row1 j; up ← at row0 (j + 1); ok (max left up))

  -- The inner loop over `j`, `count` rounds from `j`: it fills `row1` from `row0`. Column `j` stands
  -- for `after[col j]`, which is how the two passes differ.
  pub fill_row : (col : ℕ → ℕ) (i : ℕ) (row0 : List ℕ) → ℕ → ℕ → List ℕ → Outcome (List ℕ)
  fill_row col i row0 j zero row1 = ok row1
  fill_row col i row0 j (suc count) row1 = do
    x ← at before i
    y ← at after (col j)
    v ← cell x y row0 row1 j
    row1' ← put row1 (j + 1) v
    fill_row col i row0 (j + 1) count row1'

  -- The outer loop: round `k` of `count` swaps the rows and fills the new one from `before[line k]`.
  pub fill_rows : (line col : ℕ → ℕ) (n : ℕ) → ℕ → ℕ → List ℕ → List ℕ → Outcome (List ℕ × List ℕ)
  fill_rows line col n k zero row0 row1 = ok (row0, row1)
  fill_rows line col n k (suc count) row0 row1 = do
    new ← put row0 0 0
    filled ← fill_row col (line k) row1 0 n new
    fill_rows line col n (k + 1) count row1 filled

  -- The body of `forward` and `backward` up to the copy.
  pub pass : (line col : ℕ → ℕ) (m n : ℕ) → Hirschberg → Outcome Pass
  unfolding clear fill_rows fill_row
  pass line col m n h = do
    row0 ← clear (n + 1) h.row0
    row1 ← clear (n + 1) h.row1
    (row0', row1') ← fill_rows line col n 0 m row0 row1
    ok (record { rows = (row0', row1'); src = if m == 0 then row0' else row1' })

  -- `forward`, with the slice of `fwd_result` that it returns.
  pub forward : (b_start b_mid a_start a_end : ℕ) → Hirschberg → Outcome (Hirschberg × List ℕ)
  unfolding pass copy_prefix
  forward b_start b_mid a_start a_end h = do
    let n = a_end - a_start
    p ← pass (λ k. b_start + k) (λ j. a_start + j) (b_mid - b_start) n h
    result ← copy_prefix (n + 1) h.fwd_result p.src
    ok (record h { row0 = p.rows.0; row1 = p.rows.1; fwd_result = result }, take (n + 1) result)

  -- `backward`, which goes through both inputs from their ends.
  pub backward : (b_mid b_end a_start a_end : ℕ) → Hirschberg → Outcome (Hirschberg × List ℕ)
  unfolding pass copy_prefix
  backward b_mid b_end a_start a_end h = do
    let n = a_end - a_start
    p ← pass (λ k. b_end - 1 - k) (λ j. a_end - 1 - j) (b_end - b_mid) n h
    result ← copy_prefix (n + 1) h.bwd_result p.src
    ok (record h { row0 = p.rows.0; row1 = p.rows.1; bwd_result = result }, take (n + 1) result)

  -- The search of `singleBeforeLine`: `none` is the -1 of `matchIdx`.
  pub find_match : A → ℕ → ℕ → Outcome (Option ℕ)
  find_match x j zero = ok none
  find_match x j (suc count) = do
    y ← at after j
    if x =? y then ok (some j) else find_match x (j + 1) count

  -- The two outcomes of that search.
  pub emit_single : (b_start a_start a_end : ℕ) → Option ℕ → List Op → List Op
  unfolding append_range
  emit_single b_start a_start a_end none ops =
      append_range insert_at a_start (a_end - a_start) (ops ++ delete_at b_start ∷ [])
  emit_single b_start a_start a_end (some match_idx) ops =
      append_range insert_at (match_idx + 1) (a_end - (match_idx + 1))
        (append_range insert_at a_start (match_idx - a_start) ops ++ equal_at match_idx ∷ [])

  -- `singleBeforeLine`. The source reads `before[bStart]` in the loop, which has a round at least.
  pub single_before_line : (b_start a_start a_end : ℕ) → Hirschberg → Outcome Hirschberg
  unfolding find_match emit_single
  single_before_line b_start a_start a_end h = do
    x ← at before b_start
    match_idx ← find_match x a_start (a_end - a_start)
    ok (record h { ops = emit_single b_start a_start a_end match_idx h.ops })

  -- One level of `recurse`, with the two recursive calls as an argument.
  pub divide :
      (ℕ → ℕ → ℕ → ℕ → Hirschberg → Outcome Hirschberg)
      → (b_start b_end a_start a_end : ℕ) → Hirschberg
      → Outcome Hirschberg
  unfolding forward backward best_mid
  divide rec b_start b_end a_start a_end h = do
    let b_mid = b_start + (b_end - b_start) / 2
    (h₁, fwd) ← forward b_start b_mid a_start a_end h
    (h₂, bwd) ← backward b_mid b_end a_start a_end h₁
    let n = a_end - a_start
    a_mid ← best_mid fwd bwd n a_start 0 (n + 1) none a_start
    h₃ ← rec b_start b_mid a_start a_mid h₂
    rec b_mid b_end a_mid a_end h₃

  pub recurse : ℕ → (b_start b_end a_start a_end : ℕ) → Hirschberg → Outcome Hirschberg
  unfolding append_range single_before_line divide
  recurse zero b_start b_end a_start a_end h = out_of_fuel
  recurse (suc fuel) b_start b_end a_start a_end h =
      let m = b_end - b_start in
      let n = a_end - a_start in
      let split = divide (recurse fuel) b_start b_end a_start a_end h in
      if m == 0
      then ok (record h { ops = append_range insert_at a_start n h.ops })
      else if n == 0
      then ok (record h { ops = append_range delete_at b_start m h.ops })
      else if m == 1
      then single_before_line b_start a_start a_end h
      else split

  -- `Diff`: each level of the recursion takes at most half of the lines, so the lines and one more
  -- are fuel enough.
  unfoldable pub diff : Hirschberg → Outcome Hirschberg
  unfolding allocate recurse
  diff h =
      recurse (length before + 1) 0 (length before) 0 (length after)
        (allocate (record h { ops = [] }) (length after + 1))
