-- ===== src/Position/Sums.antt =====
-- `PrefixSums` against sums, where nothing wraps.
use native.Mathlib.Numerals.{add-one}
use niceyaml.Prelude.{
  ℕ, zero, suc, ◌+◌, ◌-◌, ◌≤◌, ◌<◌, ◌≡◌, refl, ap, ap₂, ◌∙◌, some, ok, get_elem?, arith, of_option,
}
use niceyaml.Prelude.Int.{ℤ, pos, add64, add64-pos, sub64-pos, half_range}
use niceyaml.Position.{new_span, sums_loop, new_prefix_sums, sum_at, sum_range, at_int}

-- The sum of `count` values from the index `i` on.
abbrev pub total : (ℕ → ℕ) → ℕ → ℕ → ℕ
total g i zero = 0
total g i (suc count) = g i + total g (suc i) count

pub total_add : (g : ℕ → ℕ) (i k l : ℕ) → total g i (k + l) ≡ total g i k + total g (i + k) l
total_add g i zero l =
    let none : 0 + l ≡ l = omega arith in
    let same : i + 0 ≡ i = omega arith in rw (none, same) (omega arith)
total_add g i (suc k) l =
    let first : suc k + l ≡ suc (k + l) = omega arith in
    let behind : i + suc k ≡ suc i + k = omega arith in
    rw (first, behind) (omega (arith, total_add g (suc i) k l))

total_mono : (g : ℕ → ℕ) (i k n : ℕ) → k ≤ n → total g i k ≤ total g i n
total_mono g i k n h =
    let split : k + (n - k) ≡ n = omega arith in
    let sum = total_add g i k (n - k) in omega (arith, rw split at sum)

pub total_shift :
    (g g' : ℕ → ℕ) (i k : ℕ) → ((j : ℕ) → g (suc j) ≡ g' j) → total g (suc i) k ≡ total g' i k
total_shift g g' i zero same = refl
total_shift g g' i (suc k) same = ap₂ ◌+◌ (same i) (total_shift g g' (suc i) k same)

module _ (g : ℕ → ℕ) (f : ℕ → ℤ) (values : (i : ℕ) → f i ≡ pos (g i)) where
  sums_loop-total :
      (i n s k : ℕ)
      → k < n
      → s + total g i n < half_range
      → get_elem? (sums_loop f i n (pos s)) k ≡ some (pos (s + total g i (k + 1)))
  unfolding sums_loop
  sums_loop-total i zero s k h room = absurd (omega arith)
  sums_loop-total i (suc n) s zero h room =
      ap some
        (ap (add64 (pos s)) (values i) ∙ add64-pos s (g i) (omega arith) ∙ ap pos (omega arith))
  sums_loop-total i (suc n) s (suc k) h room =
      let next : add64 (pos s) (f i) ≡ pos (s + g i) =
        ap (add64 (pos s)) (values i) ∙ add64-pos s (g i) (omega arith) in
      let one : k + 1 ≡ suc k = omega arith in
      let two : suc k + 1 ≡ suc (suc k) = omega arith in
      let shifted : s + g i + total g (suc i) (k + 1) ≡ s + total g i (suc k + 1) =
        rw (one, two) (omega arith) in
      rw (next, add-one)
        (sums_loop-total (suc i) n (s + g i) k (omega arith) (omega arith)
          ∙ ap (λ v. some (pos v)) shifted)

  -- Each entry of the prefix sums is the sum of the values before it.
  pub new_prefix_sums-total :
      (n k : ℕ)
      → k ≤ n
      → total g 0 n < half_range
      → sum_at (new_prefix_sums n f) (pos k) ≡ ok (pos (total g 0 k))
  unfolding sum_at new_prefix_sums
  new_prefix_sums-total n zero h room = refl
  new_prefix_sums-total n (suc k) h room =
      ap of_option (sums_loop-total 0 n 0 k (omega arith) (omega arith))
      ∙ ap (λ v. ok (pos v)) (rw add-one (omega arith))

  -- Range of the prefix sums of n values gives the sum of the values from a span's start up to its
  -- end, where the span lies within n and the sum of all values, none of them negative, is an int.
  pub sum_range-total :
      (n a k : ℕ)
      → a + k ≤ n
      → total g 0 n < half_range
      → sum_range (new_prefix_sums n f) (new_span (pos a) (pos (a + k))) ≡ ok (pos (total g a k))
  unfolding sum_range sum_at
  sum_range-total n a k h room =
      let upper : at_int (new_prefix_sums n f) (pos (a + k)) ≡ ok (pos (total g 0 (a + k))) =
        new_prefix_sums-total n (a + k) h room in
      let lower : at_int (new_prefix_sums n f) (pos a) ≡ ok (pos (total g 0 a)) =
        new_prefix_sums-total n a (omega arith) room in
      let from_zero : 0 + a ≡ a = omega arith in
      let below = total_mono g 0 (a + k) n h in
      let sum : total g 0 (a + k) ≡ total g 0 a + total g a k =
        total_add g 0 a k ∙ ap (λ m. total g 0 a + total g m k) from_zero in
      rw (sum_range, upper, lower)
        (ap ok (
          sub64-pos (total g 0 (a + k)) (total g 0 a) (omega arith) (omega arith)
          ∙ rw sum (ground arith)))
