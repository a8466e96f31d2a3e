-- ===== src/Differ/Sums.antt =====
-- The prefix sums of a diff count the lines of both files.
use niceyaml.Prelude.{
  ℕ, zero, suc, ◌+◌, ◌≤◌, ◌<◌, ◌≡◌, refl, sym, ap, ◌∙◌, List, [], ◌∷◌, ◌++◌, none, some, ok, length,
  get_elem?, take, drop, length-take, arith, true, false, ◌&&◌,
}
use niceyaml.Prelude.Int.{ℤ, pos, eqb_ℤ, ltb_ℤ, add64-pos, half_range}
use niceyaml.Text.{Text, text_eq}
use niceyaml.Diff.{OpKind, op_delete, op_insert}
use niceyaml.Position.{new_span, new_prefix_sums, sum_at, sum_range}
use niceyaml.Position.Sums.{total, total_shift, new_prefix_sums-total, sum_range-total}
use niceyaml.Differ.{
  LineOp, op_kind_deltas, before_delta, after_delta, decimal, header_part, format_hunk_header,
}
use niceyaml.Differ.Sides.{old_side, new_side}

-- Whether an operation has a line in the old file, and in the new one.
abbrev pub in_old : OpKind → ℕ
in_old op_insert = 0
in_old _ = 1

abbrev pub in_new : OpKind → ℕ
in_new op_delete = 0
in_new _ = 1

module _ (w : OpKind → ℕ) where
  abbrev pub weigh : List LineOp → ℕ → ℕ
  weigh ops i = elim (get_elem? ops i) [ none ↦ 0 | some op ↦ w op.kind ]

  abbrev pub weight : List LineOp → ℕ
  weight [] = 0
  weight (op ∷ ops) = w op.kind + weight ops

  total-weigh_nil : (i k : ℕ) → total (weigh []) i k ≡ 0
  total-weigh_nil i zero = refl
  total-weigh_nil i (suc k) = omega (arith, total-weigh_nil (suc i) k)

  weight-take_nil : (k : ℕ) → weight (take k []) ≡ 0
  weight-take_nil zero = refl
  weight-take_nil (suc k) = refl

  -- The sum over a range is the weight of the operations in it.
  pub total-weigh :
      (ops : List LineOp) (a k : ℕ) → total (weigh ops) a k ≡ weight (take k (drop a ops))
  total-weigh [] zero k = total-weigh_nil 0 k ∙ sym (weight-take_nil k)
  total-weigh [] (suc a) k = total-weigh_nil (suc a) k ∙ sym (weight-take_nil k)
  total-weigh (op ∷ ops) zero zero = refl
  total-weigh (op ∷ ops) zero (suc k) =
      ap (λ n. w op.kind + n)
        (total_shift (weigh (op ∷ ops)) (weigh ops) 0 k (λ _. refl) ∙ total-weigh ops 0 k)
  total-weigh (op ∷ ops) (suc a) k =
      total_shift (weigh (op ∷ ops)) (weigh ops) a k (λ _. refl) ∙ total-weigh ops a k

  weight_bound : (ops : List LineOp) → ((k : OpKind) → w k ≤ 1) → weight ops ≤ length ops
  weight_bound [] h = omega arith
  weight_bound (op ∷ ops) h = omega (arith, h op.kind, weight_bound ops h)

pub length-old_side : (ops : List LineOp) → length (old_side ops) ≡ weight in_old ops
length-old_side [] = refl
length-old_side (op ∷ ops) = ground (arith, length-old_side ops)

pub length-new_side : (ops : List LineOp) → length (new_side ops) ≡ weight in_new ops
length-new_side [] = refl
length-new_side (op ∷ ops) = ground (arith, length-new_side ops)

before_delta-weigh : (ops : List LineOp) (i : ℕ) → before_delta ops i ≡ pos (weigh in_old ops i)
unfolding before_delta op_kind_deltas
before_delta-weigh ops i = ground arith

after_delta-weigh : (ops : List LineOp) (i : ℕ) → after_delta ops i ≡ pos (weigh in_new ops i)
unfolding after_delta op_kind_deltas
after_delta-weigh ops i = ground arith

in_old_le_one : (k : OpKind) → in_old k ≤ 1
in_old_le_one k = ground arith

in_new_le_one : (k : OpKind) → in_new k ≤ 1
in_new_le_one k = ground arith

take_all {ℓ} : {A : Type ℓ} (xs : List A) → take (length xs) xs ≡ xs
take_all [] = refl
take_all (x ∷ xs) = ap (λ ys. x ∷ ys) (take_all xs)

room_of :
    (w : OpKind → ℕ) (ops : List LineOp)
    → ((k : OpKind) → w k ≤ 1)
    → length ops < half_range
    → total (weigh w ops) 0 (length ops) < half_range
room_of w ops h room =
    let all = total-weigh w ops 0 (length ops) ∙ ap (weight w) (take_all ops) in
    omega (arith, all, weight_bound w ops h)

module _ (ops : List LineOp) (fits : length ops < half_range) where
  -- The line counts behind the first `k` operations.
  before_sums-at :
      (k : ℕ)
      → k ≤ length ops
      → sum_at (new_prefix_sums (length ops) (before_delta ops)) (pos k)
        ≡ ok (pos (length (old_side (take k ops))))
  before_sums-at k h =
      new_prefix_sums-total (weigh in_old ops) (before_delta ops) (before_delta-weigh ops)
        (length ops) k h (room_of in_old ops in_old_le_one fits)
      ∙ ap (λ n. ok (pos n)) (total-weigh in_old ops 0 k ∙ sym (length-old_side (take k ops)))

  after_sums-at :
      (k : ℕ)
      → k ≤ length ops
      → sum_at (new_prefix_sums (length ops) (after_delta ops)) (pos k)
        ≡ ok (pos (length (new_side (take k ops))))
  after_sums-at k h =
      new_prefix_sums-total (weigh in_new ops) (after_delta ops) (after_delta-weigh ops)
        (length ops) k h (room_of in_new ops in_new_le_one fits)
      ∙ ap (λ n. ok (pos n)) (total-weigh in_new ops 0 k ∙ sym (length-new_side (take k ops)))

  before_sums-range :
      (a k : ℕ)
      → a + k ≤ length ops
      → sum_range (new_prefix_sums (length ops) (before_delta ops)) (new_span (pos a) (pos (a + k)))
        ≡ ok (pos (length (old_side (take k (drop a ops)))))
  before_sums-range a k h =
      sum_range-total (weigh in_old ops) (before_delta ops) (before_delta-weigh ops) (length ops) a
        k h (room_of in_old ops in_old_le_one fits)
      ∙ ap (λ n. ok (pos n))
          (total-weigh in_old ops a k ∙ sym (length-old_side (take k (drop a ops))))

  after_sums-range :
      (a k : ℕ)
      → a + k ≤ length ops
      → sum_range (new_prefix_sums (length ops) (after_delta ops)) (new_span (pos a) (pos (a + k)))
        ≡ ok (pos (length (new_side (take k (drop a ops)))))
  after_sums-range a k h =
      sum_range-total (weigh in_new ops) (after_delta ops) (after_delta-weigh ops) (length ops) a k
        h (room_of in_new ops in_new_le_one fits)
      ∙ ap (λ n. ok (pos n))
          (total-weigh in_new ops a k ∙ sym (length-new_side (take k (drop a ops))))

-- What a header says of one file, behind its sign: how many lines the hunk has of it, and how many
-- lines are before the hunk. A count of 1 or less is left out.
abbrev pub side_text : ℕ → ℕ → ℕ → Text
side_text sign zero zero = 32 ∷ sign ∷ 48 ∷ 44 ∷ 48 ∷ []
side_text sign zero (suc before) = 32 ∷ sign ∷ decimal (pos (before + 2))
side_text sign (suc zero) before = 32 ∷ sign ∷ decimal (pos (before + 1))
side_text sign (suc (suc n)) before =
    32 ∷ sign ∷ decimal (pos (before + 1)) ++ 44 ∷ decimal (pos (n + 2))

header_part-side_text :
    (sign count before : ℕ)
    → header_part sign (pos (before + 1)) (pos count) ≡ side_text sign count before
unfolding header_part
header_part-side_text sign zero zero = refl
header_part-side_text sign zero (suc before) =
    let next : suc before + 1 ≡ before + 2 = omega arith in
    rw next (let other : eqb_ℤ (pos (before + 2)) (pos 1) ≡ false = ground arith in rw other refl)
header_part-side_text sign (suc zero) before =
    let one : (eqb_ℤ (pos (before + 1)) (pos 1) && false) ≡ false = ground arith in rw one refl
header_part-side_text sign (suc (suc n)) before =
    let many : ltb_ℤ (pos 1) (pos (suc (suc n))) ≡ true = ground arith in
    let same : suc (suc n) ≡ n + 2 = omega arith in
    rw many (ap (λ k. 32 ∷ sign ∷ decimal (pos (before + 1)) ++ 44 ∷ decimal (pos k)) same)

-- The text of a header whose hunk begins behind `old` and `new` lines and has `old_count` and
-- `new_count` of them.
abbrev pub header_text : ℕ → ℕ → ℕ → ℕ → Text
header_text old old_count new new_count =
    64 ∷ 64 ∷ side_text 45 old_count old ++ side_text 43 new_count new ++ 32 ∷ 64 ∷ 64 ∷ []

header-run :
    (a k old old_count new new_count : ℕ) (x y : List ℤ)
    → sum_range x (new_span (pos a) (pos (a + k))) ≡ ok (pos old_count)
    → sum_range y (new_span (pos a) (pos (a + k))) ≡ ok (pos new_count)
    → sum_at x (pos a) ≡ ok (pos old)
    → sum_at y (pos a) ≡ ok (pos new)
    → old + 1 < half_range
    → new + 1 < half_range
    → format_hunk_header (new_span (pos a) (pos (a + k))) x y
      ≡ ok (header_text old old_count new new_count)
unfolding format_hunk_header
header-run a k old old_count new new_count x y p q r s u v =
    rw (format_hunk_header, p, q)
      (rw (r, s)
        (rw (add64-pos old 1 u, add64-pos new 1 v)
          (rw (header_part-side_text 45 old_count old, header_part-side_text 43 new_count new)
            refl)))

-- The header of a hunk gives for both files the number of the line behind those of the file before
-- the hunk, and behind a comma the number of lines that the hunk has of it where that is more than
-- 1; but 0,0 where the hunk has none of it and none is before the hunk. This holds where the
-- operations and one more fit in an int and the hunk lies within them.
pub format_hunk_header-counts :
    (ops : List LineOp) (a k : ℕ)
    → length ops + 1 < half_range
    → a + k ≤ length ops
    → format_hunk_header
        (new_span (pos a) (pos (a + k)))
        (new_prefix_sums (length ops) (before_delta ops))
        (new_prefix_sums (length ops) (after_delta ops))
      ≡ ok (
          header_text
            (length (old_side (take a ops)))
            (length (old_side (take k (drop a ops))))
            (length (new_side (take a ops)))
            (length (new_side (take k (drop a ops)))))
unfolding format_hunk_header
format_hunk_header-counts ops a k fits h =
    let fits' : length ops < half_range = omega arith in
    header-run a k _ _ _ _ _ _ (before_sums-range ops fits' a k h)
      (after_sums-range ops fits' a k h) (before_sums-at ops fits' a (omega arith))
      (after_sums-at ops fits' a (omega arith))
      (omega (
        arith,
        length-old_side (take a ops),
        weight_bound in_old (take a ops) in_old_le_one,
        length-take a ops,
      ))
      (omega (
        arith,
        length-new_side (take a ops),
        weight_bound in_new (take a ops) in_new_le_one,
        length-take a ops,
      ))
