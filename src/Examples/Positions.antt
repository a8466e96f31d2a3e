-- ===== src/Examples/Positions.antt =====
-- Ranges, spans and sums of a few numbers.
use niceyaml.Prelude.{ℕ, ◌≡◌, ◌↔◌, refl, true, List, ok, arith, nat_eq}
use niceyaml.Prelude.Int.{ℤ, pos}
use niceyaml.Text.{text_eq}
use niceyaml.Position.{
  Range, new_span, new_position, new_range, contains, span_contains, overlaps, new_prefix_sums,
  sum_range,
}
use niceyaml.Position.Order.{Before, contains_iff, overlaps_iff}
use niceyaml.Position.Sums.{sum_range-total}
use niceyaml.Prelude.{◌<◌}
use niceyaml.Position.{slice_lines}
use niceyaml.Position.Slices.{any_contains, slice_lines-contains}

sum_range-total_example : sum_range (new_prefix_sums 5 pos) (new_span (pos 1) (pos 4)) ≡ ok (pos 6)
sum_range-total_example = sum_range-total (λ n. n) pos (λ _. refl) 5 1 3 (omega arith) (omega arith)

abbrev word : Range
word = new_range (new_position (pos 1) (pos 4)) (new_position (pos 2) (pos 3))

contains_iff_example : (contains word (new_position (pos 1) (pos 9)) ≡ true) ↔ (
    (¬ Before (new_position (pos 1) (pos 9)) (new_position (pos 1) (pos 4)))
    × Before (new_position (pos 1) (pos 9)) (new_position (pos 2) (pos 3)))
contains_iff_example = contains_iff word (new_position (pos 1) (pos 9))

overlaps_iff_example : (overlaps (new_span (pos 1) (pos 3)) (new_span (pos 2) (pos 5)) ≡ true) ↔ (
    (v : ℤ) × (span_contains (new_span (pos 1) (pos 3)) v ≡ true)
    × (span_contains (new_span (pos 2) (pos 5)) v ≡ true))
overlaps_iff_example = overlaps_iff (new_span (pos 1) (pos 3)) (new_span (pos 2) (pos 5))

slice_lines-contains_example :
    (rs : List Range) × (slice_lines
        (new_range (new_position (pos 1) (pos 4)) (new_position (pos 3) (pos 2)))
      ≡ ok rs)
    × ((l k : ℕ)
        → k < 1_000_000
        → any_contains rs (new_position (pos l) (pos k))
          ≡ contains
              (new_range (new_position (pos 1) (pos 4)) (new_position (pos 3) (pos 2)))
              (new_position (pos l) (pos k)))
slice_lines-contains_example = slice_lines-contains 1 1 (pos 4) (pos 2) (omega arith)
