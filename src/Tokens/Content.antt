-- ===== src/Tokens/Content.antt =====
-- tokens/tokens.go: the ranges of a token's content.
pub mod Within
use niceyaml.Prelude.{
  ℕ, ◌+◌, ◌-◌, Bool, true, ◌&&◌, List, [], ◌∷◌, ◌++◌, map, Option, none, some, length, ltb,
  if◌then◌else◌, ◌≤◌, ◌≡◌, ◌⊎◌, inl, inr, refl, ap, arith, Bool-cases,
}
use niceyaml.Prelude.Int.{ℤ, pos}
use niceyaml.Text.{Text, newline, carriage_return, space, trim_suffix, leading}
use niceyaml.Position.{Range, new_position, new_range}
use niceyaml.Tokens.{
  TokenRef, Token, Segment, same_ref, source_at, token_ranges_line, token_ranges_from,
  token_ranges_at,
}

-- `countTrailingSpaces`: as many as lead the reversed string.
abbrev reversed : Text → Text
reversed [] = []
reversed (c ∷ s) = reversed s ++ c ∷ []

unfoldable pub trailing : Text → ℕ
trailing s = leading space (reversed s)

abbrev pub content_origin : Option Token → Text
content_origin none = []
content_origin (some t) = trim_suffix carriage_return (trim_suffix newline t.origin)

abbrev pub content_range : ℕ → ℕ → ℕ → ℕ → ℕ → Range
content_range i line_col w before after =
    new_range (new_position (pos i) (pos (line_col + before)))
      (new_position (pos i) (pos (line_col + before + (w - before - after))))

-- The inner loop of `Segments2.ContentRangesAt`. A segment without a part has no width, and where
-- the spaces take all of the width `contentWidth` is not positive.
unfoldable pub content_ranges_line : TokenRef → ℕ → ℕ → List Segment → List Range
unfolding trailing
content_ranges_line source i line_col [] = []
content_ranges_line source i line_col (s ∷ rest) =
    let before = leading space (content_origin s.part) in
    let after = trailing (content_origin s.part) in
    let later = content_ranges_line source i (line_col + s.width) rest in
    if same_ref s.source (some source) && ltb 0 s.width && ltb 0 (s.width - before - after)
    then content_range i line_col s.width before after ∷ later
    else later

-- The outer loop.
unfoldable pub content_ranges_from : TokenRef → ℕ → List (List Segment) → List Range
unfolding content_ranges_line
content_ranges_from source i [] = []
content_ranges_from source i (segs ∷ rest) =
    content_ranges_line source i 0 segs ++ content_ranges_from source (i + 1) rest

-- `Segments2.ContentRangesAt`.
unfoldable pub content_ranges_at : List (List Segment) → ℤ → ℤ → List Range
unfolding content_ranges_from
content_ranges_at s2 idx col = elim (source_at s2 idx col) [
  | none ↦ []
  | some source ↦ content_ranges_from source 0 s2
]
