-- ===== src/Line.antt =====
-- line/line.go and line/meta.go: a line of segments with its number, flag, annotations and overlays,
-- and the operations of a list of lines.
pub mod Validation
pub mod Scan
pub mod State
pub mod Part
pub mod Builder
use niceyaml.Prelude.{
  ℕ, zero, suc, ◌+◌, Bool, true, false, not, ◌&&◌, ◌||◌, List, [], ◌∷◌, ◌++◌, map, Option, none,
  some, Outcome, ok, panic, ◌>>=◌, at, put, length, ltb, ◌==◌, if◌then◌else◌,
}
use niceyaml.Prelude.Int.{ℤ, pos, negsuc, ltb_ℤ, eqb_ℤ, min_ℤ}
use niceyaml.Text.{Text, newline, carriage_return, trim_suffix}
use niceyaml.Position.{Position, Range, Span, new_position, new_range, new_span, slice_lines}
use niceyaml.Tokens.{
  Token, TokenRef, TokenPosition, Segment, new_segment, merge, source_tokens, source_token_at,
  token_ranges_at, line_at, token_of, same_ref,
}
use niceyaml.Diff.{Flag, default}

-- `RelativePosition`.
pub data RelativePosition : Type 0 where
  above below : RelativePosition

-- The struct `Annotation`.
pub record Annotation : Type 0 where
  pub content : Text
  pub position : RelativePosition
  pub col : ℤ

-- The struct `Overlay`; a `style.Style` is a string.
pub record Overlay : Type 0 where
  pub kind : Text
  pub cols : Span

-- The struct `Line`.
pub record Line : Type 0 where
  pub annotations : List Annotation
  pub overlays : List Overlay
  pub segments : List Segment
  pub flag : Flag
  pub number : ℤ

-- The zero value.
abbrev pub no_line : Line
no_line = record { annotations = []; overlays = []; segments = []; flag = default; number = pos 0 }

-- `Line.AddAnnotation`.
unfoldable pub add_annotation : Line → List Annotation → Line
add_annotation l ann = record l { annotations = l.annotations ++ ann }

-- `Line.AddOverlay`.
unfoldable pub add_overlay : Line → List Overlay → Line
add_overlay l o = record l { overlays = l.overlays ++ o }

abbrev position_line : Option Token → ℤ
position_line none = pos 0
position_line (some t) = elim t.position [ none ↦ pos 0 | some p ↦ p.line ]

abbrev first_line : List Segment → ℤ
first_line [] = pos 0
first_line (s ∷ _) = position_line s.part

-- `Line.Number`.
unfoldable pub line_number : Line → ℤ
line_number l = if eqb_ℤ l.number (pos 0) then first_line l.segments else l.number

-- A part's origin without its line ending.
abbrev pub stripped : Text → Text
stripped origin = trim_suffix carriage_return (trim_suffix newline origin)

-- The loop of `Line.Content`: a nil part panics.
unfoldable pub content_of : List Segment → Outcome Text
content_of [] = ok []
content_of (s ∷ rest) = elim s.part [
  | none ↦ panic
  | some t ↦ do text ← content_of rest; ok (stripped t.origin ++ text)
]

-- `Line.Content`.
unfoldable pub content : Line → Outcome Text
unfolding content_of
content l = content_of l.segments

abbrev pub clone_segment : Segment → Segment
clone_segment s = new_segment s.source s.part

-- `Segments.Clone`, of tokens/tokens.go.
unfoldable pub clone_segments : List Segment → List Segment
unfolding new_segment
clone_segments = map clone_segment

-- `Line.Clone`.
unfoldable pub clone : Line → Line
unfolding clone_segments
clone l = record l { segments = clone_segments l.segments }

-- `Line.IsEmpty`.
unfoldable pub is_empty : Line → Bool
is_empty l = elim l.segments [ [] ↦ true | _ ∷ _ ↦ false ]

abbrev pub segments_width : List Segment → ℕ
segments_width [] = 0
segments_width (s ∷ rest) = s.width + segments_width rest

-- `Line.Width`.
unfoldable pub width : Line → ℕ
width l = segments_width l.segments

-- `Lines.Tokens`.
unfoldable pub tokens : List Line → List (Option Token)
unfolding merge source_tokens
tokens ls = source_tokens (merge [] (map Line.segments ls))

-- `Lines.TokenAt`.
unfoldable pub token_at : List Line → Position → Option Token
unfolding source_token_at
token_at ls p = elim (line_at ls p.line) [
  | none ↦ none
  | some l ↦ token_of (source_token_at l.segments p.col)
]

-- `Lines.TokenPositionRangesAt`.
unfoldable pub token_position_ranges_at : List Line → Position → List Range
unfolding token_ranges_at
token_position_ranges_at ls p = token_ranges_at (map Line.segments ls) p.line p.col

-- `(*ls)[i] = f((*ls)[i])`.
unfoldable pub update_at : ℤ → (Line → Line) → List Line → Outcome (List Line)
update_at (pos i) f ls = do l ← at ls i; put ls i (f l)
update_at (negsuc i) f ls = panic

abbrev pub overlay_of : Text → Range → Overlay
overlay_of kind r = record { kind = kind; cols = new_span r.start.col r.end.col }

-- The loop of `Lines.addOverlayRange`.
unfoldable pub overlay_lines : Text → List Range → List Line → Outcome (List Line)
unfolding update_at add_overlay
overlay_lines kind [] ls = ok ls
overlay_lines kind (r ∷ rest) ls = do
  ls' ← update_at r.start.line (λ l. add_overlay l (overlay_of kind r ∷ [])) ls
  overlay_lines kind rest ls'

-- `Lines.addOverlayRange`.
unfoldable pub add_overlay_range : Text → List Line → Range → Outcome (List Line)
unfolding overlay_lines slice_lines
add_overlay_range kind ls r = do ranges ← slice_lines r; overlay_lines kind ranges ls

-- The loop of `Lines.AddOverlay`.
unfoldable pub overlay_ranges : Text → List Range → List Line → Outcome (List Line)
unfolding add_overlay_range
overlay_ranges kind [] ls = ok ls
overlay_ranges kind (r ∷ rest) ls = do
  ls' ← add_overlay_range kind ls r
  overlay_ranges kind rest ls'

-- `Lines.AddOverlay`.
unfoldable pub add_overlays : Text → List Line → List Range → Outcome (List Line)
unfolding overlay_ranges
add_overlays kind [] ranges = ok []
add_overlays kind (l ∷ ls) ranges = overlay_ranges kind ranges (l ∷ ls)

abbrev pub clear_line : Line → Line
clear_line l = record l { overlays = [] }

-- `Lines.ClearOverlays`.
unfoldable pub clear_overlays : List Line → List Line
clear_overlays = map clear_line

-- The errors of `Lines.Validate`, with the index of the line and of the token.
pub data ValidationError : Type 0 where
  line_number_not_increasing : ℕ → ValidationError
  line_number_mismatch : ℕ → ℕ → ValidationError
  column_not_increasing : ℕ → ℕ → ValidationError

abbrev pub is_blank : Text → Bool
is_blank [] = true
is_blank (_ ∷ _) = false

-- The test of a token's line against `expectedLineNum`, which is -1 as long as no token set it.
abbrev pub unset : ℤ
unset = negsuc 0

abbrev pub mismatches : ℤ → ℤ → Bool
mismatches expected line = not (eqb_ℤ expected unset) && not (eqb_ℤ line expected)

abbrev pub expected_line : ℤ → ℤ → ℤ
expected_line expected line = if eqb_ℤ expected unset then line else expected

-- The inner loop of `Lines.Validate` from the token `j` on.
unfoldable pub validate_tokens : ℕ → ℕ → ℤ → ℤ → List Segment → Option ValidationError
validate_tokens i j expected prev_col [] = none
validate_tokens i j expected prev_col (s ∷ rest) = elim s.part [
  | none ↦ validate_tokens i (j + 1) expected prev_col rest
  | some t ↦ elim t.position [
    | none ↦ validate_tokens i (j + 1) expected prev_col rest
    | some p ↦
        let checked = expected_line expected p.line in
        let blank = validate_tokens i (j + 1) checked prev_col rest in
        let wide = validate_tokens i (j + 1) checked p.column rest in
        if mismatches expected p.line
        then some (line_number_mismatch i j)
        else if is_blank t.origin
        then blank
        else if ltb_ℤ prev_col p.column
        then wide
        else some (column_not_increasing i j)
  ]
]

-- The first error returns.
abbrev pub or_else : Option ValidationError → Option ValidationError → Option ValidationError
or_else none next = next
or_else (some e) next = some e

-- The outer loop from the line `i` on.
unfoldable pub validate_lines : ℕ → ℤ → List Line → Option ValidationError
unfolding validate_tokens line_number
validate_lines i prev_line_num [] = none
validate_lines i prev_line_num (l ∷ rest) =
    let num = line_number l in
    let zero_num = eqb_ℤ num (pos 0) in
    let next = validate_lines (i + 1) (if zero_num then prev_line_num else num) rest in
    if not zero_num && not (ltb_ℤ prev_line_num num)
    then some (line_number_not_increasing i)
    else or_else (validate_tokens i 0 unset (pos 0) l.segments) next

-- `Lines.Validate`; `none` is a nil error.
unfoldable pub validate : List Line → Option ValidationError
unfolding validate_lines
validate ls = validate_lines 0 (pos 0) ls
