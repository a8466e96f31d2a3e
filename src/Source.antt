-- ===== src/Source.antt =====
-- source.go: a source of lines, what it yields to its readers, and the overlays on it. Parsing and
-- decoding are go-yaml's. The lock is left out, since no two of the calls overlap here.
pub mod Runes
pub mod Search
pub mod Overlays
use niceyaml.Prelude.{
  ℕ, zero, suc, ◌+◌, ◌-◌, Bool, List, [], ◌∷◌, ◌++◌, map, Option, none, some, Outcome, ok, panic,
  ◌>>=◌, length, take, drop, ltb, if◌then◌else◌,
}
use niceyaml.Prelude.Int.{ℤ, pos, negsuc, min_ℤ, max_ℤ, pos_part, sub64}
use niceyaml.Text.{Text, newline}
use niceyaml.Position.{Position, Range, Span, contains, new_position, unique_values, range_eq}
use niceyaml.Tokens.{TokenRef, Token, Segment}
use niceyaml.Line.{
  Line, content, width, tokens, token_at, token_position_ranges_at, add_overlays, clear_overlays,
}
use niceyaml.Line.Builder.{new_lines}
use niceyaml.Tokens.Content.{content_ranges_at}
use niceyaml.Finder
use niceyaml.Finder.{runes_from}

-- The struct `Source`, but for the options of the parser and the cache of its result.
pub record Source : Type 0 where
  pub name : Text
  pub file_path : Text
  pub lines : List Line

abbrev pub no_source : Source
no_source = record { name = []; file_path = []; lines = [] }

-- `WithName` and `WithFilePath`.
abbrev pub with_name : Text → Source → Source
with_name name s = record s { name = name }

abbrev pub with_file_path : Text → Source → Source
with_file_path path s = record s { file_path = path }

abbrev apply_source_options : List (Source → Source) → Source → Source
apply_source_options [] s = s
apply_source_options (opt ∷ opts) s = apply_source_options opts (opt s)

-- `NewSourceFromTokens`.
unfoldable pub new_source_from_tokens : List TokenRef → List (Source → Source) → Outcome Source
unfolding new_lines
new_source_from_tokens tks opts = do
  lines ← new_lines tks
  ok (record (apply_source_options opts no_source) { lines = lines })

-- `NewSourceFromString`, with go-yaml's lexer.
unfoldable pub new_source_from_string :
    (Text → List TokenRef) → Text → List (Source → Source) → Outcome Source
unfolding new_source_from_tokens
new_source_from_string tokenize src opts = new_source_from_tokens (tokenize src) opts

-- `Source.Len`.
abbrev pub source_len : Source → ℕ
source_len s = length s.lines

-- `Source.IsEmpty`.
abbrev pub has_no_lines : Source → Bool
has_no_lines s = elim s.lines [ [] ↦ Bool.true | _ ∷ _ ↦ Bool.false ]

-- The loop of `Lines.Content` behind the first line.
unfoldable pub content_rest : List Line → Outcome Text
unfolding content
content_rest [] = ok []
content_rest (l ∷ ls) = do text ← content l; rest ← content_rest ls; ok (newline ∷ text ++ rest)

-- `Lines.Content`, of line/line.go, and `Source.Content`.
unfoldable pub source_content : List Line → Outcome Text
unfolding content_rest content
source_content [] = ok []
source_content (l ∷ ls) = do text ← content l; rest ← content_rest ls; ok (text ++ rest)

-- The loop of `Source.Width`.
unfoldable pub width_loop : ℕ → List Line → ℕ
unfolding width
width_loop max_width [] = max_width
width_loop max_width (l ∷ ls) =
    width_loop (if ltb max_width (width l) then width l else max_width) ls

-- `Source.Width`.
unfoldable pub source_width : Source → ℕ
unfolding width_loop
source_width s = width_loop 0 s.lines

-- The lines with their indices, from `i` on.
unfoldable pub numbered : ℕ → List Line → List (ℕ × Line)
numbered i [] = []
numbered i (l ∷ ls) = (i, l) ∷ numbered (i + 1) ls

-- `for i := lo; i < hi; i++`, within the bounds of the lines.
abbrev pub between : ℕ → ℕ → List (ℕ × Line) → List (ℕ × Line)
between lo hi ls = take (hi - lo) (drop lo ls)

abbrev pub span_lines : Source → Span → List (ℕ × Line)
span_lines s span =
    between (pos_part (max_ℤ (pos 0) span.start)) (pos_part (min_ℤ (pos (length s.lines)) span.end))
      (numbered 0 s.lines)

unfoldable pub spans_lines : Source → List Span → List (ℕ × Line)
unfolding numbered
spans_lines s [] = []
spans_lines s (span ∷ spans) = span_lines s span ++ spans_lines s spans

-- `Source.AllLines`, for a consumer that takes all of them.
unfoldable pub all_lines : Source → List Span → List (ℕ × Line)
unfolding numbered spans_lines
all_lines s [] = numbered 0 s.lines
all_lines s (span ∷ spans) = spans_lines s (span ∷ spans)

abbrev pub Cell : Type 0
Cell = Position × Text

abbrev pub cells_of : ℕ → ℕ → List Text → List Cell
cells_of i col [] = []
cells_of i col (r ∷ rs) = (new_position (pos i) (pos col), r) ∷ cells_of i (col + 1) rs

-- The loops over the tokens of a line and their runes. A nil part panics.
unfoldable pub line_cells : ℕ → ℕ → List Segment → Outcome (List Cell)
unfolding runes_from
line_cells i col [] = ok []
line_cells i col (s ∷ rest) = elim s.part [
  | none ↦ panic
  | some t ↦ do
    cells ← line_cells i (col + length (runes_from 0 t.origin)) rest
    ok (cells_of i col (runes_from 0 t.origin) ++ cells)
]

abbrev pub within_range : Range → List Cell → List Cell
within_range r [] = []
within_range r ((p, c) ∷ cells) =
    let rest = within_range r cells in if contains r p then (p, c) ∷ rest else rest

-- The loop over the lines without a range.
unfoldable pub lines_cells : List (ℕ × Line) → Outcome (List Cell)
unfolding line_cells
lines_cells [] = ok []
lines_cells ((i, l) ∷ ls) = do
  cells ← line_cells i 0 l.segments
  rest ← lines_cells ls
  ok (cells ++ rest)

-- The loop over the lines of a range.
unfoldable pub range_cells : Range → List (ℕ × Line) → Outcome (List Cell)
unfolding line_cells contains
range_cells r [] = ok []
range_cells r ((i, l) ∷ ls) = do
  cells ← line_cells i 0 l.segments
  rest ← range_cells r ls
  ok (within_range r cells ++ rest)

-- `i <= endLine`, as a bound that is not reached.
abbrev pub past_line : ℤ → ℕ
past_line (pos n) = n + 1
past_line (negsuc n) = 0

abbrev pub range_lines : Source → Range → List (ℕ × Line)
range_lines s r =
    between (pos_part (max_ℤ (pos 0) r.start.line))
      (past_line (min_ℤ (sub64 (pos (length s.lines)) (pos 1)) r.end.line)) (numbered 0 s.lines)

unfoldable pub ranges_cells : Source → List Range → Outcome (List Cell)
unfolding range_cells numbered sub64
ranges_cells s [] = ok []
ranges_cells s (r ∷ rs) = do
  cells ← range_cells r (range_lines s r)
  rest ← ranges_cells s rs
  ok (cells ++ rest)

-- `Source.AllRunes`, for a consumer that takes all of them.
unfoldable pub all_runes : Source → List Range → Outcome (List Cell)
unfolding ranges_cells lines_cells numbered
all_runes s [] = lines_cells (numbered 0 s.lines)
all_runes s (r ∷ rs) = ranges_cells s (r ∷ rs)

-- A source as the finder reads it.
unfoldable pub finder_lines : ℕ → Source → Outcome Finder.Lines
unfolding all_runes
finder_lines address s = do
  cells ← all_runes s []
  ok (record { address = address; is_empty = has_no_lines s; all_runes = cells })

-- The loop of `TokenPositionRanges`.
abbrev token_ranges_of : List Line → List Position → List Range
token_ranges_of ls [] = []
token_ranges_of ls (p ∷ ps) = token_position_ranges_at ls p ++ token_ranges_of ls ps

-- `Source.TokenPositionRanges`.
unfoldable pub token_position_ranges : Source → List Position → List Range
unfolding token_position_ranges_at unique_values
token_position_ranges s positions = unique_values (token_ranges_of s.lines positions)

-- `Lines.ContentPositionRangesAt`, of line/line.go.
unfoldable pub content_position_ranges_at : List Line → Position → List Range
unfolding content_ranges_at
content_position_ranges_at ls p = content_ranges_at (map Line.segments ls) p.line p.col

abbrev content_ranges_of : List Line → List Position → List Range
content_ranges_of ls [] = []
content_ranges_of ls (p ∷ ps) = content_position_ranges_at ls p ++ content_ranges_of ls ps

-- `Source.ContentPositionRanges`.
unfoldable pub content_position_ranges : Source → List Position → List Range
unfolding content_position_ranges_at unique_values
content_position_ranges s positions = unique_values (content_ranges_of s.lines positions)

-- `Source.AddOverlay`.
unfoldable pub add_source_overlay : Text → Source → List Range → Outcome Source
unfolding add_overlays
add_source_overlay kind s ranges = do
  lines ← add_overlays kind s.lines ranges
  ok (record s { lines = lines })

-- `Source.ClearOverlays`.
unfoldable pub clear_source_overlays : Source → Source
unfolding clear_overlays
clear_source_overlays s = record s { lines = clear_overlays s.lines }
