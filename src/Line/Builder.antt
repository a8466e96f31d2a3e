-- ===== src/Line/Builder.antt =====
-- line/builder.go: the builder that cuts tokens into lines.
pub mod Views
pub mod Origin
pub mod RoundTrip
pub mod TokensBack
use niceyaml.Prelude.{
  ℕ, zero, suc, ◌+◌, ◌-◌, Bool, true, false, not, ◌&&◌, ◌||◌, List, [], ◌∷◌, ◌++◌, Option, none,
  some, Outcome, ok, panic, ◌>>=◌, length, ltb, leb, ◌==◌, if◌then◌else◌, ◌=?◌,
}
use niceyaml.Prelude.Int.{ℤ, pos, negsuc, ltb_ℤ, eqb_ℤ, add64, sub64}
use niceyaml.Text.{Text, newline, carriage_return, space, tab, ends_with, count, leading, text_beq}
use niceyaml.Text.Split.{split_after}
use niceyaml.Tokens.{
  Token, TokenRef, TokenPosition, TokenType, string_type, literal_type, folded_type, comment_type,
  space_type, Segment, append, next_column,
}
use niceyaml.Line.{Line}
use niceyaml.Diff.{default}
use niceyaml.Line.Scan.{
  count_leading_newlines, update_indent_level, is_block_scalar_content, is_pure_newline,
  is_pure_horizontal_whitespace, split_origin_into_parts, find_last_content_part_index,
  should_part_receive_value, is_empty_text, part_column_and_value,
}
use niceyaml.Line.State.{Builder, new_line, finish_line, is_none, flush_gap, sync_gap, handle_gap}
use niceyaml.Line.Part.{
  PartContext, is_duplicate_newline, duplicate_token, append_to_last, attach_duplicate,
  track_indent, column_and_value, value_offset, part_type, after_blank_line, keeps_position,
  part_position, part_token, append_part, process_part,
}

-- The context of the part `i` of a token.
abbrev pub part_context : TokenRef → List Text → ℕ → Text → PartContext
part_context tk parts i part = record {
  tk = tk;
  part = part;
  parts = parts;
  part_index = i;
  last_content_part_idx = find_last_content_part_index parts;
  is_last_part = i + 1 == length parts;
  is_block_scalar_content = is_block_scalar_content tk;
  is_multi_part = ltb 1 (length parts);
}

-- The loop of `AddToken` over the parts, from the index `i` on.
unfoldable pub process_parts : TokenRef → List Text → ℕ → List Text → Builder → Bool → Builder
process_parts tk parts i [] b is_first = b
process_parts tk parts i (part ∷ rest) b is_first =
    let (b', is_first') = process_part b (part_context tk parts i part) is_first in
    process_parts tk parts (i + 1) rest b' is_first'

-- `AddToken`, which panics once the lines are built.
unfoldable pub add_token : Builder → TokenRef → Outcome Builder
unfolding process_parts handle_gap
add_token b tk =
    let parts = split_origin_into_parts tk.token.origin in
    let b' = process_parts tk parts 0 parts (handle_gap tk.token b) true in
    if b.built
    then panic
    else ok (record b' { prev_token_ended_with_newline = ends_with newline tk.token.origin })

-- The last line of `Build`.
unfoldable pub build : Builder → List Line
build b =
    if is_none b.current_line_segments
    then b.lines
    else b.lines ++ new_line b.current_line_segments b.current_line ∷ []

abbrev start_line : Token → ℤ
start_line t = elim t.position [
  | none ↦ pos 1
  | some p ↦
      let blank = pos (count_leading_newlines t.origin) in
      if ltb_ℤ (pos 0) blank && ltb_ℤ blank p.line then sub64 p.line blank else p.line
]

abbrev start_position : ℤ → TokenPosition → TokenPosition
start_position line p = if ltb_ℤ (pos 0) p.offset then p else record {
  line = line;
  column = pos 0;
  offset = pos 1;
  indent_num = pos 0;
  indent_level = pos 0;
}

abbrev start_at : ℤ → Option TokenPosition → TokenPosition
start_at line none = record {
  line = line;
  column = pos 0;
  offset = pos 1;
  indent_num = pos 0;
  indent_level = pos 0;
}
start_at line (some p) = start_position line p

-- The most lines that `make` takes as a capacity: with 88 bytes for a line, those of 2 ^ 48 bytes,
-- the limit of 64-bit systems. Memory that runs out is not modelled.
abbrev pub max_lines : ℕ
max_lines = 3_198_579_280_802

-- `make([]Line, 0, n)`, which panics for a capacity that is negative or out of range.
abbrev pub make_lines : ℤ → Outcome (List Line)
make_lines (pos n) = if leb n max_lines then ok [] else panic
make_lines (negsuc n) = panic

abbrev pub allocate_lines : Option TokenPosition → Outcome (List Line)
allocate_lines none = ok []
allocate_lines (some p) = make_lines p.line

abbrev pub last_token : TokenRef → List TokenRef → Token
last_token tk [] = tk.token
last_token tk (tk' ∷ tks) = last_token tk' tks

-- The builder for tokens that begin with `t`.
unfoldable pub started_builder : Token → Builder
unfolding count_leading_newlines
started_builder t =
    let p = start_at (start_line t) t.position in
    record {
      lines = [];
      current_line_segments = [];
      current_line = start_line t;
      built = false;
      prev_token_ended_with_newline = false;
      current_offset = p.offset;
      current_indent_num = p.indent_num;
      prev_line_indent_num = pos 0;
      current_indent_level = p.indent_level;
    }

-- `newLinesBuilder`, for tokens that begin with `tk`.
unfoldable pub new_lines_builder : TokenRef → List TokenRef → Outcome Builder
unfolding started_builder
new_lines_builder tk tks = do
  lines ← allocate_lines (Token.position (last_token tk tks))
  ok (record (started_builder tk.token) { lines = lines })

-- The loop of `NewLines`.
unfoldable pub add_tokens : Builder → List TokenRef → Outcome Builder
add_tokens b [] = ok b
add_tokens b (tk ∷ tks) = do b' ← add_token b tk; add_tokens b' tks

-- `NewLines`, of line/line.go.
unfoldable pub new_lines : List TokenRef → Outcome (List Line)
unfolding new_lines_builder add_tokens build
new_lines [] = ok []
new_lines (tk ∷ tks) = do
  start ← new_lines_builder tk tks
  b ← add_tokens start (tk ∷ tks)
  ok (build b)
