-- ===== src/Line/Part.antt =====
-- line/builder.go: `processPart`, which makes a token of a part and appends it to the line.
use niceyaml.Prelude.{
  ℕ, Bool, false, not, ◌&&◌, ◌||◌, List, [], ◌∷◌, Option, none, some, length, ltb, ◌==◌,
  if◌then◌else◌,
}
use niceyaml.Prelude.Int.{ℤ, pos, ltb_ℤ, eqb_ℤ, add64, sub64}
use niceyaml.Text.{Text, newline, space, ends_with, leading}
use niceyaml.Tokens.{Token, TokenRef, TokenPosition, TokenType, space_type, append, next_column}
use niceyaml.Line.{Line}
use niceyaml.Line.Scan.{
  update_indent_level, is_pure_newline, is_pure_horizontal_whitespace, should_part_receive_value,
  is_empty_text, part_column_and_value,
}
use niceyaml.Line.State.{Builder, finish_line, is_none}

-- The struct `partContext`, but for the shared flag.
pub record PartContext : Type 0 where
  pub tk : TokenRef
  pub part : Text
  pub parts : List Text
  pub part_index : ℕ
  pub last_content_part_idx : ℕ
  pub is_last_part : Bool
  pub is_block_scalar_content : Bool
  pub is_multi_part : Bool

abbrev at_line : Option TokenPosition → ℤ → Bool
at_line none line = false
at_line (some p) line = eqb_ℤ line p.line

-- `isDuplicateNewline && len(b.lines) > 0`.
unfoldable pub is_duplicate_newline : Builder → PartContext → Bool
is_duplicate_newline b ctx =
    ctx.part_index == 0
    && is_pure_newline ctx.part
    && b.prev_token_ended_with_newline
    && at_line ctx.tk.token.position b.current_line
    && ltb 0 (length b.lines)

-- The token for a duplicate newline, on the line `last`.
unfoldable pub duplicate_token : Builder → PartContext → Line → Token
duplicate_token b ctx last = record {
  type = ctx.tk.token.type;
  character_type = ctx.tk.token.character_type;
  indicator = ctx.tk.token.indicator;
  origin = ctx.part;
  value = [];
  error = [];
  position = some (record {
    line = sub64 b.current_line (pos 1);
    column = add64 (next_column last.segments) (pos 1);
    offset = b.current_offset;
    indent_num = b.prev_line_indent_num;
    indent_level = b.current_indent_level;
  });
}

-- `lastLine.segments = lastLine.segments.Append(tk, newTk)`, where `lastLine` is the last of the lines.
unfoldable pub append_to_last : (Line → Token) → TokenRef → List Line → List Line
append_to_last f tk [] = []
append_to_last f tk (l ∷ []) = record l { segments = append l.segments (some tk) (some (f l)) } ∷ []
append_to_last f tk (l ∷ l' ∷ ls) = l ∷ append_to_last f tk (l' ∷ ls)

-- The branch for a duplicate newline.
unfoldable pub attach_duplicate : Builder → PartContext → Builder
unfolding append_to_last
attach_duplicate b ctx = record b {
  lines = append_to_last (duplicate_token b ctx) ctx.tk b.lines;
  current_offset = add64 b.current_offset (pos (length ctx.part));
}

-- The indentation of a line's first content.
unfoldable pub track_indent : Builder → PartContext → Builder
track_indent b ctx =
    let computed = pos (leading space ctx.part) in
    let from_origin = record b {
      current_indent_num = computed;
      current_indent_level =
          update_indent_level b.prev_line_indent_num computed b.current_indent_level;
    } in
    if is_none b.current_line_segments && not (is_pure_newline ctx.part)
    then elim ctx.tk.token.position [
      | none ↦ from_origin
      | some p ↦
          if ctx.part_index == 0 && (not ctx.is_block_scalar_content || not ctx.is_multi_part)
          then record b { current_indent_num = p.indent_num; current_indent_level = p.indent_level }
          else from_origin
    ]
    else b

abbrev is_last_content : PartContext → Bool
is_last_content ctx = ctx.part_index == ctx.last_content_part_idx

abbrev should_have_value : PartContext → Bool → Bool
should_have_value ctx is_first =
    should_part_receive_value ctx.is_block_scalar_content is_first (is_last_content ctx)

-- `col` and `val`.
unfoldable pub column_and_value : Builder → PartContext → Bool → ℤ × Text
column_and_value b ctx is_first =
    if is_pure_newline ctx.part
    then (add64 (next_column b.current_line_segments) (pos 1), [])
    else part_column_and_value ctx.tk.token is_first (should_have_value ctx is_first)

abbrev positive_offset : Option TokenPosition → ℤ → ℤ
positive_offset none offset = offset
positive_offset (some p) offset = if ltb_ℤ (pos 0) p.offset then p.offset else offset

-- `valueOffset`.
unfoldable pub value_offset : Builder → PartContext → Bool → Text → ℤ
value_offset b ctx is_first val =
    if not ctx.is_multi_part
      || (ctx.is_last_part && ctx.is_block_scalar_content)
      || (should_have_value ctx is_first && not (is_empty_text val))
    then positive_offset ctx.tk.token.position b.current_offset
    else b.current_offset

-- `tokenType`.
unfoldable pub part_type : PartContext → Text → TokenType
part_type ctx val =
    if is_pure_horizontal_whitespace ctx.part
      && is_empty_text val
      && not ctx.is_block_scalar_content
    then space_type
    else ctx.tk.token.type

abbrev first_is_newline : List Text → Bool
first_is_newline [] = false
first_is_newline (p ∷ _) = is_pure_newline p

-- `hasLeadingBlankLine && wasFirstContentPart`.
unfoldable pub after_blank_line : PartContext → Bool → Bool
after_blank_line ctx is_first =
    ctx.is_multi_part
    && ltb 1 (length ctx.parts)
    && first_is_newline ctx.parts
    && (is_first && not (is_pure_newline ctx.part))

-- Whether a part of a block scalar keeps the position of its token.
unfoldable pub keeps_position : PartContext → Bool → TokenPosition → Bool
keeps_position ctx is_first p =
    let first_line_position = eqb_ℤ p.column (pos 0) in
    ctx.is_block_scalar_content
    && ctx.is_multi_part
    && ((is_first && not (is_pure_newline ctx.part) && first_line_position)
        || (is_last_content ctx && not first_line_position))

-- The position of the new token: the tracked one, or the original one where it is preserved.
unfoldable pub part_position : PartContext → Bool → TokenPosition → TokenPosition
part_position ctx is_first tracked = elim ctx.tk.token.position [
  | none ↦ tracked
  | some p ↦ if keeps_position ctx is_first p || after_blank_line ctx is_first then p else tracked
]

-- `newTk`, built in the state `b` that has the indentation of the line.
unfoldable pub part_token : Builder → PartContext → Bool → Token
part_token b ctx is_first =
    let (col, val) = column_and_value b ctx is_first in
    record {
      type = part_type ctx val;
      character_type = ctx.tk.token.character_type;
      indicator = ctx.tk.token.indicator;
      origin = ctx.part;
      value = val;
      error = ctx.tk.token.error;
      position = some (
          part_position ctx is_first (record {
            line = b.current_line;
            column = col;
            offset = value_offset b ctx is_first val;
            indent_num = b.current_indent_num;
            indent_level = b.current_indent_level;
          }));
    }

abbrev synced_level : Option TokenPosition → ℤ → ℤ
synced_level none level = level
synced_level (some p) level = p.indent_level

-- The segment is appended, and the level follows the original position behind a blank line.
unfoldable pub append_part : Builder → PartContext → Bool → Builder
append_part b ctx is_first = record b {
  current_indent_level =
      if after_blank_line ctx is_first
      then synced_level ctx.tk.token.position b.current_indent_level
      else b.current_indent_level;
  current_line_segments =
      append b.current_line_segments (some ctx.tk) (some (part_token b ctx is_first));
  current_offset = add64 b.current_offset (pos (length ctx.part));
}

-- `processPart` with the flag `isFirstContentPart`, which it returns as it leaves it.
unfoldable pub process_part : Builder → PartContext → Bool → Builder × Bool
process_part b ctx is_first =
    let appended = append_part (track_indent b ctx) ctx is_first in
    if is_duplicate_newline b ctx then (attach_duplicate b ctx, is_first) else (
      if ends_with newline ctx.part then finish_line appended else appended,
      is_first && is_pure_newline ctx.part,
    )
