-- ===== src/Line/State.antt =====
-- line/builder.go: the state of the builder, the end of a line, and gaps between tokens.
use niceyaml.Prelude.{
  Bool, true, false, not, ◌&&◌, ◌||◌, List, [], ◌∷◌, ◌++◌, Option, none, some, ◌==◌, if◌then◌else◌,
}
use niceyaml.Prelude.Int.{ℤ, pos, ltb_ℤ, add64}
use niceyaml.Text.{newline, ends_with, count}
use niceyaml.Tokens.{Token, TokenPosition, Segment}
use niceyaml.Line.{Line}
use niceyaml.Diff.{default}

-- The struct `linesBuilder`.
pub record Builder : Type 0 where
  pub lines : List Line
  pub current_line_segments : List Segment
  pub current_line : ℤ
  pub built : Bool
  pub prev_token_ended_with_newline : Bool
  pub current_offset : ℤ
  pub current_indent_num : ℤ
  pub prev_line_indent_num : ℤ
  pub current_indent_level : ℤ

abbrev pub new_line : List Segment → ℤ → Line
new_line segments number = record {
  annotations = [];
  overlays = [];
  segments = segments;
  flag = default;
  number = number;
}

-- `finishLine`.
unfoldable pub finish_line : Builder → Builder
finish_line b = record b {
  lines = b.lines ++ new_line b.current_line_segments b.current_line ∷ [];
  prev_line_indent_num = b.current_indent_num;
  current_line_segments = [];
  current_indent_num = pos 0;
  current_line = add64 b.current_line (pos 1);
}

abbrev pub is_none : List Segment → Bool
is_none [] = true
is_none (_ ∷ _) = false

abbrev sync_position : Option TokenPosition → Builder → Builder
sync_position none b = b
sync_position (some p) b = record b {
  current_offset = if ltb_ℤ (pos 0) p.offset then p.offset else b.current_offset;
  current_indent_num = p.indent_num;
  current_indent_level = p.indent_level;
}

abbrev token_line : Token → ℤ → ℤ
token_line t line = elim t.position [ none ↦ line | some p ↦ p.line ]

-- The flush of `handleGap`.
unfoldable pub flush_gap : ℤ → Builder → Builder
flush_gap tk_line b =
    if ltb_ℤ (add64 b.current_line (pos 1)) tk_line && not (is_none b.current_line_segments)
    then record b {
      lines = b.lines ++ new_line b.current_line_segments b.current_line ∷ [];
      current_line_segments = [];
    }
    else b

-- The synchronisation of `handleGap`.
unfoldable pub sync_gap : Option TokenPosition → ℤ → Builder → Builder
sync_gap position tk_line b =
    if is_none b.current_line_segments && ltb_ℤ b.current_line tk_line
    then sync_position position (record b { current_line = tk_line })
    else b

-- `handleGap`.
unfoldable pub handle_gap : Token → Builder → Builder
unfolding flush_gap sync_gap
handle_gap tk b =
    let newlines = count newline tk.origin in
    let tk_line = token_line tk b.current_line in
    if newlines == 0 || (newlines == 1 && ends_with newline tk.origin)
    then sync_gap tk.position tk_line (flush_gap tk_line b)
    else b
