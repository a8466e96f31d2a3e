-- ===== src/Examples/Documents.antt =====
-- A small document and its new version, cut into lines and compared.
use niceyaml.Prelude.{
  ℕ, ◌≤◌, ◌≡◌, ◌↔◌, ◌⊎◌, inr, refl, List, [], ◌∷◌, map, some, Outcome, ok, length, arith, nat_eq,
}
use niceyaml.Prelude.Int.{ℤ, pos, negsuc}
use niceyaml.Text.{Text, text_eq}
use niceyaml.Tokens.{Token, TokenRef, string_type, new_segment}
use niceyaml.Position.{new_span, new_prefix_sums}
use niceyaml.Position.Coverage.{Covered, InOrder}
use niceyaml.Diff.{Op, op_equal, op_delete, op_insert}
use niceyaml.Diff.Script.{done, equal, delete, insert, insert_at, delete_at, equal_at, equals}
use niceyaml.Diff.Hirschberg.{Hirschberg, new_hirschberg, diff}
use niceyaml.Diff.Hirschberg.Correct.{IsSized, diff-Transforms, diff-shortest, Transforms}
use niceyaml.Line.{Line, tokens}
use niceyaml.Line.Builder.{new_lines}
use niceyaml.Line.State.{new_line}
use niceyaml.Line.Builder.RoundTrip.{HasRoom}
use niceyaml.Line.Builder.TokensBack.{
  text_of, new_lines-text, IsDistinct, token_values, tokens-new_lines,
}
use niceyaml.Differ.{
  LineOp, line_op, contents, compute_ops, to_lines, select_hunk_spans, diff_result, before_delta,
  after_delta, format_hunk_header, hunks, aligned_rows,
}
use niceyaml.Differ.Sides.{
  old_side, new_side, compute_ops-sides, compute_ops-unified, shown_old, shown_new,
}
use niceyaml.Differ.Hunks.{
  AllUnchanged, HasChange, ChangeNear, select_hunk_spans_iff, select_hunk_spans-InOrder,
}
use niceyaml.Differ.Headers.{Hunked, hunks-Hunked}
use niceyaml.Differ.Sums.{header_text, format_hunk_header-counts}
use niceyaml.Differ.Rows.{aligned_rows-sides}
use niceyaml.Differ.Rows.Pads.{Pair, to_row, present, lefts, rights}
use niceyaml.Prelude.{none}
use niceyaml.Line.{validate}
use niceyaml.Line.Validation.{AllHaveLines, AllPlaced, GrowsFrom, numbers, validate_iff}

new_hirschberg-IsSized : IsSized new_hirschberg
new_hirschberg-IsSized =
    (0, record { row0_size = refl; row1_size = refl; fwd_size = refl; bwd_size = refl })

abbrev old_numbers : List ℕ
old_numbers = 1 ∷ 2 ∷ 3 ∷ []

abbrev new_numbers : List ℕ
new_numbers = 1 ∷ 3 ∷ 4 ∷ []

abbrev edit : List Op
edit = equal_at 0 ∷ delete_at 1 ∷ equal_at 1 ∷ insert_at 2 ∷ []

edit-Transforms : Transforms {A = ℕ} old_numbers new_numbers edit
edit-Transforms =
    equal refl refl (delete (omega arith) (equal refl refl (insert (omega arith) done)))

abbrev state_of : Outcome Hirschberg → Hirschberg
state_of (ok h) = h
state_of _ = new_hirschberg

diff-Transforms_example :
    (h' : Hirschberg) × (diff {A = ℕ} old_numbers new_numbers new_hirschberg ≡ ok h')
    × Transforms {A = ℕ} old_numbers new_numbers h'.ops
    × IsSized h'
diff-Transforms_example =
    diff-Transforms {A = ℕ} old_numbers new_numbers new_hirschberg new_hirschberg-IsSized

abbrev edited : Hirschberg
unfolding diff
edited = state_of (diff {A = ℕ} old_numbers new_numbers new_hirschberg)

edited-run : diff {A = ℕ} old_numbers new_numbers new_hirschberg ≡ ok edited
unfolding edited diff
edited-run = refl

diff-shortest_example : (length edited.ops ≤ 4) × (equals edit ≤ equals edited.ops)
diff-shortest_example =
    diff-shortest {A = ℕ} old_numbers new_numbers new_hirschberg edited edit new_hirschberg-IsSized
      edited-run edit-Transforms

abbrev token_with : Text → ℤ → Token
token_with text line = record {
  type = string_type;
  character_type = 0;
  indicator = 0;
  origin = text;
  value = text;
  error = [];
  position = some (record {
    line = line;
    column = pos 1;
    offset = pos 1;
    indent_num = pos 0;
    indent_level = pos 0;
  });
}

abbrev ref_with : ℕ → Text → ℤ → TokenRef
ref_with address text line = record {
  address = address;
  token = token_with text line;
  prev_types = [];
}

-- Two tokens, the first of which stands on two lines.
abbrev document : List TokenRef
document = ref_with 0 (97 ∷ 10 ∷ 98 ∷ []) (pos 1) ∷ ref_with 1 (58 ∷ 10 ∷ []) (pos 2) ∷ []

document-HasRoom : HasRoom document
document-HasRoom = inr (_, 2, refl, refl, omega arith)

new_lines-text_example :
    (ls : List Line) × (new_lines document ≡ ok ls) × (text_of ls ≡ 97 ∷ 10 ∷ 98 ∷ 58 ∷ 10 ∷ [])
new_lines-text_example = new_lines-text document document-HasRoom

document-IsDistinct : IsDistinct document
document-IsDistinct = (λ e. omega arith, tt)

tokens-new_lines_example :
    (ls : List Line) × (new_lines document ≡ ok ls) × (tokens ls ≡ token_values document)
tokens-new_lines_example = tokens-new_lines document document-HasRoom document-IsDistinct

abbrev line_with : Text → ℤ → Line
line_with text line =
    new_line (new_segment (some (ref_with 0 text line)) (some (token_with text line)) ∷ []) line

-- The lines `a`, `b`, and the lines `a`, `c`.
abbrev old_document : List Line
old_document = line_with (97 ∷ 10 ∷ []) (pos 1) ∷ line_with (98 ∷ 10 ∷ []) (pos 2) ∷ []

abbrev new_document : List Line
new_document = line_with (97 ∷ 10 ∷ []) (pos 1) ∷ line_with (99 ∷ 10 ∷ []) (pos 2) ∷ []

abbrev old_texts : List Text
old_texts = (97 ∷ []) ∷ (98 ∷ []) ∷ []

abbrev new_texts : List Text
new_texts = (97 ∷ []) ∷ (99 ∷ []) ∷ []

old_document-contents : contents old_document ≡ ok old_texts
unfolding contents new_segment
old_document-contents = refl

new_document-contents : contents new_document ≡ ok new_texts
unfolding contents new_segment
new_document-contents = refl

compute_ops-sides_example :
    (h' : Hirschberg) × (ops : List LineOp) × (compute_ops new_hirschberg old_document new_document
      ≡ ok (h', ops))
    × IsSized h'
    × (contents (old_side ops) ≡ ok old_texts)
    × (new_side ops ≡ new_document)
compute_ops-sides_example =
    compute_ops-sides old_document new_document old_texts new_texts old_document-contents
      new_document-contents new_hirschberg new_hirschberg-IsSized

compute_ops-unified_example :
    (h' : Hirschberg) × (ops : List LineOp) × (compute_ops new_hirschberg old_document new_document
      ≡ ok (h', ops))
    × (contents (shown_old (to_lines ops)) ≡ ok old_texts)
    × (contents (shown_new (to_lines ops)) ≡ ok new_texts)
compute_ops-unified_example =
    compute_ops-unified new_hirschberg old_document new_document old_texts new_texts
      new_hirschberg-IsSized old_document-contents new_document-contents

-- A change between two unchanged lines.
abbrev some_ops : List LineOp
some_ops =
    line_op op_equal (line_with (97 ∷ 10 ∷ []) (pos 1))
    ∷ line_op op_delete (line_with (98 ∷ 10 ∷ []) (pos 2))
    ∷ line_op op_insert (line_with (99 ∷ 10 ∷ []) (pos 2))
    ∷ line_op op_equal (line_with (100 ∷ []) (pos 3))
    ∷ []

aligned_rows-sides_example :
    (pairs : List Pair) × (aligned_rows some_ops ≡ ok (map to_row pairs))
    × (present (lefts pairs) ≡ shown_old (to_lines some_ops))
    × (present (rights pairs) ≡ shown_new (to_lines some_ops))
aligned_rows-sides_example = aligned_rows-sides some_ops

select_hunk_spans_iff_example :
    Covered (pos 3) (select_hunk_spans some_ops (pos 1)) ↔ ChangeNear 1 3 some_ops
select_hunk_spans_iff_example = select_hunk_spans_iff 1 some_ops (omega arith) 3 (omega arith)

select_hunk_spans-InOrder_example : InOrder (negsuc 0) (pos 4) (select_hunk_spans some_ops (pos 1))
select_hunk_spans-InOrder_example = select_hunk_spans-InOrder 1 some_ops (omega arith)

hunks-Hunked_example :
    (AllUnchanged some_ops
      × (hunks (diff_result (97 ∷ []) (98 ∷ []) some_ops) (pos 1) ≡ ok ([], [])))
    ⊎ (HasChange some_ops
        × Hunked
            (diff_result (97 ∷ []) (98 ∷ []) some_ops)
            (pos 1)
            (select_hunk_spans some_ops (pos 1)))
hunks-Hunked_example = hunks-Hunked (97 ∷ []) (98 ∷ []) some_ops (pos 1) (omega arith)

format_hunk_header-counts_example :
    format_hunk_header
      (new_span (pos 1) (pos 3))
      (new_prefix_sums 4 (before_delta some_ops))
      (new_prefix_sums 4 (after_delta some_ops))
    ≡ ok (header_text 1 1 1 1)
format_hunk_header-counts_example =
    format_hunk_header-counts some_ops 1 2 (omega arith) (omega arith)

old_document-lines : AllHaveLines old_document
unfolding new_segment
old_document-lines = ((λ e. cc, tt), ((λ e. cc, tt), tt))

validate_iff_example :
    (validate old_document ≡ none)
    ↔ (GrowsFrom (pos 0) (numbers old_document) × AllPlaced old_document)
validate_iff_example = validate_iff old_document old_document-lines
