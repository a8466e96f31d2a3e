-- ===== src/Examples/Sources.antt =====
-- A stream of two documents, and a source of two lines.
use niceyaml.Prelude.{
  ◌<◌, ◌≡◌, refl, false, true, List, [], ◌∷◌, map, none, some, ok, length, arith,
}
use niceyaml.Prelude.Int.{pos}
use niceyaml.Text.{Text}
use niceyaml.Position.{Range, new_position, new_range}
use niceyaml.Tokens.{
  Token, TokenType, string_type, document_header_type, Segment, new_segment, token_ranges_at,
}
use niceyaml.Tokens.Content.{content_ranges_at}
use niceyaml.Tokens.Content.Within.{AllInside, content_ranges_at-AllInside}
use niceyaml.Tokens.Documents.{split_documents, clone_with_reset_positions}
use niceyaml.Tokens.Documents.Splitting.{concat, AreDocuments, split_documents-AreDocuments}
use niceyaml.Diff.{default}
use niceyaml.Line.{Line}
use niceyaml.Finder.{Lines, new_finder, load, find, normalize}
use niceyaml.Source.{
  Source, Cell, all_runes, add_source_overlay, clear_source_overlays, finder_lines,
}
use niceyaml.Source.Runes.{all_runes-ranges, ranges_within}
use niceyaml.Source.Search.{find-source, RangesOn}
use niceyaml.Source.Overlays.{AllSpread, clear_source_overlays-add}

abbrev token : TokenType → Text → Token
token type origin = record {
  type = type;
  character_type = 0;
  indicator = 0;
  origin = origin;
  value = origin;
  error = [];
  position = none;
}

abbrev stream : List Token
stream =
    token string_type (97 ∷ [])
    ∷ token document_header_type (45 ∷ 45 ∷ 45 ∷ [])
    ∷ token string_type (98 ∷ [])
    ∷ []

split_documents-AreDocuments_example :
    (concat (split_documents false stream) ≡ stream)
    × AreDocuments (split_documents false stream)
    × (split_documents true stream ≡ map clone_with_reset_positions (split_documents false stream))
split_documents-AreDocuments_example = split_documents-AreDocuments stream

-- The text ` a ` of a token.
abbrev spaced : List (List Segment)
spaced =
    (new_segment
        (some
          (record { address = 0; token = token string_type (32 ∷ 97 ∷ 32 ∷ []); prev_types = [] }))
        (some (token string_type (32 ∷ 97 ∷ 32 ∷ [])))
      ∷ [])
    ∷ []

content_ranges_at-AllInside_example :
    AllInside (content_ranges_at spaced (pos 0) (pos 1)) (token_ranges_at spaced (pos 0) (pos 1))
content_ranges_at-AllInside_example = content_ranges_at-AllInside spaced (pos 0) (pos 1)

abbrev one_token : Text → Line
one_token origin = record {
  annotations = [];
  overlays = [];
  segments = new_segment none (some (token string_type origin)) ∷ [];
  flag = default;
  number = pos 0;
}

abbrev pub two_lines : Source
two_lines = record {
  name = [];
  file_path = [];
  lines = one_token (97 ∷ 98 ∷ []) ∷ one_token (99 ∷ []) ∷ [];
}

abbrev three_cells : List Cell
three_cells =
    (new_position (pos 0) (pos 0), 97 ∷ [])
    ∷ (new_position (pos 0) (pos 1), 98 ∷ [])
    ∷ (new_position (pos 1) (pos 0), 99 ∷ [])
    ∷ []

two_lines-cells : all_runes two_lines [] ≡ ok three_cells
unfolding all_runes new_segment
two_lines-cells = refl

abbrev tail_range : Range
tail_range = new_range (new_position (pos 0) (pos 1)) (new_position (pos 1) (pos 1))

all_runes-ranges_example :
    all_runes two_lines (tail_range ∷ []) ≡ ok (ranges_within (tail_range ∷ []) three_cells)
all_runes-ranges_example =
    all_runes-ranges two_lines tail_range [] three_cells (omega arith) two_lines-cells

letter_c : 0 < length (normalize none (99 ∷ []))
letter_c = omega arith

find-source_example :
    (lines : Lines) × (rs : List Range) × (finder_lines 7 two_lines ≡ ok lines)
    × (find (load (new_finder none) lines) (99 ∷ []) ≡ ok rs)
    × RangesOn 2 rs
find-source_example = find-source none two_lines 7 three_cells (99 ∷ []) two_lines-cells letter_c

tail_range-AllSpread : AllSpread 2 (tail_range ∷ [])
tail_range-AllSpread = ((0, 1, refl, refl, omega arith, omega arith), tt)

clear_source_overlays-add_example :
    (s' : Source) × (add_source_overlay (104 ∷ []) two_lines (tail_range ∷ []) ≡ ok s')
    × (clear_source_overlays s' ≡ clear_source_overlays two_lines)
clear_source_overlays-add_example =
    clear_source_overlays-add (104 ∷ []) two_lines (tail_range ∷ []) tail_range-AllSpread
      (omega arith)
