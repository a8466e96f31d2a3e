-- ===== src/Line/Scan.antt =====
-- line/builder.go: what the builder reads off tokens and off the parts of their texts.
use niceyaml.Prelude.{
  ℕ, suc, ◌+◌, ◌-◌, Bool, true, false, not, ◌&&◌, ◌||◌, List, [], ◌∷◌, Option, none, some, length,
  ◌==◌, if◌then◌else◌,
}
use niceyaml.Prelude.Int.{ℤ, pos, ltb_ℤ, add64, sub64}
use niceyaml.Text.{Text, newline, carriage_return, space, tab, text_beq}
use niceyaml.Text.Split.{split_after}
use niceyaml.Tokens.{
  Token, TokenRef, TokenPosition, TokenType, string_type, literal_type, folded_type, comment_type,
}

-- `countLeadingNewlines`: carriage returns are passed over.
unfoldable pub count_leading_newlines : Text → ℕ
count_leading_newlines [] = 0
count_leading_newlines (c ∷ s) =
    let rest = count_leading_newlines s in
    if c == carriage_return then rest else if c == newline then suc rest else 0

-- `updateIndentLevel`.
unfoldable pub update_indent_level : ℤ → ℤ → ℤ → ℤ
update_indent_level prev current level =
    if ltb_ℤ prev current
    then add64 level (pos 1)
    else if ltb_ℤ current prev && ltb_ℤ (pos 0) level
    then sub64 level (pos 1)
    else level

-- The walk of `isBlockScalarContent` along the `Prev` chain.
follows_header : List TokenType → Bool
follows_header [] = false
follows_header (literal_type ∷ _) = true
follows_header (folded_type ∷ _) = true
follows_header (comment_type ∷ rest) = follows_header rest
follows_header (_ ∷ rest) = false

abbrev is_string : TokenType → Bool
is_string string_type = true
is_string _ = false

-- `isBlockScalarContent`.
unfoldable pub is_block_scalar_content : TokenRef → Bool
unfolding follows_header
is_block_scalar_content tk = is_string tk.token.type && follows_header tk.prev_types

-- `isPureNewline`.
unfoldable pub is_pure_newline : Text → Bool
is_pure_newline s = text_beq s (newline ∷ []) || text_beq s (carriage_return ∷ newline ∷ [])

abbrev all_horizontal : Text → Bool
all_horizontal [] = true
all_horizontal (c ∷ s) = (c == space || c == tab) && all_horizontal s

-- `isPureHorizontalWhitespace`.
unfoldable pub is_pure_horizontal_whitespace : Text → Bool
is_pure_horizontal_whitespace [] = false
is_pure_horizontal_whitespace (c ∷ s) = all_horizontal (c ∷ s)

-- `splitOriginIntoParts`.
unfoldable pub split_origin_into_parts : Text → List Text
split_origin_into_parts [] = [] ∷ []
split_origin_into_parts (c ∷ s) = split_after newline (c ∷ s)

-- The loop of `findLastContentPartIndex`, from the front: the last index from `i` on of a part that
-- is not a newline, or `last`.
find_last_content : ℕ → Option ℕ → List Text → Option ℕ
find_last_content i last [] = last
find_last_content i last (p ∷ ps) =
    find_last_content (i + 1) (if is_pure_newline p then last else some i) ps

-- `findLastContentPartIndex`, for a list that is not empty.
unfoldable pub find_last_content_part_index : List Text → ℕ
unfolding find_last_content
find_last_content_part_index parts = elim (find_last_content 0 none parts) [
  | some i ↦ i
  | none ↦ length parts - 1
]

-- `shouldPartReceiveValue`.
unfoldable pub should_part_receive_value : Bool → Bool → Bool → Bool
should_part_receive_value is_block_scalar is_first is_last =
    if is_block_scalar then is_last else is_first

abbrev positive_column : Option TokenPosition → ℤ → ℤ
positive_column none col = col
positive_column (some p) col = if ltb_ℤ (pos 0) p.column then p.column else col

abbrev pub is_empty_text : Text → Bool
is_empty_text [] = true
is_empty_text (_ ∷ _) = false

-- `partColumnAndValue`.
unfoldable pub part_column_and_value : Token → Bool → Bool → ℤ × Text
part_column_and_value tk is_first should_have_value =
    if not (is_empty_text tk.value) && should_have_value
    then (positive_column tk.position (pos 1), tk.value)
    else (if is_first then positive_column tk.position (pos 1) else pos 1, [])
