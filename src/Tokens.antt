-- ===== src/Tokens.antt =====
-- tokens/tokens.go: tokens by reference, segments of them, and what is read off a line's segments.
-- The token type is go-yaml's: a record of the fields that these sources read. A pointer to a token
-- is an address with the token behind it; a clone is an equal token.
pub mod Documents
pub mod Content
use niceyaml.Prelude.{
  ℕ, ◌+◌, Bool, true, false, not, ◌&&◌, List, [], ◌∷◌, ◌++◌, Option, none, some, get_elem?, ltb,
  ◌==◌, if◌then◌else◌,
}
use niceyaml.Prelude.Int.{ℤ, pos, negsuc, ltb_ℤ}
use niceyaml.Text.{Text, newline, trim_suffix, rune_count}
use niceyaml.Position.{Range, new_position, new_range}

-- The token types that the sources compare with.
pub data TokenType : Type 0 where
  string_type literal_type folded_type comment_type space_type document_header_type : TokenType
  other_type : ℕ → TokenType

-- go-yaml's `token.Position`.
pub record TokenPosition : Type 0 where
  pub line : ℤ
  pub column : ℤ
  pub offset : ℤ
  pub indent_num : ℤ
  pub indent_level : ℤ

pub record Token : Type 0 where
  pub type : TokenType
  pub character_type : ℕ
  pub indicator : ℕ
  pub origin : Text
  pub value : Text
  pub error : Text
  pub position : Option TokenPosition

-- A `*token.Token` that is not nil. Of the chain of `Prev` pointers only the types are read, the
-- nearest first.
pub record TokenRef : Type 0 where
  pub address : ℕ
  pub token : Token
  pub prev_types : List TokenType

-- The struct `Segment`; a nil pointer is `none`.
pub record Segment : Type 0 where
  pub source : Option TokenRef
  pub part : Option Token
  pub width : ℕ

abbrev pub part_width : Option Token → ℕ
part_width none = 0
part_width (some t) = rune_count (trim_suffix newline t.origin)

-- `NewSegment`.
unfoldable pub new_segment : Option TokenRef → Option Token → Segment
new_segment source part = record { source = source; part = part; width = part_width part }

-- Equality of pointers.
abbrev pub same_ref : Option TokenRef → Option TokenRef → Bool
same_ref none none = true
same_ref none (some r) = false
same_ref (some r) none = false
same_ref (some r) (some s) = r.address == s.address

abbrev pub token_of : Option TokenRef → Option Token
token_of none = none
token_of (some r) = some r.token

-- `Segments.Append`.
unfoldable pub append : List Segment → Option TokenRef → Option Token → List Segment
unfolding new_segment
append s source part = s ++ new_segment source part ∷ []

-- `Segments.Merge`.
unfoldable pub merge : List Segment → List (List Segment) → List Segment
merge s [] = s
merge s (o ∷ others) = merge (s ++ o) others

-- The loop of `Segments.SourceTokens`. `Tokens.Add` drops nothing and sets the links of its clones
-- anew, so the result is a list of tokens.
unfoldable pub source_tokens_from : Option TokenRef → List Segment → List (Option Token)
source_tokens_from last [] = []
source_tokens_from last (s ∷ rest) =
    let tail = source_tokens_from s.source rest in
    let same = source_tokens_from last rest in
    if same_ref s.source last then same else token_of s.source ∷ tail

-- `Segments.SourceTokens`.
unfoldable pub source_tokens : List Segment → List (Option Token)
unfolding source_tokens_from
source_tokens s = source_tokens_from none s

abbrev column_of : Option Token → ℤ
column_of none = pos 0
column_of (some t) = elim t.position [ none ↦ pos 0 | some p ↦ p.column ]

-- The loop of `Segments.NextColumn`.
next_column_from : ℤ → List Segment → ℤ
next_column_from col [] = col
next_column_from col (s ∷ rest) =
    next_column_from (if ltb_ℤ col (column_of s.part) then column_of s.part else col) rest

-- `Segments.NextColumn`.
unfoldable pub next_column : List Segment → ℤ
unfolding next_column_from
next_column s = next_column_from (pos 0) s

-- The loop of `Segments.sourceTokenAtPtr`; `c` is the column of the next segment.
source_token_from : ℤ → ℕ → List Segment → Option TokenRef
source_token_from col c [] = none
source_token_from col c (s ∷ rest) =
    let later = source_token_from col (c + s.width) rest in
    if not (ltb_ℤ col (pos c)) && ltb_ℤ col (pos (c + s.width)) then s.source else later

-- `Segments.sourceTokenAtPtr`; `Segments.SourceTokenAt` is the token behind it.
unfoldable pub source_token_at : List Segment → ℤ → Option TokenRef
unfolding source_token_from
source_token_at s col = source_token_from col 0 s

-- The inner loop of `Segments2.TokenRangesAt`.
unfoldable pub token_ranges_line : TokenRef → ℕ → ℕ → List Segment → List Range
token_ranges_line source i line_col [] = []
token_ranges_line source i line_col (s ∷ rest) =
    let range =
      new_range (new_position (pos i) (pos line_col))
        (new_position (pos i) (pos (line_col + s.width))) in
    let later = token_ranges_line source i (line_col + s.width) rest in
    if same_ref s.source (some source) && ltb 0 s.width then range ∷ later else later

-- The outer loop.
unfoldable pub token_ranges_from : TokenRef → ℕ → List (List Segment) → List Range
unfolding token_ranges_line
token_ranges_from source i [] = []
token_ranges_from source i (segs ∷ rest) =
    token_ranges_line source i 0 segs ++ token_ranges_from source (i + 1) rest

-- `s2[idx]` behind the guard `idx < 0 || idx >= len(s2)`.
abbrev pub line_at {ℓ} : {A : Type ℓ} → List A → ℤ → Option A
line_at xs (pos i) = get_elem? xs i
line_at xs (negsuc i) = none

abbrev pub source_at : List (List Segment) → ℤ → ℤ → Option TokenRef
source_at s2 idx col = elim (line_at s2 idx) [ none ↦ none | some segs ↦ source_token_at segs col ]

-- `Segments2.TokenRangesAt`.
unfoldable pub token_ranges_at : List (List Segment) → ℤ → ℤ → List Range
unfolding token_ranges_from source_token_at
token_ranges_at s2 idx col = elim (source_at s2 idx col) [
  | none ↦ []
  | some source ↦ token_ranges_from source 0 s2
]
