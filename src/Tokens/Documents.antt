-- ===== src/Tokens/Documents.antt =====
-- tokens/tokens.go: the split of a token stream into documents. `Tokens.Add` drops nothing, so the
-- streams are lists of tokens; none of them is nil.
pub mod Splitting
use niceyaml.Prelude.{
  Bool, true, false, ◌&&◌, not, List, [], ◌∷◌, ◌++◌, map, Option, none, some, if◌then◌else◌,
}
use niceyaml.Prelude.Int.{ℤ, pos, eqb_ℤ, add64, sub64}
use niceyaml.Tokens.{Token, TokenPosition, TokenType, document_header_type}

-- The first token that has a position.
abbrev pub first_position : List Token → Option TokenPosition
first_position [] = none
first_position (t ∷ rest) = elim t.position [ none ↦ first_position rest | some p ↦ some p ]

-- The variables `startLine`, `startCol` and `startOffset`, which are 0 without a position.
abbrev pub start_of : Option TokenPosition → TokenPosition
start_of none = record {
  line = pos 0;
  column = pos 0;
  offset = pos 0;
  indent_num = pos 0;
  indent_level = pos 0;
}
start_of (some p) = p

-- The position of a clone; the column counts from the start on the first line only.
unfoldable pub reset_position : TokenPosition → TokenPosition → TokenPosition
unfolding add64 sub64
reset_position start p =
    let line = add64 (sub64 p.line start.line) (pos 1) in
    let column = add64 (sub64 p.column start.column) (pos 1) in
    record p {
      line = line;
      column = if eqb_ℤ line (pos 1) then column else p.column;
      offset = sub64 p.offset start.offset;
    }

abbrev pub reset_token : TokenPosition → Token → Token
reset_token start t = elim t.position [
  | none ↦ t
  | some p ↦ record t { position = some (reset_position start p) }
]

-- `CloneWithResetPositions`.
unfoldable pub clone_with_reset_positions : List Token → List Token
unfolding reset_position
clone_with_reset_positions tks = map (reset_token (start_of (first_position tks))) tks

abbrev pub is_header : Token → Bool
is_header t = elim t.type [ document_header_type ↦ true | _ ↦ false ]

abbrev pub is_started : List Token → Bool
is_started [] = false
is_started (t ∷ ts) = true

-- What `yieldDoc` yields.
abbrev pub yielded : Bool → List Token → List Token
yielded reset doc = if reset then clone_with_reset_positions doc else doc

-- The documents that are left at the end of the loop.
abbrev pub last_document : Bool → List Token → List (List Token)
last_document reset [] = []
last_document reset (t ∷ ts) = yielded reset (t ∷ ts) ∷ []

-- The loop of `SplitDocuments`, with the tokens of the current document.
unfoldable pub split_loop : Bool → List Token → List Token → List (List Token)
unfolding clone_with_reset_positions
split_loop reset current [] = last_document reset current
split_loop reset current (t ∷ rest) =
    let next = split_loop reset (t ∷ []) rest in
    let same = split_loop reset (current ++ t ∷ []) rest in
    if is_header t && is_started current then yielded reset current ∷ next else same

-- `SplitDocuments`, for a consumer that takes all documents; `reset` is `WithResetPositions`.
unfoldable pub split_documents : Bool → List Token → List (List Token)
unfolding split_loop
split_documents reset tks = split_loop reset [] tks
