-- ===== src/Finder.antt =====
-- find.go: the finder's index of a source and the search in it. The lines are given by what `AllRunes`
-- yields, a position and the bytes of a rune; the normalizer is a parameter.
pub mod Index
pub mod Matches
pub mod Search
pub mod Occurrences
use niceyaml.Prelude.{
  ℕ, zero, suc, ◌+◌, ◌-◌, ◌/◌, Bool, true, false, ◌&&◌, ◌||◌, List, [], ◌∷◌, ◌++◌, Option, none,
  some, Outcome, ok, panic, out_of_fuel, ◌>>=◌, at, length, take, drop, ltb, leb, ◌==◌,
  if◌then◌else◌,
}
use niceyaml.Prelude.Int.{ℤ, pos, ltb_ℤ, add64, sub64}
use niceyaml.Text.{Text, text_beq, rune_size, rune_count}
use niceyaml.Position.{Position, Range, new_position, new_range}

-- The struct `positionMap`.
pub record PositionMap : Type 0 where
  pub indices : List ℕ
  pub positions : List Position

-- `positionMap.add`.
unfoldable pub add : PositionMap → ℕ → Position → PositionMap
add m char_index p = record {
  indices = m.indices ++ char_index ∷ [];
  positions = m.positions ++ p ∷ [];
}

-- `sort.Search` for the closure of `lookup`, between `i` and `j`; each round halves the distance.
unfoldable pub search_indices : ℕ → List ℕ → ℤ → ℕ → ℕ → Outcome ℕ
search_indices zero indices char_index i j = out_of_fuel
search_indices (suc fuel) indices char_index i j =
    let h = (i + j) / 2 in
    let above = search_indices fuel indices char_index (h + 1) j in
    let below = search_indices fuel indices char_index i h in
    if ltb i j
    then (do v ← at indices h; if ltb_ℤ char_index (pos v) then below else above)
    else ok i

-- `positionMap.lookup`.
unfoldable pub lookup : PositionMap → ℤ → Outcome Position
unfolding search_indices
lookup m char_index =
    let found = search_indices (length m.indices + 1) m.indices char_index 0 (length m.indices) in
    if length m.indices == 0
    then ok (new_position (pos 0) (pos 0))
    else (do idx ← found; at m.positions (idx - 1))

-- What `WriteRune` writes for a rune that `range` reads: a byte that begins no rune is replaced.
abbrev pub written : Text → Text
written [] = []
written (b ∷ []) = if ltb b 0x80 then b ∷ [] else 0xEF ∷ 0xBF ∷ 0xBD ∷ []
written (b ∷ c ∷ s) = b ∷ c ∷ s

-- The runes of a string, as written; `skip` bytes of the rune before are still to pass.
unfoldable pub runes_from : ℕ → Text → List Text
unfolding rune_size
runes_from skip [] = []
runes_from zero (b ∷ s) = written (take (rune_size b s) (b ∷ s)) ∷ runes_from (rune_size b s - 1) s
runes_from (suc skip) (b ∷ s) = runes_from skip s

-- What a `LineIterator` gives; its address tells two of them apart.
pub record Lines : Type 0 where
  pub address : ℕ
  pub is_empty : Bool
  pub all_runes : List (Position × Text)

-- The struct `Finder`, but for the lock. A nil normalizer is `none`.
pub record Finder : Type 0 where
  pub normalizer : Option (Text → Text)
  pub prev_lines : Option ℕ
  pub pos_map : PositionMap
  pub source : Text
  pub byte_to_rune : List ℕ

abbrev pub normalize : Option (Text → Text) → Text → Text
normalize none s = s
normalize (some f) s = f s

abbrev pub no_positions : PositionMap
no_positions = record { indices = []; positions = [] }

-- `NewFinder`.
abbrev pub new_finder : Option (Text → Text) → Finder
new_finder normalizer = record {
  normalizer = normalizer;
  prev_lines = none;
  pos_map = no_positions;
  source = [];
  byte_to_rune = [];
}

-- The string builder, the position map and `normalizedCharIndex`.
pub record Building : Type 0 where
  pub source : Text
  pub pos_map : PositionMap
  pub char_index : ℕ

-- The inner loop of `buildSourceAndPositionMap`.
unfoldable pub add_runes : Position → List Text → Building → Building
unfolding add
add_runes p [] b = b
add_runes p (r ∷ rs) b = add_runes p rs (record {
  source = b.source ++ r;
  pos_map = add b.pos_map b.char_index p;
  char_index = b.char_index + 1;
})

-- The outer loop. The cache holds what `Normalize` gave for a rune before.
unfoldable pub add_cells : Option (Text → Text) → List (Position × Text) → Building → Building
unfolding add_runes runes_from
add_cells normalizer [] b = b
add_cells normalizer ((p, r) ∷ cells) b =
    add_cells normalizer cells (add_runes p (runes_from 0 (normalize normalizer r)) b)

abbrev pub no_building : Building
no_building = record { source = []; pos_map = no_positions; char_index = 0 }

-- `buildSourceAndPositionMap`, for lines that are not nil.
unfoldable pub build_source : Option (Text → Text) → Lines → Building
unfolding add_cells
build_source normalizer lines =
    if lines.is_empty then no_building else add_cells normalizer lines.all_runes no_building

-- The table of `buildByteToRuneIndex`: the number of runes before a byte that begins one, 0 elsewhere.
unfoldable pub rune_table : ℕ → ℕ → Text → List ℕ
unfolding rune_size
rune_table skip rune_count [] = rune_count ∷ []
rune_table zero rune_count (b ∷ s) = rune_count ∷ rune_table (rune_size b s - 1) (rune_count + 1) s
rune_table (suc skip) rune_count (b ∷ s) = 0 ∷ rune_table skip rune_count s

-- `buildByteToRuneIndex`.
unfoldable pub byte_to_rune_index : Text → List ℕ
unfolding rune_table
byte_to_rune_index [] = []
byte_to_rune_index (b ∷ s) = rune_table 0 0 (b ∷ s)

abbrev pub same_lines : Option ℕ → ℕ → Bool
same_lines none a = false
same_lines (some b) a = a == b

-- `Finder.Load`, for lines that are not nil.
unfoldable pub load : Finder → Lines → Finder
unfolding build_source byte_to_rune_index
load f lines =
    let b = build_source f.normalizer lines in
    if same_lines f.prev_lines lines.address then f else record {
      normalizer = f.normalizer;
      prev_lines = some lines.address;
      pos_map = b.pos_map;
      source = b.source;
      byte_to_rune = byte_to_rune_index b.source;
    }

abbrev pub has_prefix : Text → Text → Bool
has_prefix [] s = true
has_prefix (c ∷ p) [] = false
has_prefix (c ∷ p) (d ∷ s) = c == d && has_prefix p s

-- `strings.Index`, whose -1 is `none`; `i` bytes are behind.
unfoldable pub index_from : ℕ → Text → Text → Option ℕ
index_from i sub [] = if has_prefix sub [] then some i else none
index_from i sub (c ∷ s) =
    let later = index_from (i + 1) sub s in if has_prefix sub (c ∷ s) then some i else later

-- The range of the match at a byte of the source.
unfoldable pub match_range : Finder → ℕ → ℕ → Outcome Range
unfolding lookup add64 sub64
match_range f search_rune_count match_start = do
  match_start_char ← at f.byte_to_rune match_start
  start_pos ← lookup f.pos_map (pos match_start_char)
  end_pos ← lookup f.pos_map (sub64 (add64 (pos match_start_char) (pos search_rune_count)) (pos 1))
  ok (new_range start_pos (new_position end_pos.line (add64 end_pos.col (pos 1))))

-- The loop of `Find` from a byte on. Slicing the source behind its end panics.
unfoldable pub find_loop : ℕ → Finder → Text → ℕ → Outcome (List Range)
unfolding index_from match_range rune_count
find_loop zero f search_str offset = out_of_fuel
find_loop (suc fuel) f search_str offset =
    if ltb (length f.source) offset
    then panic
    else elim (index_from 0 search_str (drop offset f.source)) [
      | none ↦ ok []
      | some idx ↦ do
        range ← match_range f (rune_count search_str) (offset + idx)
        rest ← find_loop fuel f search_str (offset + idx + length search_str)
        ok (range ∷ rest)
    ]

-- `Finder.Find`. A match that is not empty takes a byte at least, so the bytes and one more are fuel
-- enough.
unfoldable pub find : Finder → Text → Outcome (List Range)
unfolding find_loop
find f search =
    let run = find_loop (length f.source + 1) f (normalize f.normalizer search) 0 in
    if text_beq search [] || text_beq f.source [] then ok [] else run
