-- ===== src/Examples/Searches.antt =====
-- A search in two cells, with a normalizer that drops runes.
use niceyaml.Prelude.{◌≡◌, refl, List, [], ◌∷◌, some, ok, length, arith, nat_eq}
use niceyaml.Prelude.Int.{pos}
use niceyaml.Text.{Text, text_eq}
use niceyaml.Position.{Range, new_position}
use niceyaml.Prelude.{◌<◌, get_elem?}
use niceyaml.Prelude.{false, inl, ◌-◌, min, ltb, if◌then◌else◌, out_of_fuel}
use niceyaml.Position.{Position}
use niceyaml.Finder.{
  Lines, Finder, new_finder, load, build_source, find, find_loop, lookup, normalize,
}
use niceyaml.Finder.Index.{IsIndexed, load-IsIndexed, new_finder-IsIndexed, lookup-limit}
use niceyaml.Finder.Search.{find-total, find_loop-endless}

-- The text `ab` in two cells, and a normalizer that drops every rune from 128 on, as the removal of
-- combining marks drops some.
abbrev two_cells : Lines
two_cells = record {
  address = 0;
  is_empty = false;
  all_runes =
      (new_position (pos 0) (pos 0), 97 ∷ []) ∷ (new_position (pos 0) (pos 1), 98 ∷ []) ∷ [];
}

abbrev keep_ascii : Text → Text
keep_ascii [] = []
keep_ascii (c ∷ s) = let rest = keep_ascii s in if ltb c 128 then c ∷ rest else rest

abbrev loaded : Finder
loaded = load (new_finder (some keep_ascii)) two_cells

loaded-IsIndexed : IsIndexed loaded
loaded-IsIndexed =
    load-IsIndexed (new_finder (some keep_ascii)) two_cells (new_finder-IsIndexed (some keep_ascii))

loaded-normalizer : loaded.normalizer ≡ some keep_ascii
unfolding load
loaded-normalizer = refl

load-IsIndexed_example : IsIndexed (load loaded two_cells)
load-IsIndexed_example = load-IsIndexed loaded two_cells loaded-IsIndexed

letter_b : 0 < length (normalize loaded.normalizer (98 ∷ []))
unfolding load
letter_b = omega arith

find-total_example : (rs : List Range) × (find loaded (98 ∷ []) ≡ ok rs)
find-total_example = find-total loaded (98 ∷ []) loaded-IsIndexed (inl letter_b)

-- The combining acute accent.
accent_dropped : normalize loaded.normalizer (0xCC ∷ 0x81 ∷ []) ≡ []
unfolding load
accent_dropped = refl

loaded-source : 0 < length loaded.source
unfolding load build_source
loaded-source = omega arith

find_loop-endless_example :
    find_loop 100 loaded (normalize loaded.normalizer (0xCC ∷ 0x81 ∷ [])) 0 ≡ out_of_fuel
find_loop-endless_example =
    find_loop-endless loaded (0xCC ∷ 0x81 ∷ []) 100 loaded-IsIndexed loaded-source accent_dropped

loaded-indices : 0 < length loaded.pos_map.indices
unfolding load build_source
loaded-indices = omega arith

lookup-limit_example :
    (p : Position) × (lookup loaded.pos_map (pos 1) ≡ ok p)
    × (get_elem? loaded.pos_map.positions (min 2 (length loaded.pos_map.indices) - 1) ≡ some p)
lookup-limit_example =
    lookup-limit loaded.pos_map (pos 1) (IsIndexed.map loaded-IsIndexed) loaded-indices
