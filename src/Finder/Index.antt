-- ===== src/Finder/Index.antt =====
-- The index of a source: `Load` makes it, and `lookup` finds in it.
use native.Mathlib.Nat.{le_refl}
use niceyaml.Prelude.{
  ℕ, zero, suc, ◌+◌, ◌-◌, ◌/◌, ◌≤◌, ◌<◌, ◌≡◌, refl, sym, ap, ◌∙◌, ◌⊎◌, inl, inr, false, List, [],
  ◌∷◌, Option, some, ok, length, length-append, get_elem?, get_elem?_total, get_elem?-append_left,
  get_elem?-snoc, min, max, ltb, leb, ◌==◌, Bool-cases, arith, dec_lt,
}
use niceyaml.Prelude.Int.{ℤ, pos, negsuc, ltb_ℤ}
use niceyaml.Text.{Text, text_eq}
use niceyaml.Position.{Position}
use niceyaml.Finder.{
  PositionMap, add, search_indices, lookup, Lines, Finder, new_finder, Building, add_runes,
  add_cells, build_source, no_building, byte_to_rune_index, load, same_lines, no_positions,
  runes_from, normalize,
}

-- Each index stands at its own place, with a position for each.
pub record IsMap (m : PositionMap) : Type 0 where
  pub same_size : length m.positions ≡ length m.indices
  pub index_at : (k : ℕ) → k < length m.indices → get_elem? m.indices k ≡ some k

-- How many indices are not above a character index.
abbrev pub limit : ℤ → ℕ
limit (pos n) = suc n
limit (negsuc n) = 0

limit_test : (c : ℤ) (h : ℕ) → ltb_ℤ c (pos h) ≡ leb (limit c) h
limit_test c h = ground arith

module _ (m : PositionMap) (c : ℤ) (w : IsMap m) where
  search_indices-limit :
      (fuel i j : ℕ)
      → i ≤ j
      → j ≤ length m.indices
      → j < i + fuel
      → search_indices fuel m.indices c i j ≡ ok (max i (min (limit c) j))
  unfolding search_indices
  search_indices-limit zero i j p q r = absurd (omega arith)
  search_indices-limit (suc fuel) i j p q r = elim (Bool-cases (ltb i j)) [
    | inl less ↦
        let h : ℕ = (i + j) / 2 in
        let below : h < j = ground arith in
        let above : i ≤ h = ground arith in
        let read : get_elem? m.indices h ≡ some h = w.index_at h (omega arith) in
        elim (Bool-cases (leb (limit c) h)) [
          | inl high ↦
              rw (search_indices, less, read, limit_test c h, high)
                (search_indices-limit fuel i h above (omega arith) (omega arith)
                  ∙ ap ok (ground arith))
          | inr low ↦
              rw (search_indices, less, read, limit_test c h, low)
                (search_indices-limit fuel (h + 1) j (omega arith) q (omega arith)
                  ∙ ap ok (ground arith))
        ]
    | inr not_less ↦ rw (search_indices, not_less) (ap ok (ground arith))
  ]

  lookup-run :
      (idx : ℕ) (p : Position)
      → (length m.indices == 0) ≡ false
      → search_indices (length m.indices + 1) m.indices c 0 (length m.indices) ≡ ok idx
      → get_elem? m.positions (idx - 1) ≡ some p
      → lookup m c ≡ ok p
  unfolding lookup
  lookup-run idx p full found e = rw (lookup, full, found) (rw e refl)

  -- lookup in a position map that is not empty and whose indices stand at their own places, with a
  -- position for each, gives the position of the character index, the first one for a negative index
  -- and the last one for an index behind the end.
  pub lookup-limit :
      0 < length m.indices
      → (p : Position) × (lookup m c ≡ ok p)
        × (get_elem? m.positions (min (limit c) (length m.indices) - 1) ≡ some p)
  unfolding lookup
  lookup-limit some_index =
      let found : search_indices (length m.indices + 1) m.indices c 0 (length m.indices)
          ≡ ok (max 0 (min (limit c) (length m.indices))) =
        search_indices-limit (length m.indices + 1) 0 (length m.indices) (omega arith) (le_refl _)
          (omega arith) in
      let same : max 0 (min (limit c) (length m.indices)) ≡ min (limit c) (length m.indices) =
        omega arith in
      let (p, e) =
        get_elem?_total m.positions (min (limit c) (length m.indices) - 1)
          (omega (arith, w.same_size)) in
      let full : (length m.indices == 0) ≡ false = ground arith in
      (p, lookup-run (min (limit c) (length m.indices)) p full (found ∙ ap ok same) e, e)

-- What the loops of `buildSourceAndPositionMap` keep.
pub record IsBuilt (b : Building) : Type 0 where
  pub map : IsMap b.pos_map
  pub count : length (PositionMap.indices b.pos_map) ≡ b.char_index
  pub held : (length b.source ≡ 0) ⊎ (0 < b.char_index)

add-IsMap :
    (m : PositionMap) (k : ℕ) (p : Position) → IsMap m → length m.indices ≡ k → IsMap (add m k p)
unfolding add
add-IsMap m k p w e = record {
  same_size =
      omega
        (arith, length-append m.positions (p ∷ []), length-append m.indices (k ∷ []), w.same_size);
  index_at = λ j h. elim (dec_lt j (length m.indices)) [
    | yes less ↦ get_elem?-append_left m.indices (k ∷ []) j less ∙ w.index_at j less
    | no more ↦
        let last : j ≡ length m.indices = omega (arith, length-append m.indices (k ∷ [])) in
        rw last (get_elem?-snoc m.indices k ∙ ap some (sym e))
  ];
}

added-count :
    (b : Building) (p : Position)
    → length (PositionMap.indices b.pos_map) ≡ b.char_index
    → length (PositionMap.indices (add b.pos_map b.char_index p)) ≡ b.char_index + 1
unfolding add
added-count b p e =
    length-append (PositionMap.indices b.pos_map) (b.char_index ∷ []) ∙ ap (λ n. n + 1) e

add_runes-IsBuilt :
    (p : Position) (rs : List Text) (b : Building) → IsBuilt b → IsBuilt (add_runes p rs b)
unfolding add_runes
add_runes-IsBuilt p [] b w = w
add_runes-IsBuilt p (r ∷ rs) b w = add_runes-IsBuilt p rs _ (record {
  map = add-IsMap b.pos_map b.char_index p w.map w.count;
  count = added-count b p w.count;
  held = inr (omega arith);
})

add_cells-IsBuilt :
    (normalizer : Option (Text → Text)) (cells : List (Position × Text)) (b : Building)
    → IsBuilt b
    → IsBuilt (add_cells normalizer cells b)
unfolding add_cells
add_cells-IsBuilt normalizer [] b w = w
add_cells-IsBuilt normalizer ((p, r) ∷ cells) b w =
    add_cells-IsBuilt normalizer cells _
      (add_runes-IsBuilt p (runes_from 0 (normalize normalizer r)) b w)

-- A finder whose index belongs to its source.
pub record IsIndexed (f : Finder) : Type 0 where
  pub map : IsMap f.pos_map
  pub held : (length f.source ≡ 0) ⊎ (0 < length (PositionMap.indices f.pos_map))
  pub table : f.byte_to_rune ≡ byte_to_rune_index f.source

no_positions-IsMap : IsMap no_positions
no_positions-IsMap = record { same_size = refl; index_at = λ k h. absurd (omega arith) }

no_building-IsBuilt : IsBuilt no_building
no_building-IsBuilt = record { map = no_positions-IsMap; count = refl; held = inl refl }

-- A new finder is indexed.
pub new_finder-IsIndexed : (normalizer : Option (Text → Text)) → IsIndexed (new_finder normalizer)
unfolding byte_to_rune_index
new_finder-IsIndexed normalizer = record { map = no_positions-IsMap; held = inl refl; table = refl }

build_source-IsBuilt :
    (normalizer : Option (Text → Text)) (lines : Lines) → IsBuilt (build_source normalizer lines)
unfolding build_source
build_source-IsBuilt normalizer lines = elim (Bool-cases lines.is_empty) [
  | inl empty ↦ rw (build_source, empty) no_building-IsBuilt
  | inr full ↦
      rw (build_source, full)
        (add_cells-IsBuilt normalizer lines.all_runes no_building no_building-IsBuilt)
]

-- Load leaves an indexed finder indexed, whatever lines it is given: each index of the position map
-- stands at its own place and has a position, a source that is not empty has at least one, and the
-- table of runes is that of the source.
pub load-IsIndexed : (f : Finder) (lines : Lines) → IsIndexed f → IsIndexed (load f lines)
unfolding load
load-IsIndexed f lines w = elim (Bool-cases (same_lines f.prev_lines lines.address)) [
  | inl same ↦ rw (load, same) w
  | inr other ↦
      let b = build_source-IsBuilt f.normalizer lines in
      rw (load, other)
        (record {
          map = b.map;
          held = elim b.held [ inl e ↦ inl e | inr p ↦ inr (omega (arith, b.count)) ];
          table = refl;
        })
]
