-- ===== src/Source/Search.antt =====
-- The finder on a source: what it finds lies on the lines of the source.
use niceyaml.Prelude.{
  ℕ, zero, suc, ◌+◌, ◌<◌, ◌≡◌, inl, inr, refl, sym, ap, ◌∙◌, subst, List, [], ◌∷◌, ◌++◌, Option,
  some, ok, panic, out_of_fuel, ok_injective, some_injective, bind_ok, ◌||◌, ◌>>=◌, at, length,
  get_elem?, arith, Option-cases, Bool-cases, ltb, drop,
}
use niceyaml.Prelude.Int.{ℤ, pos, add64, sub64}
use niceyaml.Text.{Text, text_beq, rune_count}
use niceyaml.Position.{Position, Range}
use niceyaml.Line.{Line}
use niceyaml.Finder.{
  Lines, Finder, Building, add_runes, add_cells, build_source, load, new_finder, find, find_loop,
  match_range, lookup, normalize, runes_from, index_from,
}
use niceyaml.Finder.Index.{IsMap, IsIndexed, lookup-limit, load-IsIndexed, new_finder-IsIndexed}
use niceyaml.Finder.Search.{find-total, source_length}
use niceyaml.Source.{Source, Cell, lines_cells, numbered, all_runes, finder_lines, has_no_lines}
use niceyaml.Source.Runes.{AllOn, line_cells-AllOn, lines_cells-cons}

-- The position is on one of `n` lines.
abbrev pub IsOn : ℕ → Position → Type 0
IsOn n p = (i : ℕ) × (p.line ≡ pos i) × (i < n)

abbrev pub AllOnLines : ℕ → List Position → Type 0
AllOnLines n [] = Unit
AllOnLines n (p ∷ ps) = IsOn n p × AllOnLines n ps

-- Both ends of every range are on one of `n` lines.
abbrev pub RangesOn : ℕ → List Range → Type 0
RangesOn n [] = Unit
RangesOn n (r ∷ rs) = (IsOn n r.start × IsOn n r.end) × RangesOn n rs

abbrev finder_input : ℕ → Source → List Cell → Lines
finder_input address s cells = record {
  address = address;
  is_empty = has_no_lines s;
  all_runes = cells;
}

AllOnLines-append :
    (n : ℕ) (ps qs : List Position) → AllOnLines n ps → AllOnLines n qs → AllOnLines n (ps ++ qs)
AllOnLines-append n [] qs h k = k
AllOnLines-append n (p ∷ ps) qs h k = (h.0, AllOnLines-append n ps qs h.1 k)

AllOnLines-get :
    (n : ℕ) (ps : List Position) (i : ℕ) (p : Position)
    → AllOnLines n ps
    → get_elem? ps i ≡ some p
    → IsOn n p
AllOnLines-get n [] i p h e = cc
AllOnLines-get n (q ∷ ps) zero p h e = subst (IsOn n) (some_injective e) h.0
AllOnLines-get n (q ∷ ps) (suc i) p h e = AllOnLines-get n ps i p h.1 e

-- Every cell is on one of `n` lines.
abbrev CellsOn : ℕ → List Cell → Type 0
CellsOn n [] = Unit
CellsOn n ((p, c) ∷ cells) = IsOn n p × CellsOn n cells

AllOn-CellsOn :
    (n i : ℕ) (xs ys : List Cell) → i < n → AllOn i xs → CellsOn n ys → CellsOn n (xs ++ ys)
AllOn-CellsOn n i [] ys less h k = k
AllOn-CellsOn n i ((p, c) ∷ xs) ys less h k = ((i, h.0, less), AllOn-CellsOn n i xs ys less h.1 k)

lines_cells-CellsOn :
    (n j : ℕ) (ls : List Line) (cs : List Cell)
    → j + length ls ≡ n
    → lines_cells (numbered j ls) ≡ ok cs
    → CellsOn n cs
unfolding lines_cells numbered
lines_cells-CellsOn n j [] cs e h = subst (CellsOn n) (ok_injective h) tt
lines_cells-CellsOn n j (l ∷ ls) cs e h =
    let (xs, ys, run, run', same) = lines_cells-cons j l (numbered (j + 1) ls) cs h in
    subst (CellsOn n) (sym same) (
      AllOn-CellsOn n j xs ys (omega arith) (line_cells-AllOn j 0 l.segments xs run)
        (lines_cells-CellsOn n (j + 1) ls ys (omega arith) run'))

add_runes-AllOnLines :
    (n : ℕ) (p : Position) (rs : List Text) (b : Building)
    → IsOn n p
    → AllOnLines n b.pos_map.positions
    → AllOnLines n (Building.pos_map (add_runes p rs b)).positions
unfolding add_runes
add_runes-AllOnLines n p [] b h k = k
add_runes-AllOnLines n p (r ∷ rs) b h k =
    add_runes-AllOnLines n p rs _ h (AllOnLines-append n b.pos_map.positions (p ∷ []) k (h, tt))

add_cells-AllOnLines :
    (n : ℕ) (normalizer : Option (Text → Text)) (cells : List Cell) (b : Building)
    → CellsOn n cells
    → AllOnLines n b.pos_map.positions
    → AllOnLines n (Building.pos_map (add_cells normalizer cells b)).positions
unfolding add_cells
add_cells-AllOnLines n normalizer [] b h k = k
add_cells-AllOnLines n normalizer ((p, c) ∷ cells) b h k =
    add_cells-AllOnLines n normalizer cells _ h.1
      (add_runes-AllOnLines n p (runes_from 0 (normalize normalizer c)) b h.0 k)

module _ (n : ℕ) (f : Finder) (w : IsMap f.pos_map) (some_index : 0 < length f.pos_map.indices)
    (on : AllOnLines n f.pos_map.positions) where
  lookup-IsOn : (c : ℤ) (p : Position) → lookup f.pos_map c ≡ ok p → IsOn n p
  lookup-IsOn c p h =
      let (q, run, e) = lookup-limit f.pos_map c w some_index in
      AllOnLines-get n f.pos_map.positions _ p on (e ∙ ap some (ok_injective (sym run ∙ h)))

  match_range-IsOn :
      (count m : ℕ) (r : Range) → match_range f count m ≡ ok r → IsOn n r.start × IsOn n r.end
  unfolding match_range
  match_range-IsOn count m r h =
      let (k, _, h₁) = bind_ok (at f.byte_to_rune m) _ h in
      let (p, start, h₂) = bind_ok (lookup f.pos_map (pos k)) _ h₁ in
      let (q, end, h₃) =
        bind_ok (lookup f.pos_map (sub64 (add64 (pos k) (pos count)) (pos 1))) _ h₂ in
      subst (λ v. IsOn n v.start × IsOn n v.end) (ok_injective h₃)
        (lookup-IsOn _ p start, lookup-IsOn _ q end)

  find_loop-RangesOn :
      (fuel offset : ℕ) (sub : Text) (rs : List Range)
      → find_loop fuel f sub offset ≡ ok rs
      → RangesOn n rs
  unfolding find_loop
  find_loop-RangesOn zero offset sub rs h = absurd (let bad : out_of_fuel ≡ ok rs = h in cc)
  find_loop-RangesOn (suc fuel) offset sub rs h = elim (Bool-cases (ltb (length f.source) offset)) [
    | inl over ↦ absurd (let bad : panic ≡ ok rs = rw over at h in cc)
    | inr inside ↦ elim (Option-cases (index_from 0 sub (drop offset f.source))) [
      | inl nowhere ↦
          let same : ok [] ≡ ok rs = rw (inside, nowhere) at h in
          subst (RangesOn n) (ok_injective same) tt
      | inr (idx, found) ↦
          let h' : (match_range f (rune_count sub) (offset + idx) >>= (λ r.
            find_loop fuel f sub (offset + idx + length sub) >>= (λ rest. ok (r ∷ rest))))
              ≡ ok rs =
            rw (inside, found) at h in
          let (r, run, h₁) = bind_ok (match_range f (rune_count sub) (offset + idx)) _ h' in
          let (rest, run', h₂) = bind_ok (find_loop fuel f sub (offset + idx + length sub)) _ h₁ in
          subst (RangesOn n) (ok_injective h₂) (
            match_range-IsOn (rune_count sub) (offset + idx) r run,
            find_loop-RangesOn fuel (offset + idx + length sub) sub rest run',
          )
    ]
  ]

find-RangesOn :
    (n : ℕ) (f : Finder) (searched : Text) (rs : List Range)
    → IsIndexed f
    → AllOnLines n f.pos_map.positions
    → find f searched ≡ ok rs
    → RangesOn n rs
unfolding find
find-RangesOn n f searched rs w on h =
    elim (Bool-cases (text_beq searched [] || text_beq f.source [])) [
      | inl blank ↦
          let same : ok [] ≡ ok rs = rw blank at h in subst (RangesOn n) (ok_injective same) tt
      | inr real ↦ elim w.held [
        | inl bare ↦ absurd (omega (arith, source_length f.source searched real))
        | inr some_index ↦
            find_loop-RangesOn n f w.map some_index on (length f.source + 1) 0
              (normalize f.normalizer searched) rs (rw real at h)
      ]
    ]

-- What the finder has loaded when it is new.
load-AllOnLines :
    (normalizer : Option (Text → Text)) (s : Source) (address : ℕ) (cells : List Cell)
    → all_runes s [] ≡ ok cells
    → AllOnLines
        (length s.lines)
        (Finder.pos_map (load (new_finder normalizer) (finder_input address s cells))).positions
unfolding load build_source all_runes
load-AllOnLines normalizer s address cells h = elim (Bool-cases (has_no_lines s)) [
  | inl empty ↦ rw (load, build_source, empty) tt
  | inr full ↦
      rw (load, build_source, full)
        (add_cells-AllOnLines (length s.lines) normalizer cells _
          (lines_cells-CellsOn (length s.lines) 0 s.lines cells (omega arith) h) tt)
]

normalizer-load :
    (normalizer : Option (Text → Text)) (lines : Lines)
    → Finder.normalizer (load (new_finder normalizer) lines) ≡ normalizer
unfolding load
normalizer-load normalizer lines = refl

-- A new finder that loads a source finds ranges that begin and end on lines of the source, and its
-- search returns, where the source yields its runes and the normalizer leaves something of the
-- search string.
pub find-source :
    (normalizer : Option (Text → Text)) (s : Source) (address : ℕ) (cells : List Cell)
    (searched : Text)
    → all_runes s [] ≡ ok cells
    → 0 < length (normalize normalizer searched)
    → (lines : Lines) × (rs : List Range) × (finder_lines address s ≡ ok lines)
      × (find (load (new_finder normalizer) lines) searched ≡ ok rs)
      × RangesOn (length s.lines) rs
unfolding finder_lines
find-source normalizer s address cells searched h p =
    let lines = finder_input address s cells in
    let f = load (new_finder normalizer) lines in
    let w = load-IsIndexed (new_finder normalizer) lines (new_finder-IsIndexed normalizer) in
    let (rs, run) = find-total f searched w (inl (rw (normalizer-load normalizer lines) p)) in
    (
      lines,
      rs,
      rw h refl,
      run,
      find-RangesOn (length s.lines) f searched rs w (load-AllOnLines normalizer s address cells h)
          run,
    )
