-- ===== src/Source/Runes.antt =====
-- `Source.AllRunes`: what it yields for a range against what it yields for all of the source.
use niceyaml.Prelude.{
  ℕ, zero, suc, ◌+◌, ◌-◌, ◌≤◌, ◌<◌, ◌≡◌, ◌⊎◌, inl, inr, refl, sym, ap, ◌∙◌, true, List, [], ◌∷◌,
  ◌++◌, ok, ok_injective, bind_ok, ◌>>=◌, length, take, drop, Bool-cases, arith, panic, subst,
  Option-cases, dec_lt,
}
use niceyaml.Prelude.Int.{
  pos, negsuc, ◌≤ℤ◌, ◌<ℤ◌, min_ℤ, max_ℤ, pos_part, sub64, sub64-pos, half_range, sub_ℕ, ℤ-cases,
}
use niceyaml.Text.{Text}
use niceyaml.Position.{Position, Range, contains}
use niceyaml.Tokens.{Segment}
use niceyaml.Line.{Line}
use niceyaml.Finder.{runes_from}
use niceyaml.Source.{
  Source, Cell, cells_of, line_cells, lines_cells, range_cells, within_range, numbered, past_line,
  ranges_cells, all_runes,
}

contains-lines :
    (r : Range) (i : ℕ) (p : Position)
    → p.line ≡ pos i
    → contains r p ≡ true
    → (r.start.line ≤ℤ pos i) × (pos i ≤ℤ r.end.line)
unfolding contains
contains-lines r i p e h = ground arith

-- Every cell is on the line.
abbrev pub AllOn : ℕ → List Cell → Type 0
AllOn i [] = Unit
AllOn i ((p, c) ∷ cells) = (p.line ≡ pos i) × AllOn i cells

AllOn-append : (i : ℕ) (xs ys : List Cell) → AllOn i xs → AllOn i ys → AllOn i (xs ++ ys)
AllOn-append i [] ys h k = k
AllOn-append i ((p, c) ∷ xs) ys h k = (h.0, AllOn-append i xs ys h.1 k)

cells_of-AllOn : (i col : ℕ) (rs : List Text) → AllOn i (cells_of i col rs)
cells_of-AllOn i col [] = tt
cells_of-AllOn i col (r ∷ rs) = (refl, cells_of-AllOn i (col + 1) rs)

pub line_cells-AllOn :
    (i col : ℕ) (segs : List Segment) (cells : List Cell)
    → line_cells i col segs ≡ ok cells
    → AllOn i cells
unfolding line_cells
line_cells-AllOn i col [] cells h = subst (AllOn i) (ok_injective h) tt
line_cells-AllOn i col (s ∷ rest) cells h = elim (Option-cases s.part) [
  | inl nil_part ↦ absurd (never (rw nil_part at h))
  | inr (t, part) ↦
      let h' : (line_cells i (col + length (runes_from 0 t.origin)) rest
            >>= (λ cs. ok (cells_of i col (runes_from 0 t.origin) ++ cs)))
          ≡ ok cells =
        rw part at h in
      let (cs, run, e) = bind_ok (line_cells i (col + length (runes_from 0 t.origin)) rest) _ h' in
      subst (AllOn i) (ok_injective e) (
        AllOn-append i (cells_of i col (runes_from 0 t.origin)) cs
          (cells_of-AllOn i col (runes_from 0 t.origin))
          (line_cells-AllOn i (col + length (runes_from 0 t.origin)) rest cs run))
]
  where
    never : panic ≡ ok cells → ⊥
    never e = cc

-- No position of the line `i` is in the range.
abbrev pub IsOutside : Range → ℕ → Type 0
IsOutside r i = (pos i <ℤ r.start.line) ⊎ (r.end.line <ℤ pos i)

within_range-none :
    (r : Range) (i : ℕ) (cells : List Cell)
    → IsOutside r i
    → AllOn i cells
    → within_range r cells ≡ []
within_range-none r i [] out h = refl
within_range-none r i ((p, c) ∷ cells) out h = elim (Bool-cases (contains r p)) [
  | inl inside ↦ absurd (clash out (contains-lines r i p h.0 inside))
  | inr outside ↦ rw outside (within_range-none r i cells out h.1)
]
  where
    clash : IsOutside r i → (r.start.line ≤ℤ pos i) × (pos i ≤ℤ r.end.line) → ⊥
    clash (inl less) (a, b) = omega arith
    clash (inr more) (a, b) = omega arith

within_range-append :
    (r : Range) (xs ys : List Cell)
    → within_range r (xs ++ ys) ≡ within_range r xs ++ within_range r ys
within_range-append r [] ys = refl
within_range-append r ((p, c) ∷ xs) ys = elim (Bool-cases (contains r p)) [
  | inl inside ↦ rw inside (ap (λ rest. (p, c) ∷ rest) (within_range-append r xs ys))
  | inr outside ↦ rw outside (within_range-append r xs ys)
]

-- The cells of a first line and those of the rest.
pub lines_cells-cons :
    (i : ℕ) (l : Line) (ls : List (ℕ × Line)) (cs : List Cell)
    → lines_cells ((i, l) ∷ ls) ≡ ok cs
    → (xs ys : List Cell) × (line_cells i 0 l.segments ≡ ok xs)
      × (lines_cells ls ≡ ok ys)
      × (cs ≡ xs ++ ys)
unfolding lines_cells
lines_cells-cons i l ls cs h =
    let (xs, run, h') = bind_ok (line_cells i 0 l.segments) _ h in
    let (ys, run', e) = bind_ok (lines_cells ls) _ h' in (xs, ys, run, run', sym (ok_injective e))

module _ (r : Range) where
  -- A line outside the range gives nothing.
  outside_line :
      (i : ℕ) (l : Line) (xs ys : List Cell)
      → IsOutside r i
      → line_cells i 0 l.segments ≡ ok xs
      → within_range r (xs ++ ys) ≡ within_range r ys
  outside_line i l xs ys out run =
      within_range-append r xs ys
      ∙ ap (λ v. v ++ within_range r ys)
          (within_range-none r i xs out (line_cells-AllOn i 0 l.segments xs run))

  lines_behind :
      (j : ℕ) (ls : List Line) (cs : List Cell)
      → r.end.line <ℤ pos j
      → lines_cells (numbered j ls) ≡ ok cs
      → within_range r cs ≡ []
  unfolding lines_cells numbered
  lines_behind j [] cs out h = rw (sym (ok_injective h)) refl
  lines_behind j (l ∷ ls) cs out h =
      let (xs, ys, run, run', e) = lines_cells-cons j l (numbered (j + 1) ls) cs h in
      rw e (outside_line j l xs ys (inr out) run ∙ lines_behind (j + 1) ls ys (omega arith) run')

  taken_lines :
      (n j : ℕ) (ls : List Line) (cs : List Cell)
      → (length ls ≤ n) ⊎ (r.end.line <ℤ pos (j + n))
      → lines_cells (numbered j ls) ≡ ok cs
      → range_cells r (take n (numbered j ls)) ≡ ok (within_range r cs)
  unfolding lines_cells numbered range_cells
  taken_lines zero j [] cs last h = rw (sym (ok_injective h)) refl
  taken_lines zero j (l ∷ ls) cs (inl last) h = absurd (omega arith)
  taken_lines zero j (l ∷ ls) cs (inr last) h =
      ap ok (sym (lines_behind j (l ∷ ls) cs (omega arith) h))
  taken_lines (suc n) j [] cs last h = rw (sym (ok_injective h)) refl
  taken_lines (suc n) j (l ∷ ls) cs last h =
      let (xs, ys, run, run', e) = lines_cells-cons j l (numbered (j + 1) ls) cs h in
      let rest = taken_lines n (j + 1) ls ys (shifted last) run' in
      rw (e, within_range-append r xs ys) (rw (run, rest) refl)
    where
      shifted :
          (suc (length ls) ≤ suc n) ⊎ (r.end.line <ℤ pos (j + suc n))
          → (length ls ≤ n) ⊎ (r.end.line <ℤ pos (j + 1 + n))
      shifted (inl h) = inl (omega arith)
      shifted (inr h) = inr (omega arith)

  dropped_lines :
      (m n j : ℕ) (ls : List Line) (cs : List Cell)
      → (m ≡ 0) ⊎ (pos (j + m) ≤ℤ r.start.line)
      → (length ls ≤ m + n) ⊎ (r.end.line <ℤ pos (j + m + n))
      → lines_cells (numbered j ls) ≡ ok cs
      → range_cells r (take n (drop m (numbered j ls))) ≡ ok (within_range r cs)
  unfolding lines_cells numbered range_cells
  dropped_lines zero n j ls cs first last h = taken_lines n j ls cs (same last) h
    where
      same :
          (length ls ≤ 0 + n) ⊎ (r.end.line <ℤ pos (j + 0 + n))
          → (length ls ≤ n) ⊎ (r.end.line <ℤ pos (j + n))
      same (inl h) = inl (omega arith)
      same (inr h) = inr (omega arith)
  dropped_lines (suc m) zero j [] cs first last h = rw (sym (ok_injective h)) refl
  dropped_lines (suc m) (suc n) j [] cs first last h = rw (sym (ok_injective h)) refl
  dropped_lines (suc m) n j (l ∷ ls) cs (inl first) last h = absurd (omega arith)
  dropped_lines (suc m) n j (l ∷ ls) cs (inr first) last h =
      let (xs, ys, run, run', e) = lines_cells-cons j l (numbered (j + 1) ls) cs h in
      rw e (
        dropped_lines m n (j + 1) ls ys (inr (omega arith)) (shifted last) run'
        ∙ ap ok (sym (outside_line j l xs ys (inl (omega arith)) run)))
    where
      shifted :
          (suc (length ls) ≤ suc m + n) ⊎ (r.end.line <ℤ pos (j + suc m + n))
          → (length ls ≤ m + n) ⊎ (r.end.line <ℤ pos (j + 1 + m + n))
      shifted (inl h) = inl (omega arith)
      shifted (inr h) = inr (omega arith)

  first_bound :
      (m : ℕ) → m ≡ pos_part (max_ℤ (pos 0) r.start.line) → (m ≡ 0) ⊎ (pos (0 + m) ≤ℤ r.start.line)
  first_bound m h = first (ℤ-cases r.start.line)
    where
      first :
          ((n : ℕ) × (r.start.line ≡ pos n)) ⊎ ((n : ℕ) × (r.start.line ≡ negsuc n))
          → (m ≡ 0) ⊎ (pos (0 + m) ≤ℤ r.start.line)
      first (inl (n, e)) = inr (ground arith)
      first (inr (n, e)) = inl (ground arith)

  last_line :
      (m count : ℕ)
      → count < half_range
      → let n = past_line (min_ℤ (sub64 (pos count) (pos 1)) r.end.line) - m in
        (count ≤ m + n) ⊎ (r.end.line <ℤ pos (0 + m + n))
  last_line m count small = rw (sub64-pos count 1 small (omega arith)) (last (ℤ-cases r.end.line))
    where
      last :
          ((n : ℕ) × (r.end.line ≡ pos n)) ⊎ ((n : ℕ) × (r.end.line ≡ negsuc n))
          → let n = past_line (min_ℤ (sub_ℕ count 1) r.end.line) - m in
            (count ≤ m + n) ⊎ (r.end.line <ℤ pos (0 + m + n))
      last (inl (n, e)) = elim (dec_lt (suc n) count) [
        | yes p ↦ inr (ground arith)
        | no p ↦ inl (ground arith)
      ]
      last (inr (n, e)) = inr (ground arith)

-- The cells that the ranges hold, range by range.
abbrev pub ranges_within : List Range → List Cell → List Cell
ranges_within [] cells = []
ranges_within (r ∷ rs) cells = within_range r cells ++ ranges_within rs cells

ranges_cells-within :
    (s : Source) (rs : List Range) (cells : List Cell)
    → length s.lines < half_range
    → lines_cells (numbered 0 s.lines) ≡ ok cells
    → ranges_cells s rs ≡ ok (ranges_within rs cells)
unfolding ranges_cells
ranges_cells-within s [] cells small h = refl
ranges_cells-within s (r ∷ rs) cells small h =
    let m = pos_part (max_ℤ (pos 0) r.start.line) in
    let first =
      dropped_lines r m _ 0 s.lines cells (first_bound r m refl)
        (last_line r m (length s.lines) small) h in
    rw (first, ranges_cells-within s rs cells small h) refl

-- AllRunes with ranges yields, range by range, those of the runes it yields without one whose
-- position the range holds; where it yields all runes and the source has fewer than 2 ^ 63 lines.
pub all_runes-ranges :
    (s : Source) (r : Range) (rs : List Range) (cells : List Cell)
    → length s.lines < half_range
    → all_runes s [] ≡ ok cells
    → all_runes s (r ∷ rs) ≡ ok (ranges_within (r ∷ rs) cells)
unfolding all_runes
all_runes-ranges s r rs cells small h = ranges_cells-within s (r ∷ rs) cells small h
