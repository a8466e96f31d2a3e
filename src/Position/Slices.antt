-- ===== src/Position/Slices.antt =====
-- `Range.SliceLines`: the slices hold the positions of the range.
use niceyaml.Prelude.{
  ℕ, zero, suc, ◌+◌, ◌≤◌, ◌<◌, ◌≡◌, refl, sym, ap, ◌∙◌, Bool, false, not, ◌&&◌, ◌||◌, List, [], ◌∷◌,
  ok, Bool-cases, inl, inr, ltb, leb, ◌==◌, arith,
}
use niceyaml.Prelude.Int.{
  ℤ, pos, ltb_ℤ, eqb_ℤ, add64, sub64, add64-pos, sub64-pos, half_range, sub_ℕ,
}
use niceyaml.Position.{
  Position, Range, contains, slice_at, slices, slice_lines, new_position, new_range, max_col,
}

-- Some range holds the position.
abbrev pub any_contains : List Range → Position → Bool
any_contains [] p = false
any_contains (r ∷ rs) p = contains r p || any_contains rs p

-- The columns of line `l` that a range from line `a` and column `c` to line `b` and column `c'` holds.
abbrev columns : ℕ → ℤ → ℕ → ℤ → ℕ → ℕ → Bool
columns a c b c' l k = not (l == a && ltb_ℤ (pos k) c) && not (l == b && not (ltb_ℤ (pos k) c'))

-- A range on the one line `m`.
contains-line :
    (m l k : ℕ) (x y : ℤ)
    → contains
        (new_range (new_position (pos m) x) (new_position (pos m) y))
        (new_position (pos l) (pos k))
      ≡ (l == m) && (not (ltb_ℤ (pos k) x) && ltb_ℤ (pos k) y)
unfolding contains
contains-line m l k x y = ground arith

module _ (a d : ℕ) (c c' : ℤ) (room : a + suc d + 1 < half_range) (l k : ℕ)
    (visible : k < 1_000_000) where
  abbrev lines : Range
  lines = new_range (new_position (pos a) c) (new_position (pos (a + suc d)) c')

  abbrev point : Position
  point = new_position (pos l) (pos k)

  contains-lines :
      contains lines point ≡ leb a l && leb l (a + suc d) && columns a c (a + suc d) c' l k
  unfolding contains
  contains-lines = ground arith

  first_columns :
      (m : ℕ)
      → m ≡ a
      → (l == m) && (not (ltb_ℤ (pos k) c) && ltb_ℤ (pos k) max_col)
        ≡ (l == m) && columns a c (a + suc d) c' l k
  first_columns m h = ground arith

  last_columns :
      (m : ℕ)
      → m ≡ a + suc d
      → (l == m) && (not (ltb_ℤ (pos k) (pos 0)) && ltb_ℤ (pos k) c')
        ≡ (l == m) && columns a c (a + suc d) c' l k
  last_columns m h = ground arith

  middle_columns :
      (m : ℕ)
      → a < m
      → m < a + suc d
      → (l == m) && (not (ltb_ℤ (pos k) (pos 0)) && ltb_ℤ (pos k) max_col)
        ≡ (l == m) && columns a c (a + suc d) c' l k
  middle_columns m g h = ground arith

  contains-slice_at :
      (i : ℕ)
      → i ≤ suc d
      → contains (slice_at lines (suc (suc d)) i) point
        ≡ (l == a + i) && columns a c (a + suc d) c' l k
  unfolding slice_at
  contains-slice_at i h =
      let line : add64 (pos a) (pos i) ≡ pos (a + i) = add64-pos a i (omega arith) in
      elim (Bool-cases (i == 0)) [
        | inl first ↦
            rw (slice_at, line, first)
              (contains-line (a + i) l k c max_col ∙ first_columns (a + i) (ground arith))
        | inr behind ↦ elim (Bool-cases (i + 1 == suc (suc d))) [
          | inl last ↦
              rw (slice_at, line, behind, last)
                (contains-line (a + i) l k (pos 0) c' ∙ last_columns (a + i) (ground arith))
          | inr before ↦
              rw (slice_at, line, behind, before)
                (contains-line (a + i) l k (pos 0) max_col
                  ∙ middle_columns (a + i) (ground arith) (ground arith))
        ]
      ]

  any_contains-slices :
      (i count : ℕ)
      → i + count ≤ suc (suc d)
      → any_contains (slices lines (suc (suc d)) i count) point
        ≡ leb (a + i) l && ltb l (a + i + count) && columns a c (a + suc d) c' l k
  unfolding slices
  any_contains-slices i zero h = ground arith
  any_contains-slices i (suc count) h =
      let here = contains-slice_at i (omega arith) in
      let later = any_contains-slices (i + 1) count (omega arith) in ground (arith, here, later)

slice_lines-slices :
    (a d : ℕ) (c c' : ℤ)
    → a + suc d + 1 < half_range
    → slice_lines (new_range (new_position (pos a) c) (new_position (pos (a + suc d)) c'))
      ≡ ok (
          slices
            (new_range (new_position (pos a) c) (new_position (pos (a + suc d)) c'))
            (suc (suc d))
            0
            (suc (suc d)))
unfolding slice_lines
slice_lines-slices a d c c' room =
    let differ : eqb_ℤ (pos a) (pos (a + suc d)) ≡ false = ground arith in
    let distance : sub_ℕ (a + suc d) a ≡ pos (suc d) = ground arith in
    let count : add64 (sub64 (pos (a + suc d)) (pos a)) (pos 1) ≡ pos (suc (suc d)) =
      ap (λ v. add64 v (pos 1)) (sub64-pos (a + suc d) a (omega arith) (omega arith) ∙ distance)
      ∙ add64-pos (suc d) 1 (omega arith)
      ∙ ap pos (omega arith) in
    rw (slice_lines, differ) (rw count refl)

-- SliceLines of a range over several lines whose line numbers are not negative and fit in an int
-- returns ranges that together hold the same positions as the range, of those with a column from 0
-- up to the limit that stands for the end of a line.
pub slice_lines-contains :
    (a d : ℕ) (c c' : ℤ)
    → a + suc d + 1 < half_range
    → (rs : List Range) × (slice_lines
          (new_range (new_position (pos a) c) (new_position (pos (a + suc d)) c'))
        ≡ ok rs)
      × ((l k : ℕ)
          → k < 1_000_000
          → any_contains rs (new_position (pos l) (pos k))
            ≡ contains
                (new_range (new_position (pos a) c) (new_position (pos (a + suc d)) c'))
                (new_position (pos l) (pos k)))
slice_lines-contains a d c c' room = (
  slices (new_range (new_position (pos a) c) (new_position (pos (a + suc d)) c')) (suc (suc d)) 0
      (suc (suc d)),
  slice_lines-slices a d c c' room,
  λ l k visible.
      any_contains-slices a d c c' room l k visible 0 (suc (suc d)) (omega arith)
      ∙ whole l k
      ∙ sym (contains-lines a d c c' room l k visible),
)
  where
    whole :
        (l k : ℕ)
        → leb (a + 0) l && ltb l (a + 0 + suc (suc d)) && columns a c (a + suc d) c' l k
          ≡ leb a l && leb l (a + suc d) && columns a c (a + suc d) c' l k
    whole l k =
        let zero_right : a + 0 ≡ a = omega arith in
        let bound : ltb l (a + suc (suc d)) ≡ leb l (a + suc d) = ground arith in
        rw (zero_right, bound) refl
