-- ===== src/Finder/Matches.antt =====
-- The range of a match: the table of runes and the position map at its two ends.
use niceyaml.Prelude.{
  ℕ, zero, suc, ◌+◌, ◌-◌, ◌≤◌, ◌<◌, ◌≡◌, refl, sym, ap, ◌∙◌, true, false, Bool, ◌&&◌, [], ◌∷◌, some,
  ok, length, get_elem?, drop, min, ltb, ◌==◌, if◌then◌else◌, Bool-cases, inl, inr, arith, and_true,
}
use niceyaml.Prelude.Int.{pos, sub_pos, add64, add64-pos, sub64, sub64-pos, half_range}
use niceyaml.Text.{
  Text, continuation, within, sequence2, sequence3, sequence4, rune_size, rune_count,
  rune_count_from,
}
use niceyaml.Position.{Position, Range, new_position, new_range}
use niceyaml.Finder.{Finder, lookup, rune_table, byte_to_rune_index, match_range}
use niceyaml.Finder.Index.{IsIndexed, lookup-limit}

-- The first bytes continue a rune.
abbrev Continues : ℕ → Text → Type 0
Continues zero s = Unit
Continues (suc k) [] = ⊥
Continues (suc k) (c ∷ s) = (continuation c ≡ true) × Continues k s

within-continuation :
    (lo hi b : ℕ) → 0x80 ≤ lo → hi ≤ 0xBF → within lo hi b ≡ true → continuation b ≡ true
within-continuation lo hi b p q h = ground arith

sequence2-Continues : (s : Text) → Continues (sequence2 s - 1) s
sequence2-Continues [] = tt
sequence2-Continues (b ∷ s) = elim (Bool-cases (continuation b)) [
  | inl more ↦ rw more (more, tt)
  | inr alone ↦ rw alone tt
]

sequence3-Continues :
    (lo hi : ℕ) (s : Text) → 0x80 ≤ lo → hi ≤ 0xBF → Continues (sequence3 lo hi s - 1) s
sequence3-Continues lo hi [] p q = tt
sequence3-Continues lo hi (b ∷ []) p q = tt
sequence3-Continues lo hi (b ∷ c ∷ s) p q = elim (Bool-cases (within lo hi b && continuation c)) [
  | inl hit ↦
      let (x, y) = and_true (within lo hi b) (continuation c) hit in
      rw hit (within-continuation lo hi b p q x, (y, tt))
  | inr miss ↦ rw miss tt
]

sequence4-Continues :
    (lo hi : ℕ) (s : Text) → 0x80 ≤ lo → hi ≤ 0xBF → Continues (sequence4 lo hi s - 1) s
sequence4-Continues lo hi [] p q = tt
sequence4-Continues lo hi (b ∷ []) p q = tt
sequence4-Continues lo hi (b ∷ c ∷ []) p q = tt
sequence4-Continues lo hi (b ∷ c ∷ d ∷ s) p q =
    elim (Bool-cases (within lo hi b && continuation c && continuation d)) [
      | inl hit ↦
          let (front, z) = and_true (within lo hi b && continuation c) (continuation d) hit in
          let (x, y) = and_true (within lo hi b) (continuation c) front in
          rw hit (within-continuation lo hi b p q x, (y, (z, tt)))
      | inr miss ↦ rw miss tt
    ]

either_size :
    (t : Bool) (x y : ℕ) (s : Text)
    → Continues (x - 1) s
    → Continues (y - 1) s
    → Continues ((if t then x else y) - 1) s
either_size true x y s h k = h
either_size false x y s h k = k

-- The bytes of a rune behind its first one continue it.
rune_size-Continues : (b : ℕ) (s : Text) → Continues (rune_size b s - 1) s
unfolding rune_size
rune_size-Continues b s = either_size (ltb b 0x80) 1 _ s tt (
    either_size (within 0xC2 0xDF b) (sequence2 s) _ s (sequence2-Continues s) (
      either_size (b == 0xE0) (sequence3 0xA0 0xBF s) _ s
        (sequence3-Continues 0xA0 0xBF s (omega arith) (omega arith))
        (either_size (b == 0xED) (sequence3 0x80 0x9F s) _ s
          (sequence3-Continues 0x80 0x9F s (omega arith) (omega arith))
          (either_size (within 0xE1 0xEF b) (sequence3 0x80 0xBF s) _ s
            (sequence3-Continues 0x80 0xBF s (omega arith) (omega arith))
            (either_size (b == 0xF0) (sequence4 0x90 0xBF s) _ s
              (sequence4-Continues 0x90 0xBF s (omega arith) (omega arith))
              (either_size (within 0xF1 0xF3 b) (sequence4 0x80 0xBF s) _ s
                (sequence4-Continues 0x80 0xBF s (omega arith) (omega arith))
                (either_size (b == 0xF4) (sequence4 0x80 0x8F s) 1 s
                  (sequence4-Continues 0x80 0x8F s (omega arith) (omega arith)) tt)))))))

rune_count_from_bound : (skip : ℕ) (s : Text) → rune_count_from skip s ≤ length s
unfolding rune_count_from
rune_count_from_bound skip [] = omega arith
rune_count_from_bound zero (b ∷ s) = omega (arith, rune_count_from_bound (rune_size b s - 1) s)
rune_count_from_bound (suc skip) (b ∷ s) = omega (arith, rune_count_from_bound skip s)

pub rune_count_bound : (s : Text) → rune_count s ≤ length s
unfolding rune_count
rune_count_bound s = rune_count_from_bound 0 s

pub rune_count-cons : (b : ℕ) (s : Text) → 0 < rune_count (b ∷ s)
unfolding rune_count rune_count_from
rune_count-cons b s = omega arith

-- The table has at a byte that continues no rune the number of runes before it.
rune_table-at :
    (skip n : ℕ) (s : Text) (m b : ℕ) (rest : Text)
    → Continues skip s
    → drop m s ≡ b ∷ rest
    → continuation b ≡ false
    → (k : ℕ) × (get_elem? (rune_table skip n s) m ≡ some k)
      × (k + rune_count_from 0 (drop m s) ≡ n + rune_count_from skip s)
unfolding rune_table rune_count_from
rune_table-at skip n [] zero b rest h e start = cc
rune_table-at skip n [] (suc m) b rest h e start = cc
rune_table-at zero n (c ∷ s) zero b rest h e start = (n, refl, refl)
rune_table-at zero n (c ∷ s) (suc m) b rest h e start =
    let (k, at_m, count) =
      rune_table-at (rune_size c s - 1) (n + 1) s m b rest (rune_size-Continues c s) e start in
    (k, at_m, omega arith)
rune_table-at (suc skip) n (c ∷ s) zero b rest (more, h) e start =
    absurd (let same : c ≡ b = cc in cc)
rune_table-at (suc skip) n (c ∷ s) (suc m) b rest (more, h) e start =
    rune_table-at skip n s m b rest h e start

-- The position that is indexed for the rune `k`, or the last one.
abbrev pub PositionAt : Finder → ℕ → Position → Type 0
PositionAt f k p = get_elem? f.pos_map.positions (min k (length f.pos_map.positions - 1)) ≡ some p

-- The range is that of `n` runes behind the first `k`: from the position of the first to behind that
-- of the last.
abbrev pub Spans : Finder → ℕ → ℕ → Range → Type 0
Spans f k n r =
    (p q : Position) × PositionAt f k p
    × PositionAt f (k + n - 1) q
    × (r ≡ new_range p (new_position q.line (add64 q.col (pos 1))))

zero_left : (n : ℕ) → 0 + n ≡ n
zero_left n = omega arith

module _ (f : Finder) (w : IsIndexed f) (some_source : 0 < length f.source) where
  some_position : 0 < length f.pos_map.indices
  some_position = elim w.held [ inl e ↦ absurd (omega arith) | inr p ↦ p ]

  lookup-PositionAt :
      (k : ℕ) → (p : Position) × (lookup f.pos_map (pos k) ≡ ok p) × PositionAt f k p
  lookup-PositionAt k =
      let (p, run, e) = lookup-limit f.pos_map (pos k) w.map some_position in
      let size = w.map.same_size in
      let some_one = some_position in
      let same : min (suc k) (length f.pos_map.indices) - 1
          ≡ min k (length f.pos_map.positions - 1) =
        omega arith in
      (p, run, ap (get_elem? f.pos_map.positions) (sym same) ∙ e)

  table-at :
      (m b : ℕ) (rest : Text)
      → drop m f.source ≡ b ∷ rest
      → continuation b ≡ false
      → (k : ℕ) × (get_elem? f.byte_to_rune m ≡ some k)
        × (k + rune_count (drop m f.source) ≡ rune_count f.source)
  unfolding byte_to_rune_index rune_count
  table-at m b rest e start = rw (w.table) (entry f.source some_source e)
    where
      entry :
          (s : Text)
          → 0 < length s
          → drop m s ≡ b ∷ rest
          → (k : ℕ) × (get_elem? (byte_to_rune_index s) m ≡ some k)
            × (k + rune_count (drop m s) ≡ rune_count s)
      entry [] h e = absurd (omega arith)
      entry (c ∷ s) h e =
          let (k, at_m, count) = rune_table-at 0 0 (c ∷ s) m b rest tt e start in
          (k, at_m, count ∙ zero_left (rune_count_from 0 (c ∷ s)))

  -- The range of a match whose first byte begins a rune.
  pub match_range-Spans :
      (n m b : ℕ) (rest : Text)
      → drop m f.source ≡ b ∷ rest
      → continuation b ≡ false
      → 0 < n
      → n ≤ length f.source
      → length f.source + length f.source < half_range
      → (k : ℕ) × (r : Range) × (match_range f n m ≡ ok r)
        × (k + rune_count (drop m f.source) ≡ rune_count f.source)
        × Spans f k n r
  unfolding match_range
  match_range-Spans n m b rest e start some_rune few small =
      let (k, at_m, count) = table-at m b rest e start in
      let bound = rune_count_bound f.source in
      let (p, run, at_p) = lookup-PositionAt k in
      let (q, run', at_q) = lookup-PositionAt (k + n - 1) in
      let last : sub64 (add64 (pos k) (pos n)) (pos 1) ≡ pos (k + n - 1) =
        ap (λ z. sub64 z (pos 1)) (add64-pos k n (omega arith))
        ∙ sub64-pos (k + n) 1 (omega arith) (omega arith)
        ∙ sub_pos (k + n) 1 (omega arith) in
      (
        k,
        new_range p (new_position q.line (add64 q.col (pos 1))),
        rw (match_range, at_m) (rw (run, last) (rw run' refl)),
        count,
        (p, q, at_p, at_q, refl),
      )
