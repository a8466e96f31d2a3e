-- ===== src/Position/Coverage.antt =====
-- Which numbers the expanded groups cover: those within the context of an index, and no other.
use native.Mathlib.Numerals.{add-one}
use niceyaml.Prelude.{
  ◌↔◌, min, ℕ, suc, ◌+◌, ◌-◌, ◌≤◌, ◌<◌, ◌⊎◌, inl, inr, List, [], ◌∷◌, map, arith, ltb, Bool-cases,
  dec_lt,
}
use niceyaml.Prelude.Int.{ℤ, pos, ◌<ℤ◌, ◌≤ℤ◌}
use niceyaml.Position.{Span}
use niceyaml.Position.Grouping.{groups, trim, to_span, AllBelow}

-- `k` is within `c` of one of the indices.
abbrev pub Near : ℕ → ℕ → List ℕ → Type 0
Near c k [] = ⊥
Near c k (i ∷ rest) = ((i ≤ k + c) × (k ≤ i + c)) ⊎ Near c k rest

-- Some span holds `k`.
abbrev pub Covered : ℤ → List Span → Type 0
Covered k [] = ⊥
Covered k (s ∷ rest) = ((s.start ≤ℤ k) × (k <ℤ s.end)) ⊎ Covered k rest

-- Ascending from `lo`, with no repetition.
abbrev pub Ascends : ℕ → List ℕ → Type 0
Ascends lo [] = Unit
Ascends lo (i ∷ rest) = (lo ≤ i) × Ascends (suc i) rest

-- Non-empty spans behind `lower` and up to `upper`, in order and with a gap between any two.
abbrev pub InOrder : ℤ → ℤ → List Span → Type 0
InOrder lower upper [] = Unit
InOrder lower upper (s ∷ rest) =
    (lower <ℤ s.start) × (s.start <ℤ s.end) × (s.end ≤ℤ upper) × InOrder s.end upper rest

abbrev pub shown : ℕ → ℕ → ℕ → ℕ → List ℕ → List Span
shown c n lo hi is = map to_span (map (trim c n) (groups c lo hi is))

split_first :
    {N : Type 0} (k : ℕ) (s : Span) (rest : List Span)
    → (s.start ≤ℤ pos k → pos k <ℤ s.end → N)
    → (Covered (pos k) rest → N)
    → Covered (pos k) (s ∷ rest)
    → N
split_first k s rest f g (inl (p, q)) = f p q
split_first k s rest f g (inr m) = g m

module _ (c n k : ℕ) where
  pub Covered-Near :
      {N : Type 0} (lo hi : ℕ) (is : List ℕ)
      → (lo ≤ k + c → k < hi + c → N)
      → (Near c k is → N)
      → Covered (pos k) (shown c n lo hi is)
      → N
  unfolding groups
  Covered-Near lo hi [] now later (inl (p, q)) = now (omega arith) (omega arith)
  Covered-Near lo hi [] now later (inr h) = absurd h
  Covered-Near {N} lo hi (i ∷ rest) now later h = elim (Bool-cases (ltb i (hi + (c + c + 1)))) [
    | inl near ↦
        Covered-Near lo (i + 1) rest
          (λ p q. elim (dec_lt k (hi + c)) [
            | yes r ↦ now p r
            | no r ↦ later (inl (ground arith, omega arith))
          ])
          (λ m. later (inr m)) (rw near at h)
    | inr far ↦
        split_first k (to_span (trim c n (lo, hi))) (shown c n i (i + 1) rest)
          (λ p q. now (omega arith) (omega arith))
          (λ m.
            Covered-Near i (i + 1) rest (λ p q. later (inl (p, omega arith))) (λ m'. later (inr m'))
              m)
          (rw far at h)
  ]

  -- The span that is last so far stays covered,
  covers_last :
      (lo hi : ℕ) (is : List ℕ)
      → k < n
      → Ascends hi is
      → lo ≤ k + c
      → k < hi + c
      → Covered (pos k) (shown c n lo hi is)
  unfolding groups
  covers_last lo hi [] fits up p q = inl (omega arith, omega arith)
  covers_last lo hi (i ∷ rest) fits (r, up) p q = elim (Bool-cases (ltb i (hi + (c + c + 1)))) [
    | inl near ↦ rw near (covers_last lo (i + 1) rest fits (rw add-one up) p (omega arith))
    | inr far ↦ rw far (inl (omega arith, omega arith))
  ]

  -- and so does what is near a later index.
  covers-Near :
      (lo hi : ℕ) (is : List ℕ)
      → k < n
      → lo ≤ hi
      → Ascends hi is
      → Near c k is
      → Covered (pos k) (shown c n lo hi is)
  unfolding groups
  covers-Near lo hi [] fits o up h = absurd h
  covers-Near lo hi (i ∷ rest) fits o (r, up) (inl (p, q)) =
      elim (Bool-cases (ltb i (hi + (c + c + 1)))) [
        | inl near ↦
            rw near (covers_last lo (i + 1) rest fits (rw add-one up) (omega arith) (omega arith))
        | inr far ↦ rw far (inr (covers_last i (i + 1) rest fits (rw add-one up) p (omega arith)))
      ]
  covers-Near lo hi (i ∷ rest) fits o (r, up) (inr m) =
      elim (Bool-cases (ltb i (hi + (c + c + 1)))) [
        | inl near ↦ rw near (covers-Near lo (i + 1) rest fits (omega arith) (rw add-one up) m)
        | inr far ↦ rw far (inr (covers-Near i (i + 1) rest fits (omega arith) (rw add-one up) m))
      ]

  -- Of the numbers below `n` exactly those near an index are covered.
  pub Covered-iff :
      (i : ℕ) (rest : List ℕ)
      → k < n
      → Ascends (suc i) rest
      → Covered (pos k) (shown c n i (i + 1) rest) ↔ Near c k (i ∷ rest)
  Covered-iff i rest fits up =
      (Covered-Near i (i + 1) rest (λ p q. inl (p, omega arith)) inr, covers)
    where
      covers : Near c k (i ∷ rest) → Covered (pos k) (shown c n i (i + 1) rest)
      covers (inl (p, q)) = covers_last i (i + 1) rest fits (rw add-one up) p (omega arith)
      covers (inr m) = covers-Near i (i + 1) rest fits (omega arith) (rw add-one up) m

pub shown-InOrder :
    (c n lo hi : ℕ) (is : List ℕ) (lower : ℤ)
    → AllBelow n is
    → Ascends hi is
    → lo < hi
    → hi ≤ n
    → lower <ℤ pos (lo - c)
    → InOrder lower (pos n) (shown c n lo hi is)
unfolding groups
shown-InOrder c n lo hi [] lower below up p q r = (r, omega arith, omega arith, tt)
shown-InOrder c n lo hi (i ∷ rest) lower (b, below) (u, up) p q r =
    elim (Bool-cases (ltb i (hi + (c + c + 1)))) [
      | inl near ↦ rw near (
          shown-InOrder c n lo (i + 1) rest lower below (rw add-one up) (omega arith) (omega arith)
            r)
      | inr far ↦ rw far (
        r,
        omega arith,
        omega arith,
        shown-InOrder c n i (i + 1) rest (pos (min (hi + c) n)) below (rw add-one up) (omega arith)
            (omega arith) (ground arith),
      )
    ]
