-- ===== src/Position/Grouping.antt =====
-- `GroupIndices`, `Expand` and `Clamp` on natural numbers, where nothing wraps.
use niceyaml.Prelude.{
  ℕ, ◌+◌, ◌-◌, ◌≤◌, ◌<◌, ◌≡◌, refl, ap₂, ◌∙◌, inl, inr, List, [], ◌∷◌, ◌++◌, map, append_assoc,
  arith, ltb, if◌then◌else◌, Bool-cases, min,
}
use niceyaml.Prelude.Int.{
  pos, ltb_ℤ, add64, add64-pos, sub64-pos, double64-pos, half_range, max_ℤ-sub_ℕ, min_ℤ-pos,
}
use niceyaml.Position.{Span, new_span, group_loop, group_indices, expand, clamp}

abbrev pub to_span : ℕ × ℕ → Span
to_span (a, b) = new_span (pos a) (pos b)

-- The spans of ascending indices, the last of which so far goes from `lo` to `hi`.
unfoldable pub groups : ℕ → ℕ → ℕ → List ℕ → List (ℕ × ℕ)
groups c lo hi [] = (lo, hi) ∷ []
groups c lo hi (i ∷ rest) =
    let merged = groups c lo (i + 1) rest in
    let apart = groups c i (i + 1) rest in
    if ltb i (hi + (c + c + 1)) then merged else (lo, hi) ∷ apart

abbrev pub AllBelow : ℕ → List ℕ → Type 0
AllBelow n [] = Unit
AllBelow n (i ∷ rest) = (i < n) × AllBelow n rest

ltb_ℤ-pos : (a b : ℕ) → ltb_ℤ (pos a) (pos b) ≡ ltb a b
ltb_ℤ-pos a b = ground arith

group_loop-groups :
    (c n lo hi : ℕ) (is : List ℕ) (done : List Span)
    → AllBelow n is
    → hi ≤ n
    → n + (c + c + 1) < half_range
    → group_loop (pos (c + c + 1)) (map pos is) done (to_span (lo, hi))
      ≡ done ++ map to_span (groups c lo hi is)
unfolding group_loop groups
group_loop-groups c n lo hi [] done below h room = refl
group_loop-groups c n lo hi (i ∷ rest) done (p, below) h room =
    let past : ℕ = hi + (c + c + 1) in
    let test : ltb_ℤ (pos i) (pos past) ≡ ltb i past = ltb_ℤ-pos i past in
    let end₁ : add64 (pos hi) (pos (c + c + 1)) ≡ pos past =
      add64-pos hi (c + c + 1) (omega arith) in
    let end₂ : add64 (pos i) (pos 1) ≡ pos (i + 1) = add64-pos i 1 (omega arith) in
    elim (Bool-cases (ltb i past)) [
      | inl near ↦
          rw (group_loop, end₁, end₂, near, test ∙ near)
            (group_loop-groups c n lo (i + 1) rest done below (omega arith) room)
      | inr far ↦
          rw (group_loop, end₁, end₂, far, test ∙ far)
            (group_loop-groups c n i (i + 1) rest (done ++ to_span (lo, hi) ∷ []) below
                (omega arith) room
              ∙ append_assoc done (to_span (lo, hi) ∷ []) (map to_span (groups c i (i + 1) rest)))
    ]

-- The spans of `GroupIndices` for the indices `i ∷ rest`, where nothing overflows.
pub group_indices-groups :
    (c n i : ℕ) (rest : List ℕ)
    → AllBelow n (i ∷ rest)
    → n + (c + c + 1) < half_range
    → group_indices (map pos (i ∷ rest)) (pos c) ≡ map to_span (groups c i (i + 1) rest)
unfolding group_indices
group_indices-groups c n i rest (p, below) room =
    rw
      (
        group_indices,
        double64-pos c (omega arith),
        add64-pos (c + c) 1 (omega arith),
        add64-pos i 1 (omega arith),
      )
      (group_loop-groups c n i (i + 1) rest [] below (omega arith) room)

-- A span with `c` more on both sides, within `n`.
abbrev pub trim : ℕ → ℕ → ℕ × ℕ → ℕ × ℕ
trim c n (a, b) = (a - c, min (b + c) n)

abbrev SpansBelow : ℕ → List (ℕ × ℕ) → Type 0
SpansBelow n [] = Unit
SpansBelow n ((a, b) ∷ gs) = (a < n) × (b ≤ n) × SpansBelow n gs

groups-SpansBelow :
    (c n lo hi : ℕ) (is : List ℕ)
    → AllBelow n is
    → lo < n
    → hi ≤ n
    → SpansBelow n (groups c lo hi is)
unfolding groups
groups-SpansBelow c n lo hi [] below p q = (p, q, tt)
groups-SpansBelow c n lo hi (i ∷ rest) (r, below) p q =
    elim (Bool-cases (ltb i (hi + (c + c + 1)))) [
      | inl near ↦ rw near (groups-SpansBelow c n lo (i + 1) rest below p (omega arith))
      | inr far ↦ rw far (p, q, groups-SpansBelow c n i (i + 1) rest below r (omega arith))
    ]

-- `Expand` followed by `Clamp` to the range from 0 to `n`.
clamp-expand :
    (c n : ℕ) (gs : List (ℕ × ℕ))
    → SpansBelow n gs
    → n + c < half_range
    → clamp (expand (map to_span gs) (pos c)) (pos 0) (pos n) ≡ map to_span (map (trim c n) gs)
unfolding clamp expand
clamp-expand c n [] below room = refl
clamp-expand c n ((a, b) ∷ gs) (p, q, below) room =
    ap₂ ◌∷◌
      (rw
        (
          sub64-pos a c (omega arith) (omega arith),
          add64-pos b c (omega arith),
          max_ℤ-sub_ℕ a c,
          min_ℤ-pos (b + c) n,
        )
        refl)
      (clamp-expand c n gs below room)

-- The three steps together.
pub trimmed_groups :
    (c n i : ℕ) (rest : List ℕ)
    → AllBelow n (i ∷ rest)
    → n + (c + c + 1) < half_range
    → clamp (expand (group_indices (map pos (i ∷ rest)) (pos c)) (pos c)) (pos 0) (pos n)
      ≡ map to_span (map (trim c n) (groups c i (i + 1) rest))
trimmed_groups c n i rest below room = rw (group_indices-groups c n i rest below room) (
    clamp-expand c n (groups c i (i + 1) rest)
      (groups-SpansBelow c n i (i + 1) rest below.1 below.0 (omega arith)) (omega arith))
