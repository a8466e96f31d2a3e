-- ===== src/Tokens/Content/Within.antt =====
-- The ranges of a token's content against the ranges of the token.
use niceyaml.Prelude.{
  Bool, false, if◌then◌else◌, ℕ, ◌+◌, ◌-◌, true, ◌&&◌, List, [], ◌∷◌, ◌++◌, ltb, ltb→lt, ◌<◌, ◌≡◌,
  ◌⊎◌, inl, inr, refl, arith, some, Option-cases,
}
use niceyaml.Prelude.Int.{ℤ, pos, ◌≤ℤ◌, ◌<ℤ◌}
use niceyaml.Text.{space, leading}
use niceyaml.Position.{Range, new_position, new_range}
use niceyaml.Tokens.{
  TokenRef, Segment, same_ref, source_at, token_ranges_line, token_ranges_from, token_ranges_at,
}
use niceyaml.Tokens.Content.{
  trailing, content_origin, content_range, content_ranges_line, content_ranges_from,
  content_ranges_at,
}

abbrev token_range : ℕ → ℕ → ℕ → Range
token_range i c w = new_range (new_position (pos i) (pos c)) (new_position (pos i) (pos (c + w)))

-- On the lines of `t`, some columns, none of them outside `t`.
abbrev pub IsWithin : Range → Range → Type 0
IsWithin r t =
    (r.start.line ≡ t.start.line)
    × (r.end.line ≡ t.end.line)
    × (t.start.col ≤ℤ r.start.col)
    × (r.start.col <ℤ r.end.col)
    × (r.end.col ≤ℤ t.end.col)

abbrev pub IsInside : Range → List Range → Type 0
IsInside r [] = ⊥
IsInside r (t ∷ ts) = IsWithin r t ⊎ IsInside r ts

abbrev pub AllInside : List Range → List Range → Type 0
AllInside [] ts = Unit
AllInside (r ∷ rs) ts = IsInside r ts × AllInside rs ts

IsInside-left : (r : Range) (ts us : List Range) → IsInside r ts → IsInside r (ts ++ us)
IsInside-left r [] us h = elim h [ ]
IsInside-left r (t ∷ ts) us (inl h) = inl h
IsInside-left r (t ∷ ts) us (inr h) = inr (IsInside-left r ts us h)

IsInside-right : (r : Range) (ts us : List Range) → IsInside r us → IsInside r (ts ++ us)
IsInside-right r [] us h = h
IsInside-right r (t ∷ ts) us h = inr (IsInside-right r ts us h)

AllInside-behind : (rs ts us : List Range) → AllInside rs us → AllInside rs (ts ++ us)
AllInside-behind [] ts us h = tt
AllInside-behind (r ∷ rs) ts us h = (IsInside-right r ts us h.0, AllInside-behind rs ts us h.1)

AllInside-append :
    (rs ss ts us : List Range) → AllInside rs ts → AllInside ss us → AllInside (rs ++ ss) (ts ++ us)
AllInside-append [] ss ts us h k = AllInside-behind ss ts us k
AllInside-append (r ∷ rs) ss ts us h k =
    (IsInside-left r ts us h.0, AllInside-append rs ss ts us h.1 k)

AllInside-choose :
    (a b d : Bool) (r t : Range) (rs ts : List Range)
    → AllInside rs ts
    → (d ≡ true → IsWithin r t)
    → AllInside (if a && b && d then r ∷ rs else rs) (if a && b then t ∷ ts else ts)
AllInside-choose true true true r t rs ts h k = (inl (k refl), AllInside-behind rs (t ∷ []) ts h)
AllInside-choose true true false r t rs ts h k = AllInside-behind rs (t ∷ []) ts h
AllInside-choose true false d r t rs ts h k = h
AllInside-choose false b d r t rs ts h k = h

content_range-IsWithin :
    (i c w before after : ℕ)
    → 0 < w - before - after
    → IsWithin (content_range i c w before after) (token_range i c w)
content_range-IsWithin i c w before after h = (refl, refl, omega arith, omega arith, omega arith)

content_ranges_line-AllInside :
    (source : TokenRef) (i c : ℕ) (segs : List Segment)
    → AllInside (content_ranges_line source i c segs) (token_ranges_line source i c segs)
unfolding content_ranges_line token_ranges_line
content_ranges_line-AllInside source i c [] = tt
content_ranges_line-AllInside source i c (s ∷ rest) =
    let before = leading space (content_origin s.part) in
    let after = trailing (content_origin s.part) in
    AllInside-choose (same_ref s.source (some source)) (ltb 0 s.width)
      (ltb 0 (s.width - before - after)) (content_range i c s.width before after)
      (token_range i c s.width) _ _ (content_ranges_line-AllInside source i (c + s.width) rest)
      (λ wide. content_range-IsWithin i c s.width before after (ltb→lt 0 _ wide))

content_ranges_from-AllInside :
    (source : TokenRef) (i : ℕ) (s2 : List (List Segment))
    → AllInside (content_ranges_from source i s2) (token_ranges_from source i s2)
unfolding content_ranges_from token_ranges_from
content_ranges_from-AllInside source i [] = tt
content_ranges_from-AllInside source i (segs ∷ rest) =
    AllInside-append (content_ranges_line source i 0 segs) (content_ranges_from source (i + 1) rest)
      (token_ranges_line source i 0 segs) (token_ranges_from source (i + 1) rest)
      (content_ranges_line-AllInside source i 0 segs)
      (content_ranges_from-AllInside source (i + 1) rest)

-- Every range of ContentRangesAt is on one of the lines of TokenRangesAt at the same place, has some
-- columns, and reaches outside the token's range on that line on neither side.
pub content_ranges_at-AllInside :
    (s2 : List (List Segment)) (idx col : ℤ)
    → AllInside (content_ranges_at s2 idx col) (token_ranges_at s2 idx col)
unfolding content_ranges_at token_ranges_at
content_ranges_at-AllInside s2 idx col = elim (Option-cases (source_at s2 idx col)) [
  | inl nowhere ↦ rw (content_ranges_at, token_ranges_at, nowhere) tt
  | inr (source, found) ↦
      rw (content_ranges_at, token_ranges_at, found) (content_ranges_from-AllInside source 0 s2)
]
