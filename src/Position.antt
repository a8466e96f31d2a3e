-- ===== src/Position.antt =====
-- position/position.go: positions, ranges, spans, the grouping of indices and prefix sums.
-- Coordinates are 64-bit integers and wrap around.

pub mod Order
pub mod Grouping
pub mod Coverage
pub mod Sums
pub mod Slices
pub mod Unique
use niceyaml.Prelude.{
  ℕ, zero, suc, ◌+◌, Bool, true, false, not, ◌&&◌, ◌||◌, List, [], ◌∷◌, ◌++◌, map, Outcome, ok,
  panic, at, ◌>>=◌, ◌==◌, if◌then◌else◌, Eq, ◌=?◌, ◌≡◌, ◌↔◌, refl, sym, ap₂, and_true,
}
use niceyaml.Prelude.Int.{
  ℤ, pos, negsuc, ltb_ℤ, eqb_ℤ, eqb_ℤ_iff, max_ℤ, min_ℤ, add64, sub64, double64,
}

pub record Position : Type 0 where
  pub line : ℤ
  pub col : ℤ

-- The half-open range from `start` to `end`.
pub record Range : Type 0 where
  pub start : Position
  pub end : Position

-- `Range.Contains`.
unfoldable pub contains : Range → Position → Bool
contains r p =
    if ltb_ℤ p.line r.start.line || (eqb_ℤ p.line r.start.line && ltb_ℤ p.col r.start.col)
    then false
    else if ltb_ℤ r.end.line p.line || (eqb_ℤ p.line r.end.line && not (ltb_ℤ p.col r.end.col))
    then false
    else true

-- `==` on positions and on ranges.
abbrev pub position_beq : Position → Position → Bool
position_beq p q = eqb_ℤ p.line q.line && eqb_ℤ p.col q.col

pub position_beq_iff : (p q : Position) → (position_beq p q ≡ true) ↔ (p ≡ q)
position_beq_iff p q = (
  λ h.
      let (line, col) = and_true (eqb_ℤ p.line q.line) _ h in
      ap₂ (λ l c. record { line = l; col = c }) ((eqb_ℤ_iff p.line q.line).0 line)
        ((eqb_ℤ_iff p.col q.col).0 col),
  λ e. rw (sym e, (eqb_ℤ_iff p.line p.line).1 refl, (eqb_ℤ_iff p.col p.col).1 refl) refl,
)

instance abbrev pub position_eq : Eq Position
position_eq = record { beq = position_beq; beq_iff = position_beq_iff }

abbrev pub range_beq : Range → Range → Bool
range_beq r s = position_beq r.start s.start && position_beq r.end s.end

pub range_beq_iff : (r s : Range) → (range_beq r s ≡ true) ↔ (r ≡ s)
range_beq_iff r s = (
  λ h.
      let (start, end) = and_true (position_beq r.start s.start) _ h in
      ap₂ (λ a b. record { start = a; end = b }) ((position_beq_iff r.start s.start).0 start)
        ((position_beq_iff r.end s.end).0 end),
  λ e.
      rw (sym e, (position_beq_iff r.start r.start).1 refl, (position_beq_iff r.end r.end).1 refl)
        refl,
)

instance abbrev pub range_eq : Eq Range
range_eq = record { beq = range_beq; beq_iff = range_beq_iff }

abbrev pub max_col : ℤ
max_col = pos 1_000_000

abbrev pub new_position : ℤ → ℤ → Position
new_position line col = record { line = line; col = col }

abbrev pub new_range : Position → Position → Range
new_range start end = record { start = start; end = end }

-- The body of the loop of `Range.SliceLines` for `i`, of `line_count` lines.
unfoldable pub slice_at : Range → ℕ → ℕ → Range
slice_at r line_count i =
    let line = add64 r.start.line (pos i) in
    if i == 0
    then new_range (new_position line r.start.col) (new_position line max_col)
    else if i + 1 == line_count
    then new_range (new_position line (pos 0)) (new_position line r.end.col)
    else new_range (new_position line (pos 0)) (new_position line max_col)

-- The loop, `count` rounds from `i`.
unfoldable pub slices : Range → ℕ → ℕ → ℕ → List Range
unfolding slice_at
slices r line_count i zero = []
slices r line_count i (suc count) = slice_at r line_count i ∷ slices r line_count (i + 1) count

-- `Range.SliceLines`: `make` panics on a negative length.
unfoldable pub slice_lines : Range → Outcome (List Range)
unfolding slices add64 sub64
slice_lines r =
    if eqb_ℤ r.start.line r.end.line
    then ok (r ∷ [])
    else elim (add64 (sub64 r.end.line r.start.line) (pos 1)) [
      | pos line_count ↦ ok (slices r line_count 0 line_count)
      | negsuc _ ↦ panic
    ]

-- The half-open span from `start` to `end`.
pub record Span : Type 0 where
  pub start : ℤ
  pub end : ℤ

abbrev pub new_span : ℤ → ℤ → Span
new_span start end = record { start = start; end = end }

-- `Span.Len`.
unfoldable pub len : Span → ℤ
len s = sub64 s.end s.start

-- `Span.Contains`.
unfoldable pub span_contains : Span → ℤ → Bool
span_contains s v = not (ltb_ℤ v s.start) && ltb_ℤ v s.end

-- `Span.Overlaps`.
unfoldable pub overlaps : Span → Span → Bool
overlaps s other =
    if not (ltb_ℤ s.start s.end) || not (ltb_ℤ other.start other.end)
    then false
    else ltb_ℤ s.start other.end && ltb_ℤ other.start s.end

-- `Spans.Expand`.
unfoldable pub expand : List Span → ℤ → List Span
unfolding add64 sub64
expand spans amount = map (λ s. new_span (sub64 s.start amount) (add64 s.end amount)) spans

-- `Spans.Clamp`.
unfoldable pub clamp : List Span → ℤ → ℤ → List Span
clamp spans lower upper = map (λ s. new_span (max_ℤ s.start lower) (min_ℤ s.end upper)) spans

-- The loop of `Ranges.UniqueValues`; `seen` holds the keys of the map.
module _ {ℓ} {A : Type ℓ} ⦃e : Eq A⦄ where
  abbrev pub member : A → List A → Bool
  member a [] = false
  member a (x ∷ xs) = a =? x || member a xs

  unfoldable pub unique_loop : List A → List A → List A → List A
  unique_loop [] seen result = result
  unique_loop (r ∷ rs) seen result =
      unique_loop rs (if member r seen then seen else r ∷ seen)
        (if member r seen then result else result ++ r ∷ [])

  unfoldable pub unique_values : List A → List A
  unfolding unique_loop
  unique_values rs = unique_loop rs [] []

-- The loop of `GroupIndices`: `done` are the spans before the last one, which is `last`.
group_loop : ℤ → List ℤ → List Span → Span → List Span
group_loop threshold [] done last = done ++ last ∷ []
group_loop threshold (idx ∷ rest) done last =
    let near = ltb_ℤ idx (add64 last.end threshold) in
    group_loop threshold rest (if near then done else done ++ last ∷ [])
      (if near then record last { end = add64 idx (pos 1) } else new_span idx (add64 idx (pos 1)))

-- `GroupIndices`.
unfoldable pub group_indices : List ℤ → ℤ → List Span
unfolding group_loop add64 double64
group_indices [] context = []
group_indices (idx ∷ rest) context =
    group_loop (add64 (double64 context) (pos 1)) rest [] (new_span idx (add64 idx (pos 1)))

-- The loop of `NewPrefixSums`: `count` rounds from `i`, where `sum` is `sums[i]`; the sums behind it.
unfoldable pub sums_loop : (ℕ → ℤ) → ℕ → ℕ → ℤ → List ℤ
sums_loop value_fn i zero sum = []
sums_loop value_fn i (suc count) sum =
    add64 sum (value_fn i) ∷ sums_loop value_fn (i + 1) count (add64 sum (value_fn i))

-- `NewPrefixSums`; the slice `sums`.
unfoldable pub new_prefix_sums : ℕ → (ℕ → ℤ) → List ℤ
unfolding sums_loop add64
new_prefix_sums n value_fn = pos 0 ∷ sums_loop value_fn 0 n (pos 0)

-- Reading a slice at an `int`.
abbrev pub at_int {ℓ} : {A : Type ℓ} → List A → ℤ → Outcome A
at_int xs (pos i) = at xs i
at_int xs (negsuc i) = panic

-- `PrefixSums.At`.
unfoldable pub sum_at : List ℤ → ℤ → Outcome ℤ
sum_at sums i = at_int sums i

-- `PrefixSums.Range`.
unfoldable pub sum_range : List ℤ → Span → Outcome ℤ
unfolding sub64
sum_range sums s = do upper ← at_int sums s.end; lower ← at_int sums s.start; ok (sub64 upper lower)
