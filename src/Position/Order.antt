-- ===== src/Position/Order.antt =====
-- `Contains` and `Overlaps` against what they mean.
use niceyaml.Prelude.{◌≡◌, ◌↔◌, ◌⊎◌, true, arith}
use niceyaml.Prelude.Int.{ℤ, ◌≤ℤ◌, ◌<ℤ◌, max_ℤ}
use niceyaml.Position.{Position, Range, contains, Span, span_contains, overlaps}

-- Positions in reading order.
abbrev pub Before : Position → Position → Type 0
Before p q = (p.line <ℤ q.line) ⊎ ((p.line ≡ q.line) × (p.col <ℤ q.col))

-- Range.Contains holds of a position exactly when it is not before the start, in reading order, and
-- is before the end.
pub contains_iff :
    (r : Range) (p : Position) → (contains r p ≡ true) ↔ ((¬ Before p r.start) × Before p r.end)
unfolding contains
contains_iff r p = (λ h. (ground arith, ground arith), λ h. ground arith)

pub span_contains_iff :
    (s : Span) (v : ℤ) → (span_contains s v ≡ true) ↔ ((s.start ≤ℤ v) × (v <ℤ s.end))
unfolding span_contains
span_contains_iff s v = ground arith

-- Overlaps holds of two spans exactly when some number lies in both.
pub overlaps_iff :
    (s t : Span)
    → (overlaps s t ≡ true) ↔ ((v : ℤ) × (span_contains s v ≡ true) × (span_contains t v ≡ true))
unfolding overlaps span_contains
overlaps_iff s t =
    (λ h. (max_ℤ s.start t.start, ground arith, ground arith), λ (v, p, q). ground arith)
