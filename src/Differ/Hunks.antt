-- ===== src/Differ/Hunks.antt =====
-- `selectHunkSpans`: the hunks hold the operations within the context of a change, in order.
use native.Mathlib.Numerals.{add-one}
use niceyaml.Prelude.{
  ℕ, zero, suc, ◌+◌, ◌≤◌, ◌<◌, ◌≡◌, ◌↔◌, ◌⊎◌, inl, inr, ◌≢◌, refl, ap, ◌∙◌, true, false, List, [],
  ◌∷◌, some, length, get_elem?, ltb, Bool-cases, arith, subst, some_injective,
}
use niceyaml.Prelude.Int.{pos, negsuc, half_range}
use niceyaml.Position.{Span}
use niceyaml.Position.Grouping.{groups, to_span, trim, AllBelow, trimmed_groups}
use niceyaml.Position.Coverage.{Near, Covered, Ascends, InOrder, Covered-iff, shown-InOrder, shown}
use niceyaml.Diff.{OpKind, op_equal, op_delete, op_insert}
use niceyaml.Differ.{LineOp, changes, change_indices, select_hunk_spans}

-- An operation within `c` of the operation `k` changes a line.
abbrev pub ChangeNear : ℕ → ℕ → List LineOp → Type 0
ChangeNear c k ops =
    (j : ℕ) × (op : LineOp) × (get_elem? ops j ≡ some op)
    × (changes op.kind ≡ true)
    × (j ≤ k + c)
    × (k ≤ j + c)

AllBelow-mono : (m n : ℕ) (is : List ℕ) → m ≤ n → AllBelow m is → AllBelow n is
AllBelow-mono m n [] h b = tt
AllBelow-mono m n (i ∷ is) h (p, b) = (omega arith, AllBelow-mono m n is h b)

Ascends-mono : (lo lo' : ℕ) (is : List ℕ) → lo ≤ lo' → Ascends lo' is → Ascends lo is
Ascends-mono lo lo' [] h a = tt
Ascends-mono lo lo' (i ∷ is) h (p, a) = (omega arith, a)

change_indices-AllBelow :
    (i : ℕ) (ops : List LineOp) → AllBelow (i + length ops) (change_indices i ops)
unfolding change_indices
change_indices-AllBelow i [] = tt
change_indices-AllBelow i (op ∷ ops) =
    let rest =
      AllBelow-mono (i + 1 + length ops) (i + suc (length ops)) (change_indices (i + 1) ops)
        (omega arith) (change_indices-AllBelow (i + 1) ops) in
    elim (Bool-cases (changes op.kind)) [
      | inl hit ↦ rw (change_indices, hit) (omega arith, rest)
      | inr miss ↦ rw (change_indices, miss) rest
    ]

change_indices-Ascends : (i : ℕ) (ops : List LineOp) → Ascends i (change_indices i ops)
unfolding change_indices
change_indices-Ascends i [] = tt
change_indices-Ascends i (op ∷ ops) =
    let rest : Ascends (suc i) (change_indices (i + 1) ops) =
      rw add-one (change_indices-Ascends (suc i) ops) in
    elim (Bool-cases (changes op.kind)) [
      | inl hit ↦ rw (change_indices, hit) (omega arith, rest)
      | inr miss ↦
          rw (change_indices, miss)
            (Ascends-mono i (suc i) (change_indices (i + 1) ops) (omega arith) rest)
    ]

-- The index of a change, counted from `i`.
abbrev ChangeFrom : ℕ → ℕ → ℕ → List LineOp → Type 0
ChangeFrom i c k ops =
    (j : ℕ) × (op : LineOp) × (get_elem? ops j ≡ some op)
    × (changes op.kind ≡ true)
    × (i + j ≤ k + c)
    × (k ≤ i + j + c)

Near-ChangeFrom :
    (i c k : ℕ) (ops : List LineOp) → Near c k (change_indices i ops) → ChangeFrom i c k ops
unfolding change_indices
Near-ChangeFrom i c k [] h = absurd h
Near-ChangeFrom i c k (op ∷ ops) h = elim (Bool-cases (changes op.kind)) [
  | inl hit ↦ elim (rw (change_indices, hit) at h) [
    | inl (p, q) ↦ (0, op, refl, hit, omega arith, omega arith)
    | inr m ↦ later (Near-ChangeFrom (i + 1) c k ops m)
  ]
  | inr miss ↦ later (Near-ChangeFrom (i + 1) c k ops (rw (change_indices, miss) at h))
]
  where
    later : ChangeFrom (i + 1) c k ops → ChangeFrom i c k (op ∷ ops)
    later (j, o, e, f, p, q) = (suc j, o, e, f, omega arith, omega arith)

ChangeFrom-Near :
    (i c k : ℕ) (ops : List LineOp) → ChangeFrom i c k ops → Near c k (change_indices i ops)
unfolding change_indices
ChangeFrom-Near i c k [] (j, o, e, f, p, q) = cc
ChangeFrom-Near i c k (op ∷ ops) (zero, o, e, f, p, q) =
    let hit : changes op.kind ≡ true = ap (λ x. changes x.kind) (some_injective e) ∙ f in
    rw (change_indices, hit) (inl (omega arith, omega arith))
ChangeFrom-Near i c k (op ∷ ops) (suc j, o, e, f, p, q) =
    let rest = ChangeFrom-Near (i + 1) c k ops (j, o, e, f, omega arith, omega arith) in
    elim (Bool-cases (changes op.kind)) [
      | inl hit ↦ rw (change_indices, hit) (inr rest)
      | inr miss ↦ rw (change_indices, miss) rest
    ]

-- No operation is a change.
abbrev pub AllUnchanged : List LineOp → Type 0
AllUnchanged [] = Unit
AllUnchanged (op ∷ ops) = (op.kind ≡ op_equal) × AllUnchanged ops

abbrev pub HasChange : List LineOp → Type 0
HasChange ops = (j : ℕ) × (op : LineOp) × (get_elem? ops j ≡ some op) × (op.kind ≢ op_equal)

changes-false : (k : OpKind) → changes k ≡ false → k ≡ op_equal
changes-false op_equal h = refl
changes-false op_delete h = cc
changes-false op_insert h = cc

changes-true : (k : OpKind) → changes k ≡ true → k ≢ op_equal
changes-true op_equal h = cc
changes-true op_delete h = λ e. cc
changes-true op_insert h = λ e. cc

change_indices-AllUnchanged :
    (i : ℕ) (ops : List LineOp) → change_indices i ops ≡ [] → AllUnchanged ops
unfolding change_indices
change_indices-AllUnchanged i [] h = tt
change_indices-AllUnchanged i (op ∷ ops) h = elim (Bool-cases (changes op.kind)) [
  | inl hit ↦ absurd (let bad = rw (change_indices, hit) at h in cc)
  | inr miss ↦ (
    changes-false op.kind miss,
    change_indices-AllUnchanged (i + 1) ops (rw (change_indices, miss) at h),
  )
]

change_indices-HasChange :
    (i k : ℕ) (rest : List ℕ) (ops : List LineOp) → change_indices i ops ≡ k ∷ rest → HasChange ops
unfolding change_indices
change_indices-HasChange i k rest [] h = cc
change_indices-HasChange i k rest (op ∷ ops) h = elim (Bool-cases (changes op.kind)) [
  | inl hit ↦ (0, op, refl, changes-true op.kind hit)
  | inr miss ↦
      let (j, o, e, f) =
        change_indices-HasChange (i + 1) k rest ops (rw (change_indices, miss) at h) in
      (suc j, o, e, f)
]

shown-cons :
    (c n lo hi : ℕ) (is : List ℕ)
    → (s : Span) × (spans : List Span) × (shown c n lo hi is ≡ s ∷ spans)
unfolding groups
shown-cons c n lo hi [] = (to_span (trim c n (lo, hi)), [], refl)
shown-cons c n lo hi (i ∷ rest) = elim (Bool-cases (ltb i (hi + (c + c + 1)))) [
  | inl near ↦ let (s, spans, e) = shown-cons c n lo (i + 1) rest in (s, spans, rw (groups, near) e)
  | inr far ↦ (to_span (trim c n (lo, hi)), shown c n i (i + 1) rest, rw (groups, far) refl)
]

select_hunk_spans-shown :
    (c : ℕ) (ops : List LineOp)
    → length ops + (c + c + 1) < half_range
    → ((change_indices 0 ops ≡ []) × (select_hunk_spans ops (pos c) ≡ []))
      ⊎ ((i : ℕ) × (rest : List ℕ) × (change_indices 0 ops ≡ i ∷ rest)
          × (select_hunk_spans ops (pos c) ≡ shown c (length ops) i (i + 1) rest))
unfolding select_hunk_spans
select_hunk_spans-shown c ops room = go (change_indices 0 ops) refl
  where
    go :
        (is : List ℕ)
        → change_indices 0 ops ≡ is
        → ((change_indices 0 ops ≡ []) × (select_hunk_spans ops (pos c) ≡ []))
          ⊎ ((i : ℕ) × (rest : List ℕ) × (change_indices 0 ops ≡ i ∷ rest)
              × (select_hunk_spans ops (pos c) ≡ shown c (length ops) i (i + 1) rest))
    go [] e = inl (e, rw (select_hunk_spans, e) refl)
    go (i ∷ rest) e = inr (
      i,
      rest,
      e,
      rw (select_hunk_spans, e)
          (trimmed_groups c (length ops) i rest
            (subst (AllBelow (length ops)) e (
              AllBelow-mono (0 + length ops) (length ops) (change_indices 0 ops) (omega arith)
                (change_indices-AllBelow 0 ops)))
            room),
    )

-- Without a change there are no hunks, and with one there is a hunk.
pub select_hunk_spans-changes :
    (c : ℕ) (ops : List LineOp)
    → length ops + (c + c + 1) < half_range
    → (AllUnchanged ops × (select_hunk_spans ops (pos c) ≡ []))
      ⊎ (HasChange ops
          × (s : Span) × (spans : List Span) × (select_hunk_spans ops (pos c) ≡ s ∷ spans))
select_hunk_spans-changes c ops fits = elim (select_hunk_spans-shown c ops fits) [
  | inl (e, f) ↦ inl (change_indices-AllUnchanged 0 ops e, f)
  | inr (i, rest, e, f) ↦
      let (s, spans, g) = shown-cons c (length ops) i (i + 1) rest in
      inr (change_indices-HasChange 0 i rest ops e, s, spans, f ∙ g)
]

module _ (c : ℕ) (ops : List LineOp) (room : length ops + (c + c + 1) < half_range) where
  Near-iff : (k : ℕ) → Near c k (change_indices 0 ops) ↔ ChangeNear c k ops
  Near-iff k = (
    λ h.
        let (j, op, e, f, p, q) = Near-ChangeFrom 0 c k ops h in
        (j, op, e, f, omega arith, omega arith),
    λ (j, op, e, f, p, q). ChangeFrom-Near 0 c k ops (j, op, e, f, omega arith, omega arith),
  )

  -- Of the indices of the operations, the hunks hold exactly those that have a change within the
  -- context, where the number of operations and twice the context fit in an int.
  pub select_hunk_spans_iff :
      (k : ℕ)
      → k < length ops
      → Covered (pos k) (select_hunk_spans ops (pos c)) ↔ ChangeNear c k ops
  select_hunk_spans_iff k h = elim (select_hunk_spans-shown c ops room) [
    | inl (e, f) ↦ (λ v. absurd (rw f at v), λ m. absurd (rw e at (Near-iff k).1 m))
    | inr (i, rest, e, f) ↦
        let up : Ascends (suc i) rest = (rw e at (change_indices-Ascends 0 ops)).1 in
        let both = Covered-iff c (length ops) k i rest h up in
        (
          λ v. (Near-iff k).0 (rw e (both.0 (rw f at v))),
          λ m. rw f (both.1 (rw e at (Near-iff k).1 m)),
        )
  ]

  -- Where the number of operations and twice the context fit in an int, the hunks are not empty, lie
  -- within the operations, and come in order with a gap between any two.
  pub select_hunk_spans-InOrder :
      InOrder (negsuc 0) (pos (length ops)) (select_hunk_spans ops (pos c))
  select_hunk_spans-InOrder = elim (select_hunk_spans-shown c ops room) [
    | inl (e, f) ↦ rw f tt
    | inr (i, rest, e, f) ↦
        let up : Ascends (i + 1) rest = rw add-one ((rw e at (change_indices-Ascends 0 ops)).1) in
        let below = rw e at (change_indices-AllBelow 0 ops) in
        rw f (
          shown-InOrder c (length ops) i (i + 1) rest (negsuc 0)
            (AllBelow-mono (0 + length ops) (length ops) rest (omega arith) below.1) up
            (omega arith) (omega (arith, below.0)) (omega arith))
  ]
