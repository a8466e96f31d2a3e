-- ===== src/Differ/Rows/Pads.antt =====
-- The rows of a run of deletes and a run of inserts, with the placeholders.
use niceyaml.Prelude.{
  ℕ, zero, suc, ◌+◌, ◌≡◌, refl, ap, ap₂, ◌∙◌, inl, inr, true, List, [], ◌∷◌, ◌++◌, map, Option,
  none, some, length, get_elem?, drop, Bool-cases, arith,
}
use niceyaml.Diff.{inserted, deleted, OpKind}
use niceyaml.Line.{Line, no_line, clone}
use niceyaml.Differ.{
  LineOp, AlignedRow, flagged, kind_beq, collect_consecutive, cell, pair_rows, longer,
}

-- A row as the pair of what it shows; an empty placeholder is `none`.
abbrev pub Pair : Type 0
Pair = Option Line × Option Line

abbrev fill : Option Line → Line
fill none = no_line
fill (some l) = l

abbrev pub to_row : Pair → AlignedRow
to_row (a, b) = record { before = fill a; after = fill b }

abbrev pub present : List (Option Line) → List Line
present [] = []
present (none ∷ os) = present os
present (some l ∷ os) = l ∷ present os

abbrev pub lefts : List Pair → List (Option Line)
lefts = map (λ p. p.0)

abbrev pub rights : List Pair → List (Option Line)
rights = map (λ p. p.1)

abbrev pub gone : LineOp → Line
gone op = flagged deleted (clone op.line)

abbrev pub come : LineOp → Line
come op = flagged inserted (clone op.line)

-- Deletions beside insertions, row by row.
abbrev pub pads : List LineOp → List LineOp → List Pair
pads [] [] = []
pads [] (y ∷ is) = (none, some (come y)) ∷ pads [] is
pads (x ∷ ds) [] = (some (gone x), none) ∷ pads ds []
pads (x ∷ ds) (y ∷ is) = (some (gone x), some (come y)) ∷ pads ds is

abbrev tail {ℓ} : {A : Type ℓ} → List A → List A
tail [] = []
tail (x ∷ xs) = xs

get_elem?-tail {ℓ} :
    {A : Type ℓ} (xs : List A) (j : ℕ) → get_elem? xs (suc j) ≡ get_elem? (tail xs) j
get_elem?-tail [] j = refl
get_elem?-tail (x ∷ xs) j = refl

pair_rows-tail :
    (ds is : List LineOp) (j n : ℕ) → pair_rows ds is (suc j) n ≡ pair_rows (tail ds) (tail is) j n
unfolding pair_rows
pair_rows-tail ds is j zero = refl
pair_rows-tail ds is j (suc n) = ap₂ ◌∷◌ (rw (get_elem?-tail ds j, get_elem?-tail is j) refl) (
    let one : j + 1 ≡ suc j = omega arith in
    let two : suc j + 1 ≡ suc (suc j) = omega arith in
    rw (two, one) (pair_rows-tail ds is (suc j) n))

longer-nil : (is : List LineOp) → longer [] is ≡ length is
longer-nil is = ground arith

longer-nil_right : (ds : List LineOp) → longer ds [] ≡ length ds
longer-nil_right ds = ground arith

longer-cons : (x y : LineOp) (ds is : List LineOp) → longer (x ∷ ds) (y ∷ is) ≡ suc (longer ds is)
longer-cons x y ds is = ground arith

pair_rows-step :
    (ds is : List LineOp) (n : ℕ) (a b : Option Line) (rows : List AlignedRow)
    → cell deleted (get_elem? ds 0) ≡ fill a
    → cell inserted (get_elem? is 0) ≡ fill b
    → pair_rows (tail ds) (tail is) 0 n ≡ rows
    → pair_rows ds is 0 (suc n) ≡ to_row (a, b) ∷ rows
unfolding pair_rows
pair_rows-step ds is n a b rows p q r = ap₂ ◌∷◌ (rw (p, q) refl) (pair_rows-tail ds is 0 n ∙ r)

pub pair_rows-pads :
    (ds is : List LineOp) → pair_rows ds is 0 (longer ds is) ≡ map to_row (pads ds is)
unfolding pair_rows
pair_rows-pads [] [] = refl
pair_rows-pads [] (y ∷ is) = rw (longer-nil (y ∷ is)) (
    pair_rows-step [] (y ∷ is) (length is) none (some (come y)) _ refl refl
      (rw (longer-nil is) at (pair_rows-pads [] is)))
pair_rows-pads (x ∷ ds) [] = rw (longer-nil_right (x ∷ ds)) (
    pair_rows-step (x ∷ ds) [] (length ds) (some (gone x)) none _ refl refl
      (rw (longer-nil_right ds) at (pair_rows-pads ds [])))
pair_rows-pads (x ∷ ds) (y ∷ is) = rw (longer-cons x y ds is) (
    pair_rows-step (x ∷ ds) (y ∷ is) (longer ds is) (some (gone x)) (some (come y)) _ refl refl
      (pair_rows-pads ds is))

abbrev pub AllKind : OpKind → List LineOp → Type 0
AllKind k [] = Unit
AllKind k (op ∷ ops) = (op.kind ≡ k) × AllKind k ops

kind_beq-eq : (k l : OpKind) → kind_beq k l ≡ true → k ≡ l
kind_beq-eq k l h = ground arith

pub collect_consecutive-AllKind :
    (k : OpKind) (ops : List LineOp) → AllKind k (collect_consecutive k ops)
unfolding collect_consecutive
collect_consecutive-AllKind k [] = tt
collect_consecutive-AllKind k (op ∷ ops) = elim (Bool-cases (kind_beq op.kind k)) [
  | inl same ↦
      rw (collect_consecutive, same) (kind_beq-eq op.kind k same, collect_consecutive-AllKind k ops)
  | inr other ↦ rw (collect_consecutive, other) tt
]

pub collect_consecutive-append :
    (k : OpKind) (ops : List LineOp)
    → collect_consecutive k ops ++ drop (length (collect_consecutive k ops)) ops ≡ ops
unfolding collect_consecutive
collect_consecutive-append k [] = refl
collect_consecutive-append k (op ∷ ops) = elim (Bool-cases (kind_beq op.kind k)) [
  | inl same ↦
      rw (collect_consecutive, same) (ap (λ os. op ∷ os) (collect_consecutive-append k ops))
  | inr other ↦ rw (collect_consecutive, other) refl
]

pub present-lefts_append :
    (ps qs : List Pair) → present (lefts (ps ++ qs)) ≡ present (lefts ps) ++ present (lefts qs)
present-lefts_append [] qs = refl
present-lefts_append ((none, b) ∷ ps) qs = present-lefts_append ps qs
present-lefts_append ((some l, b) ∷ ps) qs = ap (λ ls. l ∷ ls) (present-lefts_append ps qs)

pub present-rights_append :
    (ps qs : List Pair) → present (rights (ps ++ qs)) ≡ present (rights ps) ++ present (rights qs)
present-rights_append [] qs = refl
present-rights_append ((a, none) ∷ ps) qs = present-rights_append ps qs
present-rights_append ((a, some l) ∷ ps) qs = ap (λ ls. l ∷ ls) (present-rights_append ps qs)

pub present-lefts-pads : (ds is : List LineOp) → present (lefts (pads ds is)) ≡ map gone ds
present-lefts-pads [] [] = refl
present-lefts-pads [] (y ∷ is) = present-lefts-pads [] is
present-lefts-pads (x ∷ ds) [] = ap (λ ls. gone x ∷ ls) (present-lefts-pads ds [])
present-lefts-pads (x ∷ ds) (y ∷ is) = ap (λ ls. gone x ∷ ls) (present-lefts-pads ds is)

pub present-rights-pads : (ds is : List LineOp) → present (rights (pads ds is)) ≡ map come is
present-rights-pads [] [] = refl
present-rights-pads [] (y ∷ is) = ap (λ ls. come y ∷ ls) (present-rights-pads [] is)
present-rights-pads (x ∷ ds) [] = present-rights-pads ds []
present-rights-pads (x ∷ ds) (y ∷ is) = ap (λ ls. come y ∷ ls) (present-rights-pads ds is)
