-- ===== src/Differ/Rows.antt =====
-- The rows of the side-by-side view: both sides have all their lines, in order.
pub mod Pads
use mathlib.Core.List.{map-append}
use native.Mathlib.Nat.{le_refl}
use niceyaml.Prelude.{
  ℕ, zero, suc, ◌+◌, ◌≤◌, ◌≡◌, refl, sym, ap, ap₂, ◌∙◌, inl, inr, true, List, [], ◌∷◌, ◌++◌, map,
  Option, none, some, ok, length, get_elem?, drop, length-drop, length-map, Bool-cases, arith,
}
use niceyaml.Diff.{default, inserted, deleted, OpKind, op_equal, op_delete, op_insert, flag}
use niceyaml.Line.{Line, no_line, clone}
use niceyaml.Differ.{
  LineOp, AlignedRow, flagged, to_lines, kind_beq, collect_consecutive, cell, pair_rows, longer,
  aligned_rows_loop, aligned_rows,
}
use niceyaml.Differ.Sides.{shown_old, shown_new}
use niceyaml.Differ.Rows.Pads.{
  Pair, to_row, present, lefts, rights, gone, come, pads, pair_rows-pads, AllKind,
  collect_consecutive-AllKind, collect_consecutive-append, present-lefts_append,
  present-rights_append, present-lefts-pads, present-rights-pads,
}

module _ (rest : List LineOp) where
  shown_old-deletes :
      (ds : List LineOp)
      → AllKind op_delete ds
      → shown_old (to_lines (ds ++ rest)) ≡ map gone ds ++ shown_old (to_lines rest)
  unfolding to_lines flag
  shown_old-deletes [] h = refl
  shown_old-deletes (d ∷ ds) (e, h) = rw e (ap (λ ls. gone d ∷ ls) (shown_old-deletes ds h))

  shown_new-deletes :
      (ds : List LineOp)
      → AllKind op_delete ds
      → shown_new (to_lines (ds ++ rest)) ≡ shown_new (to_lines rest)
  unfolding to_lines flag
  shown_new-deletes [] h = refl
  shown_new-deletes (d ∷ ds) (e, h) = rw e (shown_new-deletes ds h)

  shown_old-inserts :
      (is : List LineOp)
      → AllKind op_insert is
      → shown_old (to_lines (is ++ rest)) ≡ shown_old (to_lines rest)
  unfolding to_lines flag
  shown_old-inserts [] h = refl
  shown_old-inserts (i ∷ is) (e, h) = rw e (shown_old-inserts is h)

  shown_new-inserts :
      (is : List LineOp)
      → AllKind op_insert is
      → shown_new (to_lines (is ++ rest)) ≡ map come is ++ shown_new (to_lines rest)
  unfolding to_lines flag
  shown_new-inserts [] h = refl
  shown_new-inserts (i ∷ is) (e, h) = rw e (ap (λ ls. come i ∷ ls) (shown_new-inserts is h))

-- The rows of some operations, as pairs.
record Rowed (fuel : ℕ) (ops : List LineOp) : Type 0 where
  pub pairs : List Pair
  pub runs : aligned_rows_loop fuel ops ≡ ok (map to_row pairs)
  pub old : present (lefts pairs) ≡ shown_old (to_lines ops)
  pub new : present (rights pairs) ≡ shown_new (to_lines ops)

aligned_rows-equal :
    (fuel : ℕ) (line : Line) (ops : List LineOp)
    → Rowed fuel ops
    → Rowed (suc fuel) (record { line = line; kind = op_equal } ∷ ops)
unfolding aligned_rows_loop to_lines flag
aligned_rows-equal fuel line ops r =
    let l : Line = flagged default (clone line) in
    record {
      pairs = (some l, some l) ∷ r.pairs;
      runs = rw (aligned_rows_loop, r.runs) refl;
      old = ap (λ ls. l ∷ ls) r.old;
      new = ap (λ ls. l ∷ ls) r.new;
    }

aligned_rows-insert :
    (fuel : ℕ) (line : Line) (ops : List LineOp)
    → Rowed fuel ops
    → Rowed (suc fuel) (record { line = line; kind = op_insert } ∷ ops)
unfolding aligned_rows_loop to_lines flag
aligned_rows-insert fuel line ops r =
    let l : Line = flagged inserted (clone line) in
    record {
      pairs = (none, some l) ∷ r.pairs;
      runs = rw (aligned_rows_loop, r.runs) refl;
      old = r.old;
      new = ap (λ ls. l ∷ ls) r.new;
    }

abbrev deletes_of : List LineOp → List LineOp
deletes_of ops = collect_consecutive op_delete ops

abbrev behind : List LineOp → List LineOp
behind ops = drop (length (deletes_of ops)) ops

abbrev inserts_of : List LineOp → List LineOp
inserts_of ops = collect_consecutive op_insert (behind ops)

abbrev rest_of : List LineOp → List LineOp
rest_of ops = drop (length (inserts_of ops)) (behind ops)

aligned_rows-delete :
    (fuel : ℕ) (line : Line) (ops : List LineOp)
    → Rowed fuel (rest_of (record { line = line; kind = op_delete } ∷ ops))
    → Rowed (suc fuel) (record { line = line; kind = op_delete } ∷ ops)
unfolding aligned_rows_loop
aligned_rows-delete fuel line ops r =
    let all : List LineOp = record { line = line; kind = op_delete } ∷ ops in
    let ds = deletes_of all in
    let is = inserts_of all in
    let rest = rest_of all in
    let ds_kind = collect_consecutive-AllKind op_delete all in
    let is_kind = collect_consecutive-AllKind op_insert (behind all) in
    let split : ds ++ (is ++ rest) ≡ all =
      ap (λ xs. ds ++ xs) (collect_consecutive-append op_insert (behind all))
      ∙ collect_consecutive-append op_delete all in
    record {
      pairs = pads ds is ++ r.pairs;
      runs =
          rw (aligned_rows_loop, r.runs)
            (ap ok (
              ap (λ rows. rows ++ map to_row r.pairs) (pair_rows-pads ds is)
              ∙ sym (map-append to_row (pads ds is) r.pairs)));
      old =
          present-lefts_append (pads ds is) r.pairs
          ∙ ap₂ ◌++◌ (present-lefts-pads ds is) (r.old ∙ sym (shown_old-inserts rest is is_kind))
          ∙ sym (shown_old-deletes (is ++ rest) ds ds_kind)
          ∙ ap (λ xs. shown_old (to_lines xs)) split;
      new =
          present-rights_append (pads ds is) r.pairs
          ∙ ap₂ ◌++◌ (present-rights-pads ds is) r.new
          ∙ sym (shown_new-inserts rest is is_kind)
          ∙ sym (shown_new-deletes (is ++ rest) ds ds_kind)
          ∙ ap (λ xs. shown_new (to_lines xs)) split;
    }

aligned_rows-step :
    (fuel : ℕ) (kind : OpKind) (line : Line) (ops : List LineOp)
    → Rowed fuel ops
    → Rowed fuel (rest_of (record { line = line; kind = op_delete } ∷ ops))
    → Rowed (suc fuel) (record { line = line; kind = kind } ∷ ops)
aligned_rows-step fuel op_equal line ops r s = aligned_rows-equal fuel line ops r
aligned_rows-step fuel op_insert line ops r s = aligned_rows-insert fuel line ops r
aligned_rows-step fuel op_delete line ops r s = aligned_rows-delete fuel line ops s

length-rest_of :
    (line : Line) (ops : List LineOp)
    → length (rest_of (record { line = line; kind = op_delete } ∷ ops)) ≤ length ops
unfolding collect_consecutive
length-rest_of line ops =
    let all : List LineOp = record { line = line; kind = op_delete } ∷ ops in
    omega (
      arith,
      length-drop (length (inserts_of all)) (behind all),
      length-drop (length (collect_consecutive op_delete ops)) ops,
    )

aligned_rows-Rowed : (fuel : ℕ) (ops : List LineOp) → length ops ≤ fuel → Rowed fuel ops
unfolding aligned_rows_loop to_lines
aligned_rows-Rowed fuel [] h = record { pairs = []; runs = refl; old = refl; new = refl }
aligned_rows-Rowed zero (op ∷ ops) h = absurd (omega arith)
aligned_rows-Rowed (suc fuel) (op ∷ ops) h =
    aligned_rows-step fuel op.kind op.line ops (aligned_rows-Rowed fuel ops (omega arith)) (
      aligned_rows-Rowed fuel (rest_of (record { line = op.line; kind = op_delete } ∷ ops))
        (omega (arith, length-rest_of op.line ops)))

-- The loop of getAlignedRows ends for all operations. Its rows are pairs of lines or empty
-- placeholders: without the placeholders the left sides are the lines of the unified view that are
-- not insertions, and the right sides those that are not deletions, with their flags and in order.
pub aligned_rows-sides :
    (ops : List LineOp)
    → (pairs : List Pair) × (aligned_rows ops ≡ ok (map to_row pairs))
      × (present (lefts pairs) ≡ shown_old (to_lines ops))
      × (present (rights pairs) ≡ shown_new (to_lines ops))
unfolding aligned_rows
aligned_rows-sides ops =
    let r = aligned_rows-Rowed (length ops) ops (le_refl (length ops)) in
    (r.pairs, r.runs, r.old, r.new)
