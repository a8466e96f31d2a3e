-- ===== src/Differ/Stats.antt =====
-- `DiffResult.Stats` against the two sides of the operations.
use niceyaml.Prelude.{ℕ, suc, ◌+◌, ◌≡◌, refl, List, [], ◌∷◌, length, arith}
use niceyaml.Diff.{OpKind, op_equal, op_delete, op_insert}
use niceyaml.Line.{Line}
use niceyaml.Differ.{LineOp, stats_loop, stats}
use niceyaml.Differ.Sides.{old_side, new_side}

-- The counts of the loop on both sides.
abbrev Counted : List LineOp → ℕ → ℕ → Type 0
Counted ops added removed =
    ((stats_loop ops added removed).0 + length (old_side ops) ≡ added + length ops)
    × ((stats_loop ops added removed).1 + length (new_side ops) ≡ removed + length ops)

Counted-step :
    (kind : OpKind) (line : Line) (ops : List LineOp) (added removed : ℕ)
    → ((a r : ℕ) → Counted ops a r)
    → Counted (record { line = line; kind = kind } ∷ ops) added removed
unfolding stats_loop
Counted-step op_equal line ops added removed h =
    let (p, q) = h added removed in (omega (arith, p), omega (arith, q))
Counted-step op_delete line ops added removed h =
    let (p, q) = h added (suc removed) in (omega (arith, p), omega (arith, q))
Counted-step op_insert line ops added removed h =
    let (p, q) = h (suc added) removed in (omega (arith, p), omega (arith, q))

stats_loop-Counted : (ops : List LineOp) (added removed : ℕ) → Counted ops added removed
unfolding stats_loop
stats_loop-Counted [] added removed = (refl, refl)
stats_loop-Counted (op ∷ ops) added removed =
    Counted-step op.kind op.line ops added removed (stats_loop-Counted ops)

-- Stats counts as added the operations that have no line in the old file, and as removed those that
-- have none in the new file.
pub stats-sides :
    (ops : List LineOp)
    → ((stats ops).0 + length (old_side ops) ≡ length ops)
      × ((stats ops).1 + length (new_side ops) ≡ length ops)
unfolding stats
stats-sides ops = let (p, q) = stats_loop-Counted ops 0 0 in (omega (arith, p), omega (arith, q))
