-- ===== src/Diff/Hirschberg/Split.antt =====
-- Why the halves may be solved apart: a script that is longest on both sides of the best column is
-- longest for the whole range.
use niceyaml.Prelude.{ℕ, ◌+◌, ◌-◌, ◌≤◌, ◌≡◌, refl, List, ◌++◌, arith, length, Eq, ap}
use niceyaml.Diff.{Op}
use niceyaml.Diff.Script.{Applies, equals, equals-append, Applies-le, Cut, cut}
use niceyaml.Diff.Hirschberg.Table.{start, Matching-le-lcs, lcs-Matching}
use niceyaml.Diff.Hirschberg.Passes.{table_from, table_to}
use niceyaml.Diff.Hirschberg.Middle.{score}
use niceyaml.Diff.Hirschberg.Optimal.{
  Keeping, Longest, Matching-Keeping_from, Applies-Matching_from, Matching-Keeping_to,
  Applies-Matching_to,
}

module _ {ℓ} {A : Type ℓ} ⦃e : Eq A⦄ (before after : List A) where
  equals-le-table_from :
      {i j i₀ j₀ : ℕ} {ops : List Op}
      → Applies before after i j ops i₀ j₀
      → equals ops ≤ table_from before after i₀ j₀ (i - i₀) (j - j₀)
  equals-le-table_from {i} {j} {i₀} {j₀} {ops} d =
      let (p, q) = Applies-le d in
      Matching-le-lcs _ _ (
        Applies-Matching_from before after i₀ j₀ 0 0 0 (i - i₀) (j - j₀) (equals ops) d
          (omega arith) (omega arith) (omega arith) (omega arith) (omega arith) start)

  equals-le-table_to :
      {i_end j_end i j : ℕ} {ops : List Op}
      → Applies before after i_end j_end ops i j
      → equals ops ≤ table_to before after i_end j_end (i_end - i) (j_end - j)
  equals-le-table_to {i_end} {j_end} {i} {j} {ops} d =
      let (p, q) = Applies-le d in
      Matching-le-lcs _ _ (
        Applies-Matching_to before after i_end j_end (i_end - i) (j_end - j) (equals ops) d
          (omega arith) (omega arith) refl)

  module _ (b_start b_mid b_end a_start a_end : ℕ) where
    -- The scores of `recurse`, by the column's distance from `a_start`.
    abbrev pub column_score : ℕ → ℕ
    column_score =
        score (table_from before after b_start a_start (b_mid - b_start))
          (table_to before after b_end a_end (b_end - b_mid)) (a_end - a_start)

    -- No script of the whole range keeps more lines than the best score.
    pub score_bounds :
        (c : ℕ)
        → b_start ≤ b_mid
        → b_mid ≤ b_end
        → ((k : ℕ) → k ≤ a_end - a_start → column_score k ≤ column_score c)
        → Longest before after b_end a_end b_start a_start (column_score c)
    score_bounds c p q best ops d =
        let s : Cut before after b_end a_end b_start a_start b_mid ops = cut b_mid d p q in
        let (_, left) = Applies-le s.left in
        let (_, right) = Applies-le s.right in
        let rest : a_end - a_start - (s.j_mid - a_start) ≡ a_end - s.j_mid = omega arith in
        omega (
          arith,
          s.weight,
          equals-le-table_from s.left,
          equals-le-table_to s.right,
          best (s.j_mid - a_start) (omega arith),
          ap (table_to before after b_end a_end (b_end - b_mid)) rest,
        )

    -- Scripts that are longest on the two sides of a column reach its score together.
    pub halves_reach :
        (c : ℕ) (xs ys : List Op)
        → b_start ≤ b_mid
        → b_mid ≤ b_end
        → a_start ≤ a_end
        → c ≤ a_end - a_start
        → b_end ≤ length before
        → a_end ≤ length after
        → Longest before after b_mid (a_start + c) b_start a_start (equals xs)
        → Longest before after b_end a_end b_mid (a_start + c) (equals ys)
        → column_score c ≤ equals (xs ++ ys)
    halves_reach c xs ys p q r h bb ba longest_xs longest_ys =
        let left : Keeping before after b_mid (a_start + c) b_start a_start
            (table_from before after b_start a_start (b_mid - b_start) c) =
          Matching-Keeping_from before after b_start a_start (lcs-Matching _ _ (b_mid - b_start) c)
            b_mid (a_start + c) (omega arith) refl (omega arith) (omega arith) in
        let right : Keeping before after b_end a_end b_mid (a_start + c)
            (table_to before after b_end a_end (b_end - b_mid) (a_end - a_start - c)) =
          Matching-Keeping_to before after b_end a_end
            (lcs-Matching _ _ (b_end - b_mid) (a_end - a_start - c)) b_mid (a_start + c)
            (omega arith) (omega arith) bb ba in
        omega (
          arith,
          equals-append xs ys,
          left.kept,
          right.kept,
          longest_xs left.ops left.applies,
          longest_ys right.ops right.applies,
        )
