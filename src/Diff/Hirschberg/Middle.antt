-- ===== src/Diff/Hirschberg/Middle.antt =====
-- The loop of `recurse` that picks the column where `after` is cut.
use native.Mathlib.Numerals.{add-one}
use native.Mathlib.Nat.{le_refl}
use niceyaml.Prelude.{
  ℕ_discrete, ℕ, zero, suc, ◌+◌, ◌-◌, ◌≤◌, ◌<◌, ◌≡◌, refl, List, none, some, true, false, arith,
  Outcome, ok, ltb, Bool-cases, inl, inr, ltb→lt,
}
use niceyaml.Diff.Hirschberg.{best_mid}
use niceyaml.Diff.Hirschberg.Rows.{Holds}

module _ (f b : ℕ → ℕ) (n : ℕ) where
  abbrev pub score : ℕ → ℕ
  score k = f k + b (n - k)

  -- The loop ends with a column of the range whose score no other exceeds.
  pub record Picked (run : Outcome ℕ) (a_start : ℕ) : Type 0 where
    pub col : ℕ
    pub runs : run ≡ ok (a_start + col)
    pub in_range : col ≤ n
    pub best : (k : ℕ) → k ≤ n → score k ≤ score col

module _ (f b : ℕ → ℕ) (n a_start : ℕ) (fwd bwd : List ℕ) (hf : Holds fwd n f)
    (hb : Holds bwd n b) where
  best_mid_from :
      (k count c : ℕ)
      → k + count ≡ suc n
      → c ≤ n
      → ((j : ℕ) → j < k → score f b n j ≤ score f b n c)
      → Picked f b n
          (best_mid fwd bwd n a_start k count (some (score f b n c)) (a_start + c))
          a_start
  unfolding best_mid
  best_mid_from k zero c end p best = record {
    col = c;
    runs = refl;
    in_range = p;
    best = λ j q. best j (omega arith);
  }
  best_mid_from k (suc count) c end p best =
      elim (Bool-cases (ltb (score f b n c) (score f b n k))) [
        | inl more ↦
            let r : Picked f b n
                (best_mid fwd bwd n a_start (suc k) count (some (score f b n k)) (a_start + k))
                a_start =
              best_mid_from (suc k) count k (omega arith) (omega arith) (λ j q. upto j q more) in
            record {
              col = r.col;
              runs = rw (hf k (omega arith), hb (n - k) (omega arith), more, add-one) r.runs;
              in_range = r.in_range;
              best = r.best;
            }
        | inr less ↦
            let r : Picked f b n
                (best_mid fwd bwd n a_start (suc k) count (some (score f b n c)) (a_start + c))
                a_start =
              best_mid_from (suc k) count c (omega arith) p (λ j q. upto' j q less) in
            record {
              col = r.col;
              runs = rw (hf k (omega arith), hb (n - k) (omega arith), less, add-one) r.runs;
              in_range = r.in_range;
              best = r.best;
            }
      ]
    where
      upto :
          (j : ℕ)
          → j < suc k
          → ltb (score f b n c) (score f b n k) ≡ true
          → score f b n j ≤ score f b n k
      upto j q more = elim (ℕ_discrete j k) [
        | yes e ↦ rw e (le_refl _)
        | no ne ↦
            let h : score f b n j ≤ score f b n c = best j (omega arith) in
            omega (arith, ltb→lt _ _ more)
      ]

      upto' :
          (j : ℕ)
          → j < suc k
          → ltb (score f b n c) (score f b n k) ≡ false
          → score f b n j ≤ score f b n c
      upto' j q less = elim (ℕ_discrete j k) [
        | yes e ↦ rw e (ground arith)
        | no ne ↦ best j (omega arith)
      ]

  pub best_mid-Picked : Picked f b n (best_mid fwd bwd n a_start 0 (suc n) none a_start) a_start
  unfolding best_mid
  best_mid-Picked =
      let r : Picked f b n (best_mid fwd bwd n a_start 1 n (some (score f b n 0)) (a_start + 0))
          a_start =
        best_mid_from 1 n 0 (omega arith) (omega arith)
          (λ j q. let e : j ≡ 0 = omega arith in rw e (le_refl _)) in
      record {
        col = r.col;
        runs = rw (hf 0 (omega arith), hb (n - 0) (omega arith)) r.runs;
        in_range = r.in_range;
        best = r.best;
      }
