-- ===== src/Diff/Hirschberg/Optimal.antt =====
-- Edit scripts and matchings of the two tables are the same thing, so a table bounds every script.
use mathlib.Core.Path.{subst₃}
use niceyaml.Prelude.{
  ℕ, zero, suc, ◌+◌, ◌-◌, ◌≤◌, ◌≡◌, refl, List, [], ◌∷◌, ◌++◌, Option, some, arith, length,
  get_elem?, Eq,
}
use niceyaml.Diff.{Op}
use niceyaml.Diff.Script.{
  insert_at, delete_at, equal_at, Applies, done, equal, delete, insert, equals, equals-append,
  Applies-append, Applies-le,
}
use niceyaml.Diff.Hirschberg.Table.{Matching, start, skip_line, skip_col, pair}

-- A script of a range with a given number of equal operations.
pub record Keeping {ℓ} {A : Type ℓ} (before after : List A) (i_end j_end i j k : ℕ) : Type ℓ where
  pub ops : List Op
  pub applies : Applies before after i_end j_end ops i j
  pub kept : equals ops ≡ k

-- No script of the range keeps more lines.
abbrev pub Longest {ℓ} : {A : Type ℓ} → List A → List A → ℕ → ℕ → ℕ → ℕ → ℕ → Type ℓ
Longest before after i_end j_end i j k =
    (ops : List Op) → Applies before after i_end j_end ops i j → equals ops ≤ k

same_place {ℓ} :
    {A : Type ℓ} (xs : List A) {i j : ℕ} {x : A}
    → i ≡ j
    → get_elem? xs i ≡ some x
    → get_elem? xs j ≡ some x
same_place xs e h = rw (← e) h

module _ {ℓ} {A : Type ℓ} ⦃e : Eq A⦄ (before after : List A) where
  module _ (i₀ j₀ : ℕ) where
    abbrev line_from : ℕ → Option A
    line_from k = get_elem? before (i₀ + k)

    abbrev col_from : ℕ → Option A
    col_from k = get_elem? after (j₀ + k)

    add_last :
        {i j i' j' k k' : ℕ} (o : Op)
        → Keeping before after i j i₀ j₀ k
        → Applies before after i' j' (o ∷ []) i j
        → k' ≡ k + equals (o ∷ [])
        → Keeping before after i' j' i₀ j₀ k'
    add_last o s d e = record {
      ops = s.ops ++ o ∷ [];
      applies = Applies-append s.applies d;
      kept = omega (arith, equals-append s.ops (o ∷ []), s.kept);
    }

    pub Matching-Keeping_from :
        {m n k : ℕ}
        → Matching line_from col_from m n k
        → (i j : ℕ) → i ≡ i₀ + m
        → j ≡ j₀ + n
        → i ≤ length before
        → j ≤ length after
        → Keeping before after i j i₀ j₀ k
    Matching-Keeping_from start i j p q bi bj =
        let p' : i ≡ i₀ = omega arith in
        let q' : j ≡ j₀ = omega arith in
        rw (p', q') (record { ops = []; applies = done; kept = refl })
    Matching-Keeping_from (skip_line {m} {n} {k} d) i j p q bi bj =
        let p' : i ≡ suc (i₀ + m) = omega arith in
        let s : Keeping before after (i₀ + m) j i₀ j₀ k =
          Matching-Keeping_from d (i₀ + m) j refl q (omega arith) bj in
        rw p' (add_last (delete_at (i₀ + m)) s (delete (omega arith) done) (omega arith))
    Matching-Keeping_from (skip_col {m} {n} {k} d) i j p q bi bj =
        let q' : j ≡ suc (j₀ + n) = omega arith in
        let s : Keeping before after i (j₀ + n) i₀ j₀ k =
          Matching-Keeping_from d i (j₀ + n) p refl bi (omega arith) in
        rw q' (add_last (insert_at (j₀ + n)) s (insert (omega arith) done) (omega arith))
    Matching-Keeping_from (pair {m} {n} {k} hx hy d) i j p q bi bj =
        let p' : i ≡ suc (i₀ + m) = omega arith in
        let q' : j ≡ suc (j₀ + n) = omega arith in
        let s : Keeping before after (i₀ + m) (j₀ + n) i₀ j₀ k =
          Matching-Keeping_from d (i₀ + m) (j₀ + n) refl refl (omega arith) (omega arith) in
        rw (p', q') (add_last (equal_at (j₀ + n)) s (equal hx hy done) (omega arith))

    pub Applies-Matching_from :
        {i_end j_end i j : ℕ} {ops : List Op} (m n k m' n' k' : ℕ)
        → Applies before after i_end j_end ops i j
        → i ≡ i₀ + m
        → j ≡ j₀ + n
        → i_end ≡ i₀ + m'
        → j_end ≡ j₀ + n'
        → k' ≡ k + equals ops
        → Matching line_from col_from m n k
        → Matching line_from col_from m' n' k'
    Applies-Matching_from m n k m' n' k' done p q p' q' e d =
        subst₃ (Matching line_from col_from) (omega arith) (omega arith) (omega arith) d
    Applies-Matching_from m n k m' n' k' (equal hx hy a) p q p' q' e d =
        Applies-Matching_from (suc m) (suc n) (suc k) m' n' k' a (omega arith) (omega arith) p' q'
          (omega arith) (pair (same_place before p hx) (same_place after q hy) d)
    Applies-Matching_from m n k m' n' k' (delete h a) p q p' q' e d =
        Applies-Matching_from (suc m) n k m' n' k' a (omega arith) q p' q' (omega arith)
          (skip_line d)
    Applies-Matching_from m n k m' n' k' (insert h a) p q p' q' e d =
        Applies-Matching_from m (suc n) k m' n' k' a p (omega arith) p' q' (omega arith)
          (skip_col d)

  module _ (i_end j_end : ℕ) where
    abbrev line_to : ℕ → Option A
    line_to k = get_elem? before (i_end - 1 - k)

    abbrev col_to : ℕ → Option A
    col_to k = get_elem? after (j_end - 1 - k)

    pub Matching-Keeping_to :
        {m n k : ℕ}
        → Matching line_to col_to m n k
        → (i j : ℕ) → i + m ≡ i_end
        → j + n ≡ j_end
        → i_end ≤ length before
        → j_end ≤ length after
        → Keeping before after i_end j_end i j k
    Matching-Keeping_to start i j p q bi bj =
        let p' : i ≡ i_end = omega arith in
        let q' : j ≡ j_end = omega arith in
        rw (p', q') (record { ops = []; applies = done; kept = refl })
    Matching-Keeping_to (skip_line {m} {n} {k} d) i j p q bi bj =
        let s : Keeping before after i_end j_end (suc i) j k =
          Matching-Keeping_to d (suc i) j (omega arith) q bi bj in
        record {
          ops = delete_at i ∷ s.ops;
          applies = delete (omega arith) s.applies;
          kept = omega (arith, s.kept);
        }
    Matching-Keeping_to (skip_col {m} {n} {k} d) i j p q bi bj =
        let s : Keeping before after i_end j_end i (suc j) k =
          Matching-Keeping_to d i (suc j) p (omega arith) bi bj in
        record {
          ops = insert_at j ∷ s.ops;
          applies = insert (omega arith) s.applies;
          kept = omega (arith, s.kept);
        }
    Matching-Keeping_to (pair {m} {n} {k} hx hy d) i j p q bi bj =
        let s : Keeping before after i_end j_end (suc i) (suc j) k =
          Matching-Keeping_to d (suc i) (suc j) (omega arith) (omega arith) bi bj in
        let p' : i_end - 1 - m ≡ i = omega arith in
        let q' : j_end - 1 - n ≡ j = omega arith in
        record {
          ops = equal_at j ∷ s.ops;
          applies = equal (same_place before p' hx) (same_place after q' hy) s.applies;
          kept = omega (arith, s.kept);
        }

    pub Applies-Matching_to :
        {i j : ℕ} {ops : List Op} (m n k : ℕ)
        → Applies before after i_end j_end ops i j
        → i + m ≡ i_end
        → j + n ≡ j_end
        → k ≡ equals ops
        → Matching line_to col_to m n k
    Applies-Matching_to m n k done p q e =
        subst₃ (Matching line_to col_to) (omega arith) (omega arith) (omega arith) start
    Applies-Matching_to {i} {j} zero n k (equal hx hy a) p q e =
        absurd (omega (arith, Applies-le a))
    Applies-Matching_to {i} {j} (suc m) zero k (equal hx hy a) p q e =
        absurd (omega (arith, Applies-le a))
    Applies-Matching_to {i} {j} (suc m) (suc n) zero (equal hx hy a) p q e = absurd (omega arith)
    Applies-Matching_to {i} {j} (suc m) (suc n) (suc k) (equal hx hy a) p q e =
        let p' : i ≡ i_end - 1 - m = omega arith in
        let q' : j ≡ j_end - 1 - n = omega arith in
        pair (same_place before p' hx) (same_place after q' hy)
          (Applies-Matching_to m n k a (omega arith) (omega arith) (omega arith))
    Applies-Matching_to zero n k (delete h a) p q e = absurd (omega (arith, Applies-le a))
    Applies-Matching_to (suc m) n k (delete h a) p q e =
        skip_line (Applies-Matching_to m n k a (omega arith) q (omega arith))
    Applies-Matching_to m zero k (insert h a) p q e = absurd (omega (arith, Applies-le a))
    Applies-Matching_to m (suc n) k (insert h a) p q e =
        skip_col (Applies-Matching_to m n k a p (omega arith) (omega arith))
