-- ===== src/Diff/Hirschberg/Table.antt =====
-- The table that the two passes compute, and why its entries are lengths of longest common
-- subsequences. Lines are read by functions, so that a pass from the end is the same table.
use niceyaml.Prelude.{
  ℕ, zero, suc, ◌≤◌, ◌≡◌, refl, ap, subst, sym, Bool, true, false, Option, none, some, arith, max,
  if◌then◌else◌, dec_le, Bool-cases, inl, inr, Eq, ◌=?◌,
}

module _ {ℓ} {A : Type ℓ} ⦃e : Eq A⦄ where
  abbrev same : Option A → Option A → Bool
  same (some x) (some y) = x =? y
  same none b = false
  same (some x) none = false

  same-eq : (p q : Option A) → same p q ≡ true → (x : A) × (p ≡ some x) × (q ≡ some x)
  same-eq none q h = cc
  same-eq (some x) none h = cc
  same-eq (some x) (some y) h = (x, refl, ap some (sym ((e.beq_iff x y).0 h)))

  same_self : (p q : Option A) {x : A} → p ≡ some x → q ≡ some x → same p q ≡ true
  same_self p q {x} hp hq = rw (hp, hq) ((e.beq_iff x x).1 refl)

  module _ (f g : ℕ → Option A) where
    -- The entry for the first `m` lines of `f` and the first `n` of `g`.
    pub lcs : ℕ → ℕ → ℕ
    lcs zero n = 0
    lcs (suc m) zero = 0
    lcs (suc m) (suc n) =
        if same (f m) (g n) then suc (lcs m n) else max (lcs (suc m) n) (lcs m (suc n))

    pub lcs-no_lines : (n : ℕ) → lcs zero n ≡ 0
    unfolding lcs
    lcs-no_lines n = refl

    pub lcs-no_cols : (m : ℕ) → lcs m zero ≡ 0
    unfolding lcs
    lcs-no_cols zero = refl
    lcs-no_cols (suc m) = refl

    pub lcs-pair :
        (m n : ℕ) {x y : A}
        → f m ≡ some x
        → g n ≡ some y
        → (x =? y) ≡ true
        → lcs (suc m) (suc n) ≡ suc (lcs m n)
    unfolding lcs
    lcs-pair m n p q h = rw (p, q, h)

    pub lcs-skip :
        (m n : ℕ) {x y : A}
        → f m ≡ some x
        → g n ≡ some y
        → (x =? y) ≡ false
        → lcs (suc m) (suc n) ≡ max (lcs (suc m) n) (lcs m (suc n))
    unfolding lcs
    lcs-skip m n p q h = rw (p, q, h)

    -- Neighbouring entries differ by one at most.
    pub record Smooth (m n : ℕ) : Type 0 where
      pub line_up : lcs m n ≤ lcs (suc m) n
      pub col_up : lcs m n ≤ lcs m (suc n)
      pub line_by_one : lcs (suc m) n ≤ suc (lcs m n)
      pub col_by_one : lcs m (suc n) ≤ suc (lcs m n)

    pub lcs-Smooth : (m n : ℕ) → Smooth m n
    unfolding lcs
    lcs-Smooth zero zero = record {
      line_up = omega arith;
      col_up = omega arith;
      line_by_one = omega arith;
      col_by_one = omega arith;
    }
    lcs-Smooth zero (suc n) =
        let s : Smooth zero n = lcs-Smooth zero n in
        record {
          line_up = ground arith;
          col_up = ground arith;
          line_by_one = ground arith;
          col_by_one = ground arith;
        }
    lcs-Smooth (suc m) zero =
        let s : Smooth m zero = lcs-Smooth m zero in
        record {
          line_up = ground arith;
          col_up = ground arith;
          line_by_one = ground arith;
          col_by_one = ground arith;
        }
    lcs-Smooth (suc m) (suc n) =
        let s : Smooth (suc m) n = lcs-Smooth (suc m) n in
        let t : Smooth m (suc n) = lcs-Smooth m (suc n) in
        record {
          line_up = ground arith;
          col_up = ground arith;
          line_by_one = ground arith;
          col_by_one = ground arith;
        }

    -- The matchings of the first `m` lines of `f` with the first `n` of `g`, with `k` pairs.
    pub data Matching : ℕ → ℕ → ℕ → Type ℓ where
      start : Matching zero zero zero
      skip_line : {m n k : ℕ} → Matching m n k → Matching (suc m) n k
      skip_col : {m n k : ℕ} → Matching m n k → Matching m (suc n) k
      pair :
          {m n k : ℕ} {x : A}
          → f m ≡ some x
          → g n ≡ some x
          → Matching m n k
          → Matching (suc m) (suc n) (suc k)

    -- No matching has more pairs than the table says,
    pub Matching-le-lcs : {m n k : ℕ} → Matching m n k → k ≤ lcs m n
    unfolding lcs
    Matching-le-lcs start = omega arith
    Matching-le-lcs (skip_line {m} {n} d) =
        let s : Smooth m n = lcs-Smooth m n in omega (arith, Matching-le-lcs d)
    Matching-le-lcs (skip_col {m} {n} d) =
        let s : Smooth m n = lcs-Smooth m n in omega (arith, Matching-le-lcs d)
    Matching-le-lcs (pair {m} {n} p q d) =
        rw (same_self (f m) (g n) p q) (omega (arith, Matching-le-lcs d))

    larger : {m n a b : ℕ} → Matching m n a → Matching m n b → Matching m n (max a b)
    larger {m} {n} {a} {b} p q = elim (dec_le a b) [
      | yes h ↦ let e : b ≡ max a b = omega arith in subst (Matching m n) e q
      | no h ↦ let e : a ≡ max a b = omega arith in subst (Matching m n) e p
    ]

    -- and some matching has as many.
    pub lcs-Matching : (m n : ℕ) → Matching m n (lcs m n)
    unfolding lcs
    lcs-Matching zero zero = start
    lcs-Matching zero (suc n) = skip_col (lcs-Matching zero n)
    lcs-Matching (suc m) zero =
        skip_line (subst (Matching m 0) (lcs-no_cols m) (lcs-Matching m zero))
    lcs-Matching (suc m) (suc n) = elim (Bool-cases (same (f m) (g n))) [
      | inl eq ↦ let (x, p, q) = same-eq (f m) (g n) eq in rw eq (pair p q (lcs-Matching m n))
      | inr ne ↦
          rw ne (larger (skip_col (lcs-Matching (suc m) n)) (skip_line (lcs-Matching m (suc n))))
    ]
