-- ===== src/Diff/Script.antt =====
-- What it means that a list of operations turns one list of lines into another.
use niceyaml.Prelude.{
  ℕ, suc, ◌+◌, ◌≤◌, ◌<◌, ◌≡◌, subst, List, [], ◌∷◌, ◌++◌, some, arith, length, get_elem?,
  ℕ_discrete,
}
use niceyaml.Diff.{Op, OpKind, op_equal, op_delete, op_insert}

abbrev pub insert_at : ℕ → Op
insert_at j = record { kind = op_insert; index = j }

abbrev pub delete_at : ℕ → Op
delete_at i = record { kind = op_delete; index = i }

abbrev pub equal_at : ℕ → Op
equal_at j = record { kind = op_equal; index = j }

-- The operations take `before` from line `i` to `i_end` and `after` from line `j` to `j_end`: each
-- line of a range is consumed once and in order, and an equal operation stands for equal lines.
pub data Applies {ℓ} {A : Type ℓ} (before after : List A) (i_end j_end : ℕ)
    : List Op → ℕ → ℕ → Type ℓ where
  done : Applies before after i_end j_end [] i_end j_end
  equal :
      {ops : List Op} {i j : ℕ} {x : A}
      → get_elem? before i ≡ some x
      → get_elem? after j ≡ some x
      → Applies before after i_end j_end ops (suc i) (suc j)
      → Applies before after i_end j_end (equal_at j ∷ ops) i j
  delete :
      {ops : List Op} {i j : ℕ}
      → i < length before
      → Applies before after i_end j_end ops (suc i) j
      → Applies before after i_end j_end (delete_at i ∷ ops) i j
  insert :
      {ops : List Op} {i j : ℕ}
      → j < length after
      → Applies before after i_end j_end ops i (suc j)
      → Applies before after i_end j_end (insert_at j ∷ ops) i j

abbrev equal_weight : OpKind → ℕ
equal_weight op_equal = 1
equal_weight _ = 0

-- How many lines an edit script keeps.
abbrev pub equals : List Op → ℕ
equals [] = 0
equals (o ∷ ops) = equal_weight o.kind + equals ops

pub equals-append : (xs ys : List Op) → equals (xs ++ ys) ≡ equals xs + equals ys
equals-append [] ys = omega arith
equals-append (x ∷ xs) ys = omega (arith, equals-append xs ys)

module _ {ℓ} {A : Type ℓ} {before after : List A} where
  pub Applies-append :
      {i_mid j_mid i_end j_end i j : ℕ} {xs ys : List Op}
      → Applies before after i_mid j_mid xs i j
      → Applies before after i_end j_end ys i_mid j_mid
      → Applies before after i_end j_end (xs ++ ys) i j
  Applies-append done r = r
  Applies-append (equal p q l) r = equal p q (Applies-append l r)
  Applies-append (delete h l) r = delete h (Applies-append l r)
  Applies-append (insert h l) r = insert h (Applies-append l r)

  -- A script never goes backwards.
  pub Applies-le :
      {i_end j_end i j : ℕ} {ops : List Op}
      → Applies before after i_end j_end ops i j
      → (i ≤ i_end) × (j ≤ j_end)
  Applies-le done = omega arith
  Applies-le (equal p q l) = omega (arith, Applies-le l)
  Applies-le (delete h l) = omega (arith, Applies-le l)
  Applies-le (insert h l) = omega (arith, Applies-le l)

-- A script of a longer range passes each line of `before`: it can be cut there.
pub record Cut {ℓ} {A : Type ℓ} (before after : List A) (i_end j_end i j i_mid : ℕ) (ops : List Op)
    : Type ℓ where
  pub j_mid : ℕ
  pub first : List Op
  pub second : List Op
  pub left : Applies before after i_mid j_mid first i j
  pub right : Applies before after i_end j_end second i_mid j_mid
  pub weight : equals ops ≡ equals first + equals second

module _ {ℓ} {A : Type ℓ} {before after : List A} {i_end j_end : ℕ} where
  -- A cut at the very start.
  Cut-here :
      {i j : ℕ} {ops : List Op} (i_mid : ℕ)
      → Applies before after i_end j_end ops i j
      → i ≡ i_mid
      → Cut before after i_end j_end i j i_mid ops
  Cut-here {i} {j} {ops} i_mid d e = record {
    j_mid = j;
    first = [];
    second = ops;
    left = subst (λ k. Applies before after k j [] i j) e done;
    right = subst (λ k. Applies before after i_end j_end ops k j) e d;
    weight = omega arith;
  }

  -- One operation more in front of the first part.
  Cut-later :
      {i j i' j' i_mid : ℕ} {ops : List Op} (o : Op)
      (c : Cut before after i_end j_end i' j' i_mid ops)
      → Applies before after i_mid c.j_mid (o ∷ c.first) i j
      → Cut before after i_end j_end i j i_mid (o ∷ ops)
  Cut-later o c d = record {
    j_mid = c.j_mid;
    first = o ∷ c.first;
    second = c.second;
    left = d;
    right = c.right;
    weight = omega (arith, c.weight);
  }

  pub cut :
      (i_mid : ℕ) {i j : ℕ} {ops : List Op}
      → Applies before after i_end j_end ops i j
      → i ≤ i_mid
      → i_mid ≤ i_end
      → Cut before after i_end j_end i j i_mid ops
  cut i_mid done p q = Cut-here i_mid done (omega arith)
  cut i_mid {i} (equal {ops = rest} {j = k} e₁ e₂ d) p q = elim (ℕ_discrete i i_mid) [
    | yes e ↦ Cut-here i_mid (equal e₁ e₂ d) e
    | no ne ↦
        let c : Cut before after i_end j_end (suc i) (suc k) i_mid rest =
          cut i_mid d (omega arith) q in
        Cut-later (equal_at k) c (equal e₁ e₂ c.left)
  ]
  cut i_mid {i} (delete {ops = rest} {j = k} h d) p q = elim (ℕ_discrete i i_mid) [
    | yes e ↦ Cut-here i_mid (delete h d) e
    | no ne ↦
        let c : Cut before after i_end j_end (suc i) k i_mid rest = cut i_mid d (omega arith) q in
        Cut-later (delete_at i) c (delete h c.left)
  ]
  cut i_mid {i} (insert {ops = rest} {j = k} h d) p q =
      let c : Cut before after i_end j_end i (suc k) i_mid rest = cut i_mid d p q in
      Cut-later (insert_at k) c (insert h c.left)
