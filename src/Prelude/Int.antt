-- ===== src/Prelude/Int.antt =====
-- Go's signed integers: ℤ over the native numbers, and the wrap-around of a 64-bit `int`.
-- Sums and orders go through the two parts of an integer, which are numbers that `omega` reads.
use Prim.Native.Nat.{ℕ, suc, ◌+◌, ◌-◌, ◌%◌, ◌^◌, ◌≤◌, ◌<◌, min}
use mathlib.Core.Path.{◌≡◌, refl, ◌∙◌, ap}
use mathlib.Core.Bool.{Bool, true}
use native.Mathlib.Omega.{arith}
use niceyaml.Prelude.Tests.{ltb, leb, ◌==◌, if◌then◌else◌, Bool-cases}
use mathlib.Core.Logic.{◌⊎◌, ◌↔◌, inl, inr}

-- `negsuc n` is -(n + 1).
pub data ℤ : Type 0 where
  pos : ℕ → ℤ
  negsuc : ℕ → ℤ

abbrev pub pos_part : ℤ → ℕ
pos_part (pos n) = n
pos_part (negsuc n) = 0

abbrev pub neg_part : ℤ → ℕ
neg_part (pos n) = 0
neg_part (negsuc n) = suc n

-- a - b, as an integer.
abbrev pub sub_ℕ : ℕ → ℕ → ℤ
sub_ℕ a b = if leb b a then pos (a - b) else negsuc (b - a - 1)

infixl 65 ◌+ℤ◌ ◌-ℤ◌
infix 50 ◌≤ℤ◌ ◌<ℤ◌
unfoldable pub ◌+ℤ◌ : ℤ → ℤ → ℤ
a +ℤ b = sub_ℕ (pos_part a + pos_part b) (neg_part a + neg_part b)

unfoldable pub ◌-ℤ◌ : ℤ → ℤ → ℤ
a -ℤ b = sub_ℕ (pos_part a + neg_part b) (neg_part a + pos_part b)

abbrev pub ◌≤ℤ◌ : ℤ → ℤ → Type 0
a ≤ℤ b = pos_part a + neg_part b ≤ pos_part b + neg_part a

abbrev pub ◌<ℤ◌ : ℤ → ℤ → Type 0
a <ℤ b = pos_part a + neg_part b < pos_part b + neg_part a

abbrev pub ltb_ℤ : ℤ → ℤ → Bool
ltb_ℤ a b = ltb (pos_part a + neg_part b) (pos_part b + neg_part a)

abbrev pub max_ℤ : ℤ → ℤ → ℤ
max_ℤ a b = if ltb_ℤ a b then b else a

abbrev pub min_ℤ : ℤ → ℤ → ℤ
min_ℤ a b = if ltb_ℤ b a then b else a

pub +ℤ_parts :
    (a b : ℤ)
    → pos_part (a +ℤ b) + neg_part a + neg_part b ≡ neg_part (a +ℤ b) + pos_part a + pos_part b
unfolding ◌+ℤ◌
+ℤ_parts a b = ground arith

pub -ℤ_parts :
    (a b : ℤ)
    → pos_part (a -ℤ b) + neg_part a + pos_part b ≡ neg_part (a -ℤ b) + pos_part a + neg_part b
unfolding ◌-ℤ◌
-ℤ_parts a b = ground arith

pub eq_of_parts : (a b : ℤ) → pos_part a + neg_part b ≡ pos_part b + neg_part a → a ≡ b
eq_of_parts a b h = ground arith

pub ruleset int_laws = (arith, +ℤ_parts, -ℤ_parts, eq_of_parts)

-- The values of a 64-bit `int`, and what is left of an integer in one.
abbrev pub half_range : ℕ
half_range = 2 ^ 63

abbrev from_word : ℕ → ℤ
from_word u = if ltb u half_range then pos u else negsuc (2 ^ 64 - 1 - u)

unfoldable pub wrap64 : ℤ → ℤ
wrap64 (pos n) = from_word (n % 2 ^ 64)
wrap64 (negsuc n) = from_word (2 ^ 64 - 1 - n % 2 ^ 64)

abbrev pub IsInt : ℤ → Type 0
IsInt (pos n) = n < half_range
IsInt (negsuc n) = n < half_range

pub wrap64_id : (a : ℤ) → IsInt a → wrap64 a ≡ a
unfolding wrap64
wrap64_id (pos n) h = ground arith
wrap64_id (negsuc n) h = ground arith

-- `a + b` and `a - b` on `int`.
unfoldable pub add64 : ℤ → ℤ → ℤ
unfolding wrap64 ◌+ℤ◌
add64 a b = wrap64 (a +ℤ b)

unfoldable pub sub64 : ℤ → ℤ → ℤ
unfolding wrap64 ◌-ℤ◌
sub64 a b = wrap64 (a -ℤ b)

-- `2 * a`, as `a * 2` is computed on `int`.
unfoldable pub double64 : ℤ → ℤ
unfolding wrap64 ◌+ℤ◌
double64 a = wrap64 (a +ℤ a)

pub +ℤ-pos : (a b : ℕ) → pos a +ℤ pos b ≡ pos (a + b)
unfolding ◌+ℤ◌
+ℤ-pos a b = ground arith

-ℤ-pos : (a b : ℕ) → pos a -ℤ pos b ≡ sub_ℕ a b
unfolding ◌-ℤ◌
-ℤ-pos a b = ground arith

sub_ℕ-IsInt : (a b : ℕ) → a < half_range → b < half_range → wrap64 (sub_ℕ a b) ≡ sub_ℕ a b
sub_ℕ-IsInt a b p q = elim (Bool-cases (leb b a)) [
  | inl le ↦ rw le (wrap64_id (pos (a - b)) (omega arith))
  | inr gt ↦ rw gt (wrap64_id (negsuc (b - a - 1)) (omega arith))
]

pub add64-pos : (a b : ℕ) → a + b < half_range → add64 (pos a) (pos b) ≡ pos (a + b)
unfolding add64
add64-pos a b h = ap wrap64 (+ℤ-pos a b) ∙ wrap64_id (pos (a + b)) h

pub double64-pos : (a : ℕ) → a + a < half_range → double64 (pos a) ≡ pos (a + a)
unfolding double64
double64-pos a h = ap wrap64 (+ℤ-pos a a) ∙ wrap64_id (pos (a + a)) h

pub sub64-pos : (a b : ℕ) → a < half_range → b < half_range → sub64 (pos a) (pos b) ≡ sub_ℕ a b
unfolding sub64
sub64-pos a b p q = ap wrap64 (-ℤ-pos a b) ∙ sub_ℕ-IsInt a b p q

pub max_ℤ-sub_ℕ : (a b : ℕ) → max_ℤ (sub_ℕ a b) (pos 0) ≡ pos (a - b)
max_ℤ-sub_ℕ a b = ground arith

pub min_ℤ-pos : (a b : ℕ) → min_ℤ (pos a) (pos b) ≡ pos (min a b)
min_ℤ-pos a b = ground arith

abbrev pub eqb_ℤ : ℤ → ℤ → Bool
eqb_ℤ a b = pos_part a + neg_part b == pos_part b + neg_part a

pub eqb_ℤ_iff : (a b : ℤ) → (eqb_ℤ a b ≡ true) ↔ (a ≡ b)
eqb_ℤ_iff a b = ground arith

pub ℤ-cases : (a : ℤ) → ((n : ℕ) × (a ≡ pos n)) ⊎ ((n : ℕ) × (a ≡ negsuc n))
ℤ-cases (pos n) = inl (n, refl)
ℤ-cases (negsuc n) = inr (n, refl)

+ℤ-pred : (a : ℕ) → pos a +ℤ negsuc 0 ≡ sub_ℕ a 1
unfolding ◌+ℤ◌
+ℤ-pred a = ground arith

sub_ℕ-+ℤ : (a b n : ℕ) → b ≤ a + n → sub_ℕ a b +ℤ pos n ≡ pos (a + n - b)
unfolding ◌+ℤ◌
sub_ℕ-+ℤ a b n h = ground arith

pub add64-pred : (a : ℕ) → a < half_range → add64 (pos a) (negsuc 0) ≡ sub_ℕ a 1
unfolding add64
add64-pred a h = ap wrap64 (+ℤ-pred a) ∙ sub_ℕ-IsInt a 1 h (omega arith)

pub sub_ℕ-add64 :
    (a b n : ℕ) → b ≤ a + n → a + n < half_range → add64 (sub_ℕ a b) (pos n) ≡ pos (a + n - b)
unfolding add64
sub_ℕ-add64 a b n h small = ap wrap64 (sub_ℕ-+ℤ a b n h) ∙ wrap64_id (pos (a + n - b)) (omega arith)

pub sub_pos : (a b : ℕ) → b ≤ a → sub_ℕ a b ≡ pos (a - b)
sub_pos a b le = ground arith
