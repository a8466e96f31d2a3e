-- ===== src/Prelude/Slice.antt =====
-- What running a piece of Go code gives: a value, a run-time panic, or, in the model only, no more
-- fuel. Slices are lists, read and written with the bounds check of the language.
use Prim.Native.Nat.{ℕ, zero, suc, ◌<◌}
use mathlib.Core.Path.{◌≡◌, refl}
use mathlib.Core.Option.{Option, none, some}
use mathlib.Core.List.{List, [], ◌∷◌}
use native.Mathlib.Omega.{arith}
use mathlib.Core.Bool.{Bool, true, false}
use mathlib.Core.Logic.{◌⊎◌, inl, inr}
use niceyaml.Prelude.Lists.{length, get_elem?, set}
use niceyaml.Prelude.Tests.{ltb, if◌then◌else◌}

pub data Outcome {ℓ} (A : Type ℓ) : Type ℓ where
  ok : A → Outcome A
  panic : Outcome A
  out_of_fuel : Outcome A

infixl 5 ◌>>=◌
abbrev pub ◌>>=◌ {ℓ κ} : {A : Type ℓ} {B : Type κ} → Outcome A → (A → Outcome B) → Outcome B
ok a >>= f = f a
panic >>= f = panic
out_of_fuel >>= f = out_of_fuel

module _ {ℓ} {A : Type ℓ} where
  abbrev pub of_option : Option A → Outcome A
  of_option none = panic
  of_option (some a) = ok a

  -- `xs[i]`.
  abbrev pub at : List A → ℕ → Outcome A
  at xs i = of_option (get_elem? xs i)

  -- `xs[i] = v`.
  abbrev pub put : List A → ℕ → A → Outcome (List A)
  put xs i v = if ltb i (length xs) then ok (set xs i v) else panic

  pub get_elem?_total : (xs : List A) (i : ℕ) → i < length xs → (a : A) × (get_elem? xs i ≡ some a)
  get_elem?_total [] i h = elim h [ ]
  get_elem?_total (x ∷ xs) zero h = (x, refl)
  get_elem?_total (x ∷ xs) (suc i) h = get_elem?_total xs i (omega arith)

pub ok_injective {ℓ} : {A : Type ℓ} {x y : A} → ok x ≡ ok y → x ≡ y
ok_injective h = cc

-- A step that ran gave a value to the next.
pub bind_ok {ℓ κ} :
    {A : Type ℓ} {B : Type κ} (o : Outcome A) (f : A → Outcome B) {b : B}
    → (o >>= f) ≡ ok b
    → (a : A) × (o ≡ ok a) × (f a ≡ ok b)
bind_ok (ok a) f h = (a, refl, h)
bind_ok panic f h = cc
bind_ok out_of_fuel f h = cc

-- A test chose one of its branches.
pub if_cases {ℓ} :
    {A : Type ℓ} (b : Bool) {x y z : A} → (if b then x else y) ≡ z → (x ≡ z) ⊎ (y ≡ z)
if_cases true h = inl h
if_cases false h = inr h

-- A run behind a test.
pub if_then {ℓ κ} :
    {A : Type ℓ} {P : Type κ} (b : Bool) {x y z : A}
    → (x ≡ z → P)
    → (y ≡ z → P)
    → (if b then x else y) ≡ z
    → P
if_then true f g h = f h
if_then false f g h = g h

-- The same with what the test gave.
pub if_known {ℓ κ} :
    {A : Type ℓ} {P : Type κ} (t : Bool) {x y z : A}
    → (t ≡ true → x ≡ z → P)
    → (t ≡ false → y ≡ z → P)
    → (if t then x else y) ≡ z
    → P
if_known true f g h = f refl h
if_known false f g h = g refl h
