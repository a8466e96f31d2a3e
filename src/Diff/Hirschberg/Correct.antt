-- ===== src/Diff/Hirschberg/Correct.antt =====
-- What `Diff` promises its callers.
use native.Mathlib.Nat.{le_refl}
use niceyaml.Prelude.{
  ok_injective, ℕ, ◌+◌, ◌≤◌, ◌≡◌, sym, ◌∙◌, List, [], arith, length, length-replicate, ok, Eq, ltb,
  Bool-cases, inl, inr, ap, min, false, subst,
}
use niceyaml.Diff.{Op}
use niceyaml.Diff.Script.{Applies, done, equal, delete, insert, equals}
use niceyaml.Diff.Hirschberg.{Hirschberg, allocate, init, recurse, diff}
use niceyaml.Diff.Hirschberg.Passes.{Sized}
use niceyaml.Diff.Hirschberg.Recursion.{Edited, recurse-Edited}

-- The buffers have one length, whatever it is: so `NewHirschberg` makes them and every call leaves them.
abbrev pub IsSized : Hirschberg → Type 0
IsSized h = (size : ℕ) × Sized h size

allocate-Sized :
    (h : Hirschberg) (needed : ℕ)
    → IsSized h
    → (size : ℕ) × (needed ≤ size) × Sized (allocate h needed) size
unfolding allocate
allocate-Sized h needed (size, s) = elim (Bool-cases (ltb (length h.row0) needed)) [
  | inl less ↦ rw less (
    needed,
    le_refl needed,
    record {
      row0_size = length-replicate needed 0;
      row1_size = length-replicate needed 0;
      fwd_size = length-replicate needed 0;
      bwd_size = length-replicate needed 0;
    },
  )
  | inr enough ↦ rw enough (size, room (length h.row0) enough s.row0_size, s)
]
  where
    room : (n : ℕ) → ltb n needed ≡ false → n ≡ size → needed ≤ size
    room n p q = ground arith

allocate-ops : (h : Hirschberg) (needed : ℕ) → (allocate h needed).ops ≡ h.ops
unfolding allocate
allocate-ops h needed = ground arith

-- `Init` keeps the buffers of one length.
pub init-IsSized : (h : Hirschberg) (m n : ℕ) → IsSized h → IsSized (init h m n)
unfolding init
init-IsSized h m n s = let (size, _, s') = allocate-Sized h (min m n + 1) s in (size, s')

-- A script has an operation for each line, and one for two lines that it keeps.
pub length-equals {ℓ} :
    {A : Type ℓ} {before after : List A} {i_end j_end i j : ℕ} {ops : List Op}
    → Applies before after i_end j_end ops i j
    → length ops + equals ops + i + j ≡ i_end + j_end
length-equals done = omega arith
length-equals (equal p q d) = omega (arith, length-equals d)
length-equals (delete h d) = omega (arith, length-equals d)
length-equals (insert h d) = omega (arith, length-equals d)

module _ {ℓ} {A : Type ℓ} ⦃e : Eq A⦄ (before after : List A) where
  -- The operations turn all of `before` into all of `after`.
  abbrev pub Transforms : List Op → Type ℓ
  Transforms ops = Applies before after (length before) (length after) ops 0 0

  diff-Edited :
      (h : Hirschberg)
      → IsSized h
      → (size : ℕ) × Edited before after
          (diff before after h)
          (record h { ops = [] })
          size
          0
          (length before)
          0
          (length after)
  unfolding diff
  diff-Edited h (size₀, s) =
      let h₀ : Hirschberg = record h { ops = [] } in
      let s₀ : Sized h₀ size₀ = record {
        row0_size = s.row0_size;
        row1_size = s.row1_size;
        fwd_size = s.fwd_size;
        bwd_size = s.bwd_size;
      } in
      let (size, room, s₁) = allocate-Sized h₀ (length after + 1) (size₀, s₀) in
      let r : Edited before after
          (recurse before after (length before + 1) 0 (length before) 0 (length after)
            (allocate h₀ (length after + 1)))
          (allocate h₀ (length after + 1)) size 0 (length before) 0 (length after) =
        recurse-Edited before after size (length before + 1) 0 (length before) 0 (length after)
          (allocate h₀ (length after + 1)) (omega arith) (omega arith) s₁ (omega arith) (le_refl _)
          (omega arith) (le_refl _) in
      (
        size,
        record {
          state = r.state;
          runs = r.runs;
          sized = r.sized;
          script = r.script;
          appended = rw (r.appended, allocate-ops h₀ (length after + 1));
          applies = r.applies;
          longest = r.longest;
        },
      )

  -- From any state whose buffers have one length, Diff returns: no index is out of range and the
  -- recursion ends. Its operations transform before into after, each line of both consumed once and
  -- in order, and the buffers have one length again.
  pub diff-Transforms :
      (h : Hirschberg)
      → IsSized h
      → (h' : Hirschberg) × (diff before after h ≡ ok h') × Transforms h'.ops × IsSized h'
  diff-Transforms h s =
      let (size, r) = diff-Edited h s in
      (r.state, r.runs, subst Transforms (sym r.appended) r.applies, (size, r.sized))

  -- The operations that Diff returns are a shortest script from before to after: from any state with
  -- buffers of one length, no other list of operations that transforms before into after is shorter,
  -- and none keeps more lines.
  pub diff-shortest :
      (h h' : Hirschberg) (ops : List Op)
      → IsSized h
      → diff before after h ≡ ok h'
      → Transforms ops
      → (length h'.ops ≤ length ops) × (equals ops ≤ equals h'.ops)
  diff-shortest h h' ops s run d =
      let (size, r) = diff-Edited h s in
      let same : h'.ops ≡ r.script =
        ap Hirschberg.ops (ok_injective (sym run ∙ r.runs)) ∙ r.appended in
      rw same
        (omega (arith, length-equals d, length-equals r.applies, r.longest ops d), r.longest ops d)
