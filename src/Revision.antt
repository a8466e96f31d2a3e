-- ===== src/Revision.antt =====
-- revision.go: revisions of a source, linked both ways. A pointer is an address in a heap, which is
-- the list of all revisions made so far; the source type and its `Name` are parameters.
pub mod History
pub mod Walks
pub mod Growth
pub mod Front
use niceyaml.Prelude.{
  ℕ, zero, suc, ◌+◌, List, [], ◌∷◌, ◌++◌, Option, none, some, Outcome, ok, out_of_fuel, ◌>>=◌, at,
  put, length, ◌==◌, if◌then◌else◌,
}
use niceyaml.Prelude.Int.{ℤ, pos, negsuc, half_range}
use niceyaml.Text.{Text}

-- The struct `Revision`.
pub record Revision (S : Type 0) : Type 0 where
  pub prev : Option ℕ
  pub next : Option ℕ
  pub head : S

module _ {S : Type 0} where
  -- `NewRevision`.
  unfoldable pub new_revision : List (Revision S) → S → List (Revision S) × ℕ
  new_revision heap s = (heap ++ record { prev = none; next = none; head = s } ∷ [], length heap)

  -- The two loops of `Seek`, which `Next` and `Prev` stand for by the field that they follow.
  unfoldable pub steps : (Revision S → Option ℕ) → List (Revision S) → ℕ → ℕ → Outcome ℕ
  steps link heap zero curr = ok curr
  steps link heap (suc n) curr = do
    node ← at heap curr
    elim (link node) [ none ↦ ok curr | some a ↦ steps link heap n a ]

  -- `Revision.Seek`. The negation of the least `int` is itself, over which `range` has no rounds.
  unfoldable pub seek : List (Revision S) → ℕ → ℤ → Outcome ℕ
  unfolding steps
  seek heap t (pos n) = steps Revision.next heap n t
  seek heap t (negsuc n) = if suc n == half_range then ok t else steps Revision.prev heap (suc n) t

  -- The loop of `Tip` and `Origin`, along a field, with the number of rounds that it made.
  unfoldable pub walk : (Revision S → Option ℕ) → List (Revision S) → ℕ → ℕ → ℕ → Outcome (ℕ × ℕ)
  walk link heap zero count curr = out_of_fuel
  walk link heap (suc fuel) count curr = do
    node ← at heap curr
    elim (link node) [ none ↦ ok (curr, count) | some a ↦ walk link heap fuel (count + 1) a ]

  -- `Revision.Tip`. A chain has at most as many revisions as the heap, which is fuel enough.
  unfoldable pub tip : List (Revision S) → ℕ → Outcome ℕ
  unfolding walk
  tip heap t = do (a, _) ← walk Revision.next heap (length heap) 0 t; ok a

  -- `Revision.Origin`.
  unfoldable pub origin : List (Revision S) → ℕ → Outcome ℕ
  unfolding walk
  origin heap t = do (a, _) ← walk Revision.prev heap (length heap) 0 t; ok a

  -- `Revision.At`.
  unfoldable pub at_index : List (Revision S) → ℕ → ℤ → Outcome ℕ
  unfolding origin seek
  at_index heap t index = do a ← origin heap t; seek heap a index

  -- The second loop of `Names`.
  unfoldable pub collect_names : (S → Text) → List (Revision S) → ℕ → ℕ → Outcome (List Text)
  collect_names name heap zero curr = out_of_fuel
  collect_names name heap (suc fuel) curr = do
    node ← at heap curr
    elim node.next [
      | none ↦ ok (name node.head ∷ [])
      | some a ↦ do rest ← collect_names name heap fuel a; ok (name node.head ∷ rest)
    ]

  -- `Revision.Names`.
  unfoldable pub names : (S → Text) → List (Revision S) → ℕ → Outcome (List Text)
  unfolding origin collect_names
  names name heap t = do a ← origin heap t; collect_names name heap (length heap) a

  -- `Revision.Index`.
  unfoldable pub index : List (Revision S) → ℕ → Outcome ℕ
  unfolding walk
  index heap t = do (_, count) ← walk Revision.prev heap (length heap) 0 t; ok count

  -- `Revision.Len`.
  unfoldable pub chain_len : List (Revision S) → ℕ → Outcome ℕ
  unfolding walk index
  chain_len heap t = do
    before ← index heap t
    (_, count) ← walk Revision.next heap (length heap) before t
    ok (count + 1)

  -- `Revision.Append`: the new heap and the new revision.
  unfoldable pub append : List (Revision S) → ℕ → S → Outcome (List (Revision S) × ℕ)
  append heap t s = do
    let heap' = heap ++ record { prev = some t; next = none; head = s } ∷ []
    node ← at heap' t
    linked ← put heap' t (record node { next = some (length heap) })
    ok (linked, length heap)

  -- `Revision.Prepend`.
  unfoldable pub prepend : List (Revision S) → ℕ → S → Outcome (List (Revision S) × ℕ)
  prepend heap t s = do
    let heap' = heap ++ record { prev = none; next = some t; head = s } ∷ []
    node ← at heap' t
    linked ← put heap' t (record node { prev = some (length heap) })
    ok (linked, length heap)
