-- ===== src/Revision/Walks.antt =====
-- The walks along a chain of revisions.
use niceyaml.Prelude.{
  ℕ, zero, suc, ◌+◌, ◌-◌, ◌≤◌, ◌<◌, ◌≡◌, refl, ap, ◌∙◌, List, map, some, ok, length, get_elem?,
  get_elem?_total, get_elem?_bound, get_elem?-none, Option-cases, Bool-cases, ◌==◌, if◌then◌else◌,
  inl, inr, drop-get_elem?, drop_end, arith, min, drop,
}
use niceyaml.Prelude.Int.{ℤ, pos, negsuc, half_range}
use niceyaml.Text.{Text}
use niceyaml.Revision.{
  Revision, steps, seek, walk, tip, origin, at_index, collect_names, names, index, chain_len,
}
use niceyaml.Revision.History.{IsHistory, address_at}

module _ {S : Type 0} (heap : List (Revision S)) (es : List (ℕ × S)) (h : IsHistory heap es) where
  -- Forward from the entry `i`: the walk ends at the last entry.
  walk-next :
      (fuel count i a : ℕ) (s : S)
      → get_elem? es i ≡ some (a, s)
      → length es ≤ i + fuel
      → (b : ℕ) × (t : S) × (get_elem? es (length es - 1) ≡ some (b, t))
        × (walk Revision.next heap fuel count a ≡ ok (b, count + (length es - 1 - i)))
  unfolding walk
  walk-next zero count i a s e bound = absurd (omega (arith, get_elem?_bound es i e))
  walk-next (suc fuel) count i a s e bound = elim (Option-cases (get_elem? es (suc i))) [
    | inl over ↦
        let top : length es - 1 ≡ i =
          omega (arith, get_elem?_bound es i e, get_elem?-none es (suc i) over) in
        (a, s, rw top e, rw (walk, h.node_at i a s e, over) (ap (λ n. ok (a, n)) (omega arith)))
    | inr (r, above) ↦
        let (b, t, f, run) = walk-next fuel (count + 1) (suc i) r.0 r.1 above (omega arith) in
        let more : count + 1 + (length es - 1 - suc i) ≡ count + (length es - 1 - i) =
          omega (arith, get_elem?_bound es (suc i) above) in
        (b, t, f, rw (walk, h.node_at i a s e, above) (run ∙ ap (λ n. ok (b, n)) more))
  ]

  walk-prev :
      (fuel count i a : ℕ) (s : S)
      → get_elem? es i ≡ some (a, s)
      → i < fuel
      → (b : ℕ) × (t : S) × (get_elem? es 0 ≡ some (b, t))
        × (walk Revision.prev heap fuel count a ≡ ok (b, count + i))
  unfolding walk
  walk-prev zero count i a s e bound = absurd (omega arith)
  walk-prev (suc fuel) count zero a s e bound =
      (a, s, e, rw (walk, h.node_at 0 a s e) (ap (λ n. ok (a, n)) (omega arith)))
  walk-prev (suc fuel) count (suc i) a s e bound =
      let (r, below) = get_elem?_total es i (omega (arith, get_elem?_bound es (suc i) e)) in
      let (b, t, f, run) = walk-prev fuel (count + 1) i r.0 r.1 below (omega arith) in
      (b, t, f, rw (walk, h.node_at (suc i) a s e, below) (run ∙ ap (λ n. ok (b, n)) (omega arith)))

  -- The loop of `Names` from the entry `i`.
  collect_names-drop :
      (name : S → Text) (fuel i a : ℕ) (s : S)
      → get_elem? es i ≡ some (a, s)
      → length es ≤ i + fuel
      → collect_names name heap fuel a ≡ ok (map (λ r. name r.1) (drop i es))
  unfolding collect_names
  collect_names-drop name zero i a s e bound = absurd (omega (arith, get_elem?_bound es i e))
  collect_names-drop name (suc fuel) i a s e bound = elim (Option-cases (get_elem? es (suc i))) [
    | inl over ↦
        rw (drop-get_elem? es i e, drop_end es (suc i) (get_elem?-none es (suc i) over))
          (rw (collect_names, h.node_at i a s e, over) refl)
    | inr (r, above) ↦
        let run = collect_names-drop name fuel (suc i) r.0 r.1 above (omega arith) in
        rw (drop-get_elem? es i e) (rw (collect_names, h.node_at i a s e, above) (rw run refl))
  ]

  steps-next :
      (n i a : ℕ) (s : S)
      → get_elem? es i ≡ some (a, s)
      → (b : ℕ) × (t : S) × (get_elem? es (min (i + n) (length es - 1)) ≡ some (b, t))
        × (steps Revision.next heap n a ≡ ok b)
  unfolding steps
  steps-next zero i a s e =
      let here : min (i + 0) (length es - 1) ≡ i = omega (arith, get_elem?_bound es i e) in
      (a, s, rw here e, refl)
  steps-next (suc n) i a s e = elim (Option-cases (get_elem? es (suc i))) [
    | inl over ↦
        let top : min (i + suc n) (length es - 1) ≡ i =
          omega (arith, get_elem?_bound es i e, get_elem?-none es (suc i) over) in
        (a, s, rw top e, rw (steps, h.node_at i a s e, over) refl)
    | inr (r, above) ↦
        let (b, t, f, run) = steps-next n (suc i) r.0 r.1 above in
        let same : i + suc n ≡ suc i + n = omega arith in
        (b, t, rw same f, rw (steps, h.node_at i a s e, above) run)
  ]

  steps-prev :
      (n i a : ℕ) (s : S)
      → get_elem? es i ≡ some (a, s)
      → (b : ℕ) × (t : S) × (get_elem? es (i - n) ≡ some (b, t))
        × (steps Revision.prev heap n a ≡ ok b)
  unfolding steps
  steps-prev zero i a s e = let here : i - 0 ≡ i = omega arith in (a, s, rw here e, refl)
  steps-prev (suc n) zero a s e =
      let here : 0 - suc n ≡ 0 = omega arith in
      (a, s, rw here e, rw (steps, h.node_at 0 a s e) refl)
  steps-prev (suc n) (suc i) a s e =
      let (r, below) = get_elem?_total es i (omega (arith, get_elem?_bound es (suc i) e)) in
      let (b, t, f, run) = steps-prev n i r.0 r.1 below in
      let same : suc i - suc n ≡ i - n = omega arith in
      (b, t, rw same f, rw (steps, h.node_at (suc i) a s e, below) run)

  origin-walk :
      (a c i : ℕ) → walk Revision.prev heap (length heap) 0 a ≡ ok (c, 0 + i) → origin heap a ≡ ok c
  unfolding origin
  origin-walk a c i run = rw run refl

  -- From any revision of a chain the walks end: Names gives the names of all revisions from the
  -- origin to the tip, Index the place of the revision, and Len the number of revisions.
  pub names-chain :
      (name : S → Text) (i a : ℕ) (s : S)
      → get_elem? es i ≡ some (a, s)
      → (names name heap a ≡ ok (map (λ r. name r.1) es))
        × (index heap a ≡ ok i)
        × (chain_len heap a ≡ ok (length es))
  unfolding names index chain_len origin
  names-chain name i a s e =
      let inside = get_elem?_bound es i e in
      let fits = h.fits in
      let (b, t, f, run) = walk-prev (length heap) 0 i a s e (omega arith) in
      let (b', t', f', run') = walk-next (length heap) i i a s e (omega arith) in
      let zero_left : 0 + i ≡ i = omega arith in
      let all : i + (length es - 1 - i) + 1 ≡ length es = omega arith in
      (
        rw run (collect_names-drop name (length heap) 0 b t f (omega arith)),
        rw run (ap ok zero_left),
        rw (run, zero_left, run') (ap ok all),
      )

  -- Tip returns the last revision of a chain and Origin the first, from any of its revisions.
  pub tip-chain :
      (i a : ℕ) (s : S)
      → get_elem? es i ≡ some (a, s)
      → (b c : ℕ) × (tip heap a ≡ ok b)
        × (address_at es (length es - 1) ≡ some b)
        × (origin heap a ≡ ok c)
        × (address_at es 0 ≡ some c)
  unfolding tip origin
  tip-chain i a s e =
      let inside = get_elem?_bound es i e in
      let fits = h.fits in
      let (b, t, f, run) = walk-next (length heap) 0 i a s e (omega arith) in
      let (c, u, g, run') = walk-prev (length heap) 0 i a s e (omega arith) in
      (b, c, rw run refl, rw f refl, rw run' refl, rw g refl)

  -- The index that `Seek` moves to: it stops at both ends, and the negation of the least `int` is not
  -- positive.
  abbrev pub sought : ℕ → ℤ → ℕ
  sought i (pos n) = min (i + n) (length es - 1)
  sought i (negsuc n) = if suc n == half_range then i else i - suc n

  -- Seek from a revision of a chain returns and moves by as many revisions as it is told, or to the
  -- end of the chain where there are fewer; told to move by the least int it stays.
  pub seek-chain :
      (i a : ℕ) (s : S) (n : ℤ)
      → get_elem? es i ≡ some (a, s)
      → (b : ℕ) × (seek heap a n ≡ ok b) × (address_at es (sought i n) ≡ some b)
  unfolding seek
  seek-chain i a s (pos n) e = let (b, t, f, run) = steps-next n i a s e in (b, run, rw f refl)
  seek-chain i a s (negsuc n) e = elim (Bool-cases (suc n == half_range)) [
    | inl least ↦ (a, rw (seek, least) refl, rw least (rw e refl))
    | inr other ↦
        let (b, t, f, run) = steps-prev (suc n) i a s e in
        (b, rw (seek, other) run, rw other (rw f refl))
  ]

  -- At returns the revision of a chain at an index that is not negative, or the last one where the
  -- index exceeds the chain.
  pub at_index-chain :
      (i a : ℕ) (s : S) (k : ℕ)
      → get_elem? es i ≡ some (a, s)
      → (b : ℕ) × (at_index heap a (pos k) ≡ ok b)
        × (address_at es (min k (length es - 1)) ≡ some b)
  unfolding at_index
  at_index-chain i a s k e =
      let fits = h.fits in
      let (c, u, g, run) =
        walk-prev (length heap) 0 i a s e (omega (arith, get_elem?_bound es i e)) in
      let start : origin heap a ≡ ok c = origin-walk a c i run in
      let (b, found, same) = seek-chain 0 c u (pos k) g in
      let zero_left : 0 + k ≡ k = omega arith in (b, rw start found, rw zero_left at same)
