-- ===== src/Finder/Search.antt =====
-- The search: `Find` ends for a search string that is not empty, and not for an empty one.
use niceyaml.Prelude.{
  ℕ, zero, suc, ◌+◌, ◌≤◌, ◌<◌, ◌≡◌, refl, ap, ◌∙◌, ◌⊎◌, inl, inr, true, false, ◌||◌, List, [], ◌∷◌,
  none, some, some_injective, ok, out_of_fuel, ◌>>=◌, length, length-drop, get_elem?_total, drop,
  ltb, Bool-cases, Option-cases, arith,
}
use niceyaml.Prelude.Int.{pos, add64, sub64}
use niceyaml.Text.{Text, text_beq, rune_count}
use niceyaml.Position.{Range, new_position, new_range}
use niceyaml.Finder.{
  Finder, byte_to_rune_index, rune_table, has_prefix, index_from, match_range, find_loop, find,
  normalize,
}
use niceyaml.Finder.Index.{IsIndexed, lookup-limit}

length-rune_table : (skip n : ℕ) (s : Text) → length (rune_table skip n s) ≡ suc (length s)
unfolding rune_table
length-rune_table skip n [] = refl
length-rune_table zero n (b ∷ s) = ap suc (length-rune_table _ (n + 1) s)
length-rune_table (suc skip) n (b ∷ s) = ap suc (length-rune_table skip n s)

has_prefix_bound : (p s : Text) → has_prefix p s ≡ true → length p ≤ length s
has_prefix_bound [] s h = omega arith
has_prefix_bound (c ∷ p) [] h = cc
has_prefix_bound (c ∷ p) (d ∷ s) h = omega (arith, has_prefix_bound p s (ground arith))

-- A match lies within the string.
index_from_bound :
    (i : ℕ) (sub s : Text) (k : ℕ) → index_from i sub s ≡ some k → k + length sub ≤ i + length s
unfolding index_from
index_from_bound i sub [] k h = elim (Bool-cases (has_prefix sub [])) [
  | inl hit ↦
      let here : i ≡ k = some_injective (rw (index_from, hit) at h) in
      omega (arith, has_prefix_bound sub [] hit)
  | inr miss ↦ absurd (let bad = rw (index_from, miss) at h in cc)
]
index_from_bound i sub (c ∷ s) k h = elim (Bool-cases (has_prefix sub (c ∷ s))) [
  | inl hit ↦
      let here : i ≡ k = some_injective (rw (index_from, hit) at h) in
      omega (arith, has_prefix_bound sub (c ∷ s) hit)
  | inr miss ↦ omega (arith, index_from_bound (i + 1) sub s k (rw (index_from, miss) at h))
]

-- An empty string is found at once.
index_from-empty : (i : ℕ) (s : Text) → index_from i [] s ≡ some i
unfolding index_from
index_from-empty i [] = refl
index_from-empty i (c ∷ s) = refl

module _ (f : Finder) (w : IsIndexed f) (some_source : 0 < length f.source) where
  some_index : 0 < length f.pos_map.indices
  some_index = elim w.held [ inl e ↦ absurd (omega arith) | inr p ↦ p ]

  table_length : length f.byte_to_rune ≡ suc (length f.source)
  unfolding byte_to_rune_index
  table_length = ap length w.table ∙ sized f.source some_source
    where
      sized : (s : Text) → 0 < length s → length (byte_to_rune_index s) ≡ suc (length s)
      sized [] h = absurd (omega arith)
      sized (b ∷ s) h = length-rune_table 0 0 (b ∷ s)

  -- A match within the source has a range.
  pub match_range-total : (n m : ℕ) → m ≤ length f.source → (r : Range) × (match_range f n m ≡ ok r)
  unfolding match_range
  match_range-total n m h =
      let (k, e) = get_elem?_total f.byte_to_rune m (omega (arith, table_length)) in
      let (p, e₁, _) = lookup-limit f.pos_map (pos k) w.map some_index in
      let (q, e₂, _) =
        lookup-limit f.pos_map (sub64 (add64 (pos k) (pos n)) (pos 1)) w.map some_index in
      (
        new_range p (new_position q.line (add64 q.col (pos 1))),
        rw (match_range, e) (rw (e₁, e₂) refl),
      )

  pub find_loop-none :
      (fuel offset : ℕ) (sub : Text)
      → offset ≤ length f.source
      → index_from 0 sub (drop offset f.source) ≡ none
      → find_loop (suc fuel) f sub offset ≡ ok []
  unfolding find_loop
  find_loop-none fuel offset sub h e =
      let inside : ltb (length f.source) offset ≡ false = ground arith in
      rw (find_loop, inside, e) refl

  pub find_loop-some :
      (fuel offset idx : ℕ) (sub : Text) (r : Range)
      → offset ≤ length f.source
      → index_from 0 sub (drop offset f.source) ≡ some idx
      → match_range f (rune_count sub) (offset + idx) ≡ ok r
      → find_loop (suc fuel) f sub offset
        ≡ (find_loop fuel f sub (offset + idx + length sub) >>= (λ rest. ok (r ∷ rest)))
  unfolding find_loop
  find_loop-some fuel offset idx sub r h e run =
      let inside : ltb (length f.source) offset ≡ false = ground arith in
      rw (find_loop, inside, e) (rw run refl)

  pub match_inside :
      (offset idx : ℕ) (sub : Text)
      → offset ≤ length f.source
      → index_from 0 sub (drop offset f.source) ≡ some idx
      → offset + idx + length sub ≤ length f.source
  match_inside offset idx sub h e =
      omega
        (arith, index_from_bound 0 sub (drop offset f.source) idx e, length-drop offset f.source)

  -- The loop returns, for a search string that is not empty.
  find_loop-total :
      (fuel offset : ℕ) (sub : Text)
      → 0 < length sub
      → offset ≤ length f.source
      → length f.source < offset + fuel
      → (rs : List Range) × (find_loop fuel f sub offset ≡ ok rs)
  find_loop-total zero offset sub p h q = absurd (omega arith)
  find_loop-total (suc fuel) offset sub p h q =
      elim (Option-cases (index_from 0 sub (drop offset f.source))) [
        | inl e ↦ ([], find_loop-none fuel offset sub h e)
        | inr (idx, e) ↦
            let bound = match_inside offset idx sub h e in
            let (r, run) = match_range-total (rune_count sub) (offset + idx) (omega arith) in
            let (rs, rest) =
              find_loop-total fuel (offset + idx + length sub) sub p bound (omega arith) in
            (
              r ∷ rs,
              find_loop-some fuel offset idx sub r h e run ∙ ap (λ o. o >>= (λ t. ok (r ∷ t))) rest,
            )
      ]

  -- For an empty search string every round finds the place where it stands.
  find_loop-stuck :
      (fuel offset : ℕ) → offset ≤ length f.source → find_loop fuel f [] offset ≡ out_of_fuel
  unfolding find_loop
  find_loop-stuck zero offset h = refl
  find_loop-stuck (suc fuel) offset h =
      let (r, run) = match_range-total (rune_count []) (offset + 0) (omega arith) in
      let same : offset + 0 + 0 ≡ offset = omega arith in
      let later : find_loop fuel f [] (offset + 0 + 0) ≡ out_of_fuel =
        rw same (find_loop-stuck fuel offset h) in
      find_loop-some fuel offset 0 [] r h (index_from-empty 0 (drop offset f.source)) run
      ∙ ap (λ o. o >>= (λ t. ok (r ∷ t))) later

pub source_length : (s t : Text) → (text_beq t [] || text_beq s []) ≡ false → 0 < length s
source_length [] [] e = cc
source_length [] (c ∷ t) e = cc
source_length (b ∷ s) t e = omega arith

pub search_length :
    (t s n : Text)
    → (text_beq t [] || text_beq s []) ≡ false
    → (0 < length n) ⊎ (t ≡ [])
    → 0 < length n
search_length t s n e (inl p) = p
search_length t s n e (inr q) = absurd (let bad = rw q at e in cc)

-- Find returns from every indexed finder, unless the normalizer leaves nothing of a search string
-- that is not empty.
pub find-total :
    (f : Finder) (search : Text)
    → IsIndexed f
    → (0 < length (normalize f.normalizer search)) ⊎ (search ≡ [])
    → (rs : List Range) × (find f search ≡ ok rs)
unfolding find
find-total f search w h = elim (Bool-cases (text_beq search [] || text_beq f.source [])) [
  | inl blank ↦ ([], rw (find, blank) refl)
  | inr real ↦
      let (rs, run) =
        find_loop-total f w (source_length f.source search real) (length f.source + 1) 0
          (normalize f.normalizer search)
          (search_length search f.source (normalize f.normalizer search) real h) (omega arith)
          (omega arith) in
      (rs, rw (find, real) run)
]

-- The loop of Find never ends where the normalizer leaves nothing of the search string: from an
-- indexed finder whose source is not empty, no number of rounds is enough.
pub find_loop-endless :
    (f : Finder) (search : Text) (fuel : ℕ)
    → IsIndexed f
    → 0 < length f.source
    → normalize f.normalizer search ≡ []
    → find_loop fuel f (normalize f.normalizer search) 0 ≡ out_of_fuel
find_loop-endless f search fuel w p e = rw e (find_loop-stuck f w p fuel 0 (omega arith))
