-- ===== src/Viewport/Commands/Invariant.antt =====
-- What holds of a viewport after any run of commands.
use niceyaml.Prelude.{
  ℕ, zero, suc, ◌+◌, ◌<◌, ◌≡◌, refl, sym, ap, subst, Bool, true, false, List, [], map, Option, some,
  ok, ◌>>=◌, of_option, length, arith, Bool-cases, inl, inr, bind_ok, ok_injective, length-map, ◌^◌,
}
use niceyaml.Prelude.Int.{ℤ, pos, negsuc, ltb_ℤ, ◌≤ℤ◌, half_range}
use niceyaml.Text.{Text, text_beq, text_beq_iff}
use niceyaml.Position.{Range}
use niceyaml.Source.{Source, clear_source_overlays}
use niceyaml.Viewport.{Env, Model, SearchMatch}
use niceyaml.Viewport.Render.{
  update_search_state, search_in, apply_search_overlays, store_left, without_matches,
}
use niceyaml.Viewport.Render.Overlaid.{adjust_index, stored, overlay_matches, search_match}

-- The index is that of a match, or -1 where there are none.
abbrev pub IsIndex : ℕ → ℤ → Type 0
IsIndex zero z = z ≡ negsuc 0
IsIndex (suc n) z = (i : ℕ) × (z ≡ pos i) × (i < suc n)

-- The search and the offsets agree: the selected match is one of the matches, without a search term
-- there are none, and no offset is negative.
pub record IsConsistent (term : Text) (matches : List SearchMatch) (index y x : ℤ) (ready : Bool)
    : Type 0 where
  pub selected : IsIndex (length matches) index
  pub searched : term ≡ [] → matches ≡ []
  pub few : length matches + length matches < half_range
  pub above : pos 0 ≤ℤ y
  pub beside : pos 0 ≤ℤ x
  pub set_up : ready ≡ true

not_below : (i : ℕ) → ltb_ℤ (pos i) (pos 0) ≡ false
not_below i = ground arith

pub adjust_index-IsIndex : (n : ℕ) (z : ℤ) → IsIndex n (adjust_index n z)
unfolding adjust_index
adjust_index-IsIndex zero z = refl
adjust_index-IsIndex (suc n) (negsuc i) = (0, ground arith, omega arith)
adjust_index-IsIndex (suc n) (pos i) = elim (Bool-cases (ltb_ℤ (pos i) (pos (suc n)))) [
  | inl inside ↦ (i, rw inside (rw (not_below i) refl), ground arith)
  | inr over ↦ (0, rw over refl, omega arith)
]

pub real_term : (t : Text) → text_beq t [] ≡ false → t ≡ [] → ⊥
real_term t h e = let bad = (text_beq_iff t []).1 e in cc

-- What is relied on: a search finds fewer than 2 ^ 61 ranges, and sorting keeps the number of matches.
pub record IsBounded (E : Env) : Type 0 where
  pub few_ranges :
      (f : Env.Finder E) (term : Text) (rs : List Range)
      → E.find f term ≡ ok rs
      → length rs < 2 ^ 61
  pub length-sort : (ms : List SearchMatch) → length (E.sort ms) ≡ length ms

module _ {E : Env} where
  abbrev pub IsCoherent : Model E → Type 0
  IsCoherent m =
      IsConsistent m.search_term m.search_matches m.search_index m.y_offset m.x_offset m.initialized

  store_left-IsCoherent :
      (m : Model E) (s : Source) (m' : Model E)
      → IsCoherent m
      → store_left m s ≡ ok m'
      → IsCoherent m'
  unfolding store_left
  store_left-IsCoherent m s m' w h =
      let (heap, run, e) = bind_ok (stored m.heap m.left_owner s) _ h in
      subst IsCoherent (ok_injective e) w

  pub apply_search_overlays-IsCoherent :
      (m : Model E) (s : Source) (m' : Model E)
      → IsCoherent m
      → apply_search_overlays m s ≡ ok m'
      → IsCoherent m'
  unfolding apply_search_overlays
  apply_search_overlays-IsCoherent m s m' w h =
      let (s', run, h') =
        bind_ok (overlay_matches m.search_index 0 m.search_matches (clear_source_overlays s)) _ h in
      store_left-IsCoherent m s' m' w h'

module _ {E : Env} (b : IsBounded E) where
  -- Only the finder changes.
  pub search_in-result :
      (m : Model E) (s : Source) (r : Model E × List Range)
      → search_in m s ≡ ok r
      → (f : Option (Env.Finder E)) × (r.0 ≡ record m { finder = f }) × (length r.1 < 2 ^ 61)
  unfolding search_in
  search_in-result m s r h =
      let (f, run, h₁) = bind_ok (of_option m.finder) _ h in
      let (ranges, run', e) = bind_ok (E.find (E.load f s) m.search_term) _ h₁ in
      (
        some (E.load f s),
        sym (ap (λ v. v.0) (ok_injective e)),
        subst (λ rs. length {A = Range} rs < 2 ^ 61) (ap (λ v. v.1) (ok_injective e))
            (b.few_ranges (E.load f s) m.search_term ranges run'),
      )

  pub without_matches-IsCoherent :
      (m : Model E) → IsCoherent m → m.search_term ≡ [] → IsCoherent (without_matches m)
  without_matches-IsCoherent m w bare =
      let no_matches = w.searched bare in
      record {
        selected =
            subst (λ ms. IsIndex (length {A = SearchMatch} ms) m.search_index) no_matches
              w.selected;
        searched = λ _. refl;
        few = omega arith;
        above = w.above;
        beside = w.beside;
        set_up = w.set_up;
      }

  -- New matches, with the index adjusted to them.
  pub found-IsConsistent :
      (m : Model E) (ms : List SearchMatch)
      → IsCoherent m
      → (m.search_term ≡ [] → ⊥)
      → length ms + length ms < half_range
      → IsConsistent m.search_term ms
          (adjust_index (length ms) m.search_index)
          m.y_offset
          m.x_offset
          m.initialized
  found-IsConsistent m ms w real few = record {
    selected = adjust_index-IsIndex (length ms) m.search_index;
    searched = λ e. absurd (real e);
    few = few;
    above = w.above;
    beside = w.beside;
    set_up = w.set_up;
  }

  pub update_search_state-IsCoherent :
      (m : Model E) (s : Source) (m' : Model E)
      → IsCoherent m
      → update_search_state m s ≡ ok m'
      → IsCoherent m'
  unfolding update_search_state
  update_search_state-IsCoherent m s m' w h = elim (Bool-cases (text_beq m.search_term [])) [
    | inl bare ↦
        let h' : ok (without_matches m) ≡ ok m' = rw bare at h in
        subst IsCoherent (ok_injective h')
          (without_matches-IsCoherent m w ((text_beq_iff m.search_term []).0 bare))
    | inr real ↦
        let h' : (search_in m s >>= (λ r. ok (record r.0 {
          search_matches = map (search_match false) r.1;
          search_index =
              adjust_index (length (map (search_match false) r.1)) (Model.search_index r.0);
        })))
            ≡ ok m' =
          rw real at h in
        let (r, run, e) = bind_ok (search_in m s) _ h' in
        let (f, same, few) = search_in-result m s r run in
        let size = length-map r.1 (search_match false) in
        subst IsCoherent (ok_injective e) (
          rw same (
            found-IsConsistent m (map (search_match false) r.1) w (real_term m.search_term real)
              (omega arith)))
  ]
