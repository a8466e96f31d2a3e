-- ===== src/Viewport/Commands/Searching.antt =====
-- The calls that search keep what holds of a viewport.
use niceyaml.Prelude.{
  ℕ, zero, suc, ◌+◌, ◌%◌, ◌<◌, ◌≡◌, refl, ap, ◌∙◌, subst, false, not, ◌&&◌, List, [], ◌∷◌, Option,
  none, some, Outcome, ok, ◌>>=◌, at, length, Bool-cases, inl, inr, bind_ok, ok_injective, if_cases,
  arith, ◌-◌,
}
use native.Mathlib.Nat.{mod-lt}
use niceyaml.Prelude.Int.{ℤ, pos, negsuc, sub64, half_range}
use niceyaml.Text.{Text, text_beq}
use niceyaml.Source.{Source}
use niceyaml.Viewport.{Env, Model, SearchMatch, max_height, half, set_y_offset}
use niceyaml.Viewport.Render.{rerender, selected_at, apply_search_overlays}
use niceyaml.Viewport.Render.Overlaid.{has_panes}
use niceyaml.Viewport.Revisions.{
  scroll_to_current_match, set_search_term, clear_search, update_overlays, moved_index,
  navigate_search, is_nil,
}
use niceyaml.Viewport.Matches.Centered.{moved_index-next, moved_index-previous}
use niceyaml.Viewport.Commands.{run}
use niceyaml.Viewport.Commands.Invariant.{
  IsBounded, IsCoherent, IsIndex, real_term, apply_search_overlays-IsCoherent,
}
use niceyaml.Viewport.Commands.Rerender.{
  rerender-IsCoherent, apply_side_by_side_overlays-IsCoherent,
}
use niceyaml.Viewport.Commands.Scrolled.{set_y_offset-IsCoherent, cleared-IsCoherent}

module _ {E : Env} (b : IsBounded E) where
  scroll_to_current_match-IsCoherent :
      (m m' : Model E) → IsCoherent m → scroll_to_current_match m ≡ ok m' → IsCoherent m'
  unfolding scroll_to_current_match
  scroll_to_current_match-IsCoherent m m' w h = scrolled (selected_at m) h
    where
      scrolled :
          (o : Option ℕ)
          → (elim o as (λ _. Outcome (Model E)) [
            | none ↦ ok m
            | some i ↦ at m.search_matches i >>= (λ found.
                ok (
                  set_y_offset m
                    (sub64 found.rng.start.line (half (sub64 (max_height m) (pos 1))))))
          ])
            ≡ ok m'
          → IsCoherent m'
      scrolled none h = subst IsCoherent (ok_injective h) w
      scrolled (some i) h =
          let (found, run, e) = bind_ok (at m.search_matches i) _ h in
          subst IsCoherent (ok_injective e) (
            set_y_offset-IsCoherent m
              (sub64 found.rng.start.line (half (sub64 (max_height m) (pos 1)))) w)

  pub clear_search-IsCoherent :
      (m m' : Model E) → IsCoherent m → clear_search m ≡ ok m' → IsCoherent m'
  unfolding clear_search
  clear_search-IsCoherent m m' w h =
      rerender-IsCoherent b
        (record m { search_term = []; search_matches = []; search_index = negsuc 0 }) m'
        (cleared-IsCoherent m w) h

  searched-IsCoherent :
      (m : Model E) (term : Text)
      → IsCoherent m
      → text_beq term [] ≡ false
      → IsCoherent (record m { search_term = term })
  searched-IsCoherent m term w real = record {
    selected = w.selected;
    searched = λ e. absurd (real_term term real e);
    few = w.few;
    above = w.above;
    beside = w.beside;
    set_up = w.set_up;
  }

  pub set_search_term-IsCoherent :
      (m : Model E) (term : Text) (m' : Model E)
      → IsCoherent m
      → set_search_term m term ≡ ok m'
      → IsCoherent m'
  unfolding set_search_term
  set_search_term-IsCoherent m term m' w h = elim (Bool-cases (text_beq term [])) [
    | inl bare ↦ clear_search-IsCoherent m m' w (rw bare at h)
    | inr real ↦
        let h' : (rerender (record m { search_term = term }) >>= scroll_to_current_match) ≡ ok m' =
          rw real at h in
        let (m₁, run, h₁) =
          bind_ok (rerender (record m { search_term = term })) scroll_to_current_match h' in
        scroll_to_current_match-IsCoherent m₁ m'
          (rerender-IsCoherent b (record m { search_term = term }) m₁
            (searched-IsCoherent m term w real) run)
          h₁
  ]

  update_overlays-IsCoherent :
      (m m' : Model E) → IsCoherent m → update_overlays m ≡ ok m' → IsCoherent m'
  unfolding update_overlays
  update_overlays-IsCoherent m m' w h =
      elim (if_cases (has_panes m.view_mode && not (is_nil m.right)) h) [
        | inl panes ↦ apply_side_by_side_overlays-IsCoherent b m m' w panes
        | inr unified ↦ one_pane m.left unified
      ]
    where
      one_pane :
          (o : Option Source)
          → (elim o as (λ _. Outcome (Model E)) [
            | none ↦ ok m
            | some s ↦ apply_search_overlays m s
          ])
            ≡ ok m'
          → IsCoherent m'
      one_pane none h = subst IsCoherent (ok_injective h) w
      one_pane (some s) h = apply_search_overlays-IsCoherent m s m' w h

  -- A delta that leads from any match to another one.
  abbrev pub IsStep : ℤ → Type 0
  IsStep delta =
      (i n : ℕ)
      → i < n
      → n + n < half_range
      → (j : ℕ) × (moved_index (pos i) delta n ≡ pos j) × (j < n)

  stepped-IsIndex :
      (delta : ℤ) (n : ℕ) (z : ℤ)
      → IsStep delta
      → 0 < n
      → n + n < half_range
      → IsIndex n z
      → IsIndex n (moved_index z delta n)
  stepped-IsIndex delta zero z step some_match few w = absurd (omega arith)
  stepped-IsIndex delta (suc n) z step some_match few (i, e, less) =
      let (j, moved, inside) = step i (suc n) less few in
      (j, ap (λ v. moved_index v delta (suc n)) e ∙ moved, inside)

  pub navigate_search-IsCoherent :
      (m : Model E) (delta : ℤ) (m' : Model E)
      → IsStep delta
      → IsCoherent m
      → navigate_search m delta ≡ ok m'
      → IsCoherent m'
  unfolding navigate_search
  navigate_search-IsCoherent m delta m' step w h = navigated m.search_matches refl h
    where
      navigated :
          (ms : List SearchMatch)
          → m.search_matches ≡ ms
          → (elim ms as (λ _. Outcome (Model E)) [
            | [] ↦ ok m
            | _ ∷ _ ↦
                update_overlays (record m {
                  search_index = moved_index m.search_index delta (length m.search_matches);
                })
                >>= scroll_to_current_match
          ])
            ≡ ok m'
          → IsCoherent m'
      navigated [] e h = subst IsCoherent (ok_injective h) w
      navigated (f ∷ fs) e h =
          let z = moved_index m.search_index delta (length m.search_matches) in
          let size : length m.search_matches ≡ suc (length fs) =
            ap (λ ms. length {A = SearchMatch} ms) e in
          let m₁ : Model E = record m { search_index = z } in
          let w₁ : IsCoherent m₁ = record {
            selected =
                stepped-IsIndex delta (length m.search_matches) m.search_index step (omega arith)
                  w.few w.selected;
            searched = w.searched;
            few = w.few;
            above = w.above;
            beside = w.beside;
            set_up = w.set_up;
          } in
          let (m₂, run, h₁) = bind_ok (update_overlays m₁) scroll_to_current_match h in
          scroll_to_current_match-IsCoherent m₂ m' (update_overlays-IsCoherent m₁ m₂ w₁ run) h₁

  pub next-IsStep : IsStep (pos 1)
  next-IsStep i n less few =
      ((i + 1) % n, moved_index-next i n less few, mod-lt (i + 1) (omega arith))

  pub previous-IsStep : IsStep (negsuc 0)
  previous-IsStep i n less few =
      ((i + (n - 1)) % n, moved_index-previous i n less few, mod-lt (i + (n - 1)) (omega arith))
