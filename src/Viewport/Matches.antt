-- ===== src/Viewport/Matches.antt =====
-- The search of the viewport: the selected match and the steps through the matches.
pub mod Centered
pub mod Cycle
use niceyaml.Prelude.{
  ℕ, zero, suc, ◌+◌, ◌-◌, ◌*◌, ◌/◌, ◌%◌, ◌≤◌, ◌<◌, ◌≡◌, refl, sym, ap, ◌∙◌, subst, true, false, not,
  ◌&&◌, Bool, List, [], ◌∷◌, Option, none, some, Outcome, ok, ◌>>=◌, at, min, max, ltb, arith,
  Bool-cases, inl, inr, ◌⊎◌, length, get_elem?, get_elem?_total, lt→ltb, map, set, length-set,
  length-map, if◌then◌else◌, ◌==◌,
}
use native.Mathlib.Nat.{mul-add-mod_self_left, mod-add-mod, mod-eq_of_lt}
use niceyaml.Prelude.Int.{
  ℤ, pos, negsuc, sub_ℕ, eqb_ℤ, ltb_ℤ, max_ℤ, min_ℤ, add64, sub64, add64-pos, sub64-pos, half_range,
  add64-pred, sub_ℕ-add64,
}
use niceyaml.Position.{Range}
use niceyaml.Line.{clear_line, clear_overlays}
use niceyaml.Revision.{Revision}
use niceyaml.Source.{Source, source_len, clear_source_overlays, add_source_overlay}
use niceyaml.Source.Overlays.{IsSpread, AllSpread, clear_source_overlays-add}
use niceyaml.Viewport.{
  Env, Model, SearchMatch, ViewMode, full, hunks, side_by_side, clamp_to, half, max_height,
  line_count, max_y_offset, set_y_offset,
}
use niceyaml.Viewport.Scroll.{IsSized, set_y_offset-line, pos_injective}
use niceyaml.Viewport.Render.{selected_at, apply_search_overlays, store_left}
use niceyaml.Viewport.Render.Overlaid.{
  overlay_matches, stored, generic_highlight, generic_highlight_dim, has_panes,
}
use niceyaml.Viewport.Revisions.{
  scroll_to_current_match, navigate_search, moved_index, update_overlays, search_next, rem, is_nil,
}
use niceyaml.Viewport.Matches.Centered.{
  centered, clamp-centered, ranges, overlay_matches-total, IsOwned, stored-total, one_side,
  selected_index, cons_of,
}

module _ {E : Env} where
  -- A viewport with one pane and matches in it, at the match `i`.
  pub record IsSearching (m : Model E) (count height i : ℕ) : Type 0 where
    pub source : Source
    pub shown : m.left ≡ some source
    pub counted : length source.lines ≡ count
    pub owned : IsOwned m.heap m.left_owner
    pub one_pane : m.right ≡ none
    pub spread : AllSpread count (ranges m.search_matches)
    pub at_match : m.search_index ≡ pos i
    pub less : i < length m.search_matches
    pub few : length m.search_matches + length m.search_matches < half_range
    pub fits : count < half_range
    pub rows : max_height m ≡ pos height
    pub small : height < half_range

  -- The state behind a step to the match `i`.
  abbrev pub at_step : Model E → ℕ → Source → List (Revision Source) → ℕ → Model E
  at_step m i s heap y = record m {
    search_index = pos i;
    left = some s;
    heap = heap;
    y_offset = pos y;
  }

  overlays-run :
      (m : Model E) (s s' : Source) (heap : List (Revision Source))
      → m.left ≡ some s
      → m.right ≡ none
      → overlay_matches m.search_index 0 m.search_matches (clear_source_overlays s) ≡ ok s'
      → stored m.heap m.left_owner s' ≡ ok heap
      → update_overlays m ≡ ok (record m { left = some s'; heap = heap })
  unfolding update_overlays apply_search_overlays store_left
  overlays-run m s s' heap shown one_pane run run' = rw (one_side m.view_mode m.right one_pane) (
      ap {A = Option Source} {B = Outcome (Model E)}
        (λ o. elim o [ none ↦ ok m | some v ↦ apply_search_overlays m v ]) shown
      ∙ rw (apply_search_overlays, run) (rw (store_left, run') refl))

  update_overlays-total :
      (m : Model E) (s : Source)
      → m.left ≡ some s
      → m.right ≡ none
      → IsOwned m.heap m.left_owner
      → AllSpread (length s.lines) (ranges m.search_matches)
      → length s.lines < half_range
      → (s' : Source) × (heap : List (Revision Source)) × (update_overlays m
          ≡ ok (record m { left = some s'; heap = heap }))
        × (length s'.lines ≡ length s.lines)
        × (length heap ≡ length m.heap)
  unfolding update_overlays apply_search_overlays store_left clear_source_overlays
  update_overlays-total m s shown one_pane owned spread small =
      let size = length-map s.lines clear_line in
      let (s', run, size') =
        overlay_matches-total m.search_index 0 m.search_matches (clear_source_overlays s)
          (subst (λ n. AllSpread n (ranges m.search_matches)) (sym size) spread) (omega arith) in
      let (heap, run', size'') = stored-total m.heap m.left_owner s' owned in
      (s', heap, overlays-run m s s' heap shown one_pane run run', size' ∙ size, size'')

  scroll-centered :
      (m : Model E) (count height i line : ℕ) (found : SearchMatch)
      → IsSized m count height
      → m.search_index ≡ pos i
      → i < length m.search_matches
      → get_elem? m.search_matches i ≡ some found
      → found.rng.start.line ≡ pos line
      → line < count
      → scroll_to_current_match m ≡ ok (record m { y_offset = pos (centered count height line) })
  unfolding scroll_to_current_match
  scroll-centered m count height i line found sized index less e e' on =
      let selected = selected_index m.search_index i (length m.search_matches) index less in
      let back : set_y_offset m (sub64 (pos line) (half (sub64 (pos height) (pos 1))))
          ≡ record m { y_offset = pos (centered count height line) } =
        set_y_offset-line m count height sized (centered count height line)
          (sub64 (pos line) (half (sub64 (pos height) (pos 1))))
          (clamp-centered count height line sized.fits sized.small on) in
      ap {A = Option ℕ} {B = Outcome (Model E)}
        (λ o. elim o [
          | none ↦ ok m
          | some k ↦ do
            f ← at m.search_matches k
            ok (set_y_offset m (sub64 f.rng.start.line (half (sub64 (max_height m) (pos 1)))))
        ])
        selected
      ∙ rw e (ap (λ z. ok (set_y_offset m z)) back_by ∙ ap ok back)
    where
      back_by :
          sub64 found.rng.start.line (half (sub64 (max_height m) (pos 1)))
          ≡ sub64 (pos line) (half (sub64 (pos height) (pos 1)))
      back_by = rw (e', sized.rows) refl

  navigate-run :
      (m : Model E) (delta j : ℤ)
      → 0 < length m.search_matches
      → moved_index m.search_index delta (length m.search_matches) ≡ j
      → navigate_search m delta
        ≡ (update_overlays (record m { search_index = j }) >>= scroll_to_current_match)
  unfolding navigate_search
  navigate-run m delta j some_match e =
      let (f, fs, e') = cons_of m.search_matches some_match in
      ap {A = List SearchMatch} {B = Outcome (Model E)}
        (λ ms. elim ms [
          | [] ↦ ok m
          | _ ∷ _ ↦
              update_overlays (record m {
                search_index = moved_index m.search_index delta (length m.search_matches);
              })
              >>= scroll_to_current_match
        ])
        e'
      ∙ ap (λ z. update_overlays (record m { search_index = z }) >>= scroll_to_current_match) e

  -- A step to the match `j`, by any delta that leads there.
  pub navigate-step :
      (m : Model E) (count height i j line : ℕ) (delta : ℤ) (found : SearchMatch)
      → IsSearching m count height i
      → moved_index (pos i) delta (length m.search_matches) ≡ pos j
      → j < length m.search_matches
      → get_elem? m.search_matches j ≡ some found
      → found.rng.start.line ≡ pos line
      → line < count
      → (s : Source) × (heap : List (Revision Source)) × (navigate_search m delta
          ≡ ok (at_step m j s heap (centered count height line)))
        × (length s.lines ≡ count)
        × (length heap ≡ length m.heap)
  unfolding max_height line_count
  navigate-step m count height i j line delta found w next inside e e' less =
      let m₁ : Model E = record m { search_index = pos j } in
      let (s, heap, run, size, size') =
        update_overlays-total m₁ w.source w.shown w.one_pane w.owned
          (subst (λ n. AllSpread n (ranges m.search_matches)) (sym w.counted) w.spread)
          (omega (arith, w.counted, w.fits)) in
      let m₂ : Model E = record m₁ { left = some s; heap = heap } in
      let sized : IsSized m₂ count height = record {
        lines = ap pos (size ∙ w.counted);
        rows = w.rows;
        fits = w.fits;
        small = w.small;
      } in
      let moved : moved_index m.search_index delta (length m.search_matches) ≡ pos j =
        rw w.at_match next in
      (
        s,
        heap,
        navigate-run m delta (pos j) (omega (arith, w.less)) moved
            ∙ rw run (scroll-centered m₂ count height j line found sized refl inside e e' less),
        size ∙ w.counted,
        size',
      )
