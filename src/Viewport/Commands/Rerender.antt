-- ===== src/Viewport/Commands/Rerender.antt =====
-- `rerender` keeps what holds of a viewport.
use niceyaml.Prelude.{
  ℕ, ◌+◌, ◌≡◌, sym, ap, ◌∙◌, subst, true, false, not, ◌||◌, List, [], ◌∷◌, ◌++◌, map, Option, none,
  some, ok, ◌>>=◌, length, Bool-cases, inl, inr, bind_ok, ok_injective, if_cases, length-map,
  length-append, arith, ◌≤◌, ◌<◌, ◌^◌,
}
use niceyaml.Prelude.Int.{half_range}
use niceyaml.Text.{text_beq, text_beq_iff}
use niceyaml.Position.{Range, Position}
use niceyaml.Differ.{DiffResult, before_lines, after_lines, to_lines}
use niceyaml.Source.{Source}
use niceyaml.Viewport.{Env, Model, SearchMatch}
use niceyaml.Viewport.Render.{
  update_search_state, update_side_by_side_search_state, search_in, apply_side_by_side_overlays,
  selection, without_matches, get_diff_result, found_diff, resolve_revision_source, render_panes,
  render_unified, render_source, render_plain, rerender,
}
use niceyaml.Viewport.Render.Overlaid.{
  adjust_index, pane_overlays, equal_positions, right_only, is_member, search_match, made_source,
  has_panes,
}
use niceyaml.Viewport.Commands.Invariant.{
  IsBounded, IsCoherent, IsConsistent, apply_search_overlays-IsCoherent, search_in-result,
  without_matches-IsCoherent, found-IsConsistent, update_search_state-IsCoherent, real_term,
}

module _ {E : Env} (b : IsBounded E) where
  length-right_only :
      (equal : List Position) (rs : List Range) → length (right_only equal rs) ≤ length rs
  unfolding right_only
  length-right_only equal [] = omega arith
  length-right_only equal (r ∷ rs) = elim (Bool-cases (is_member r.start equal)) [
    | inl twice ↦ rw twice (omega (arith, length-right_only equal rs))
    | inr once ↦ rw once (omega (arith, length-right_only equal rs))
  ]

  -- Fewer than 2 ^ 62 matches on both sides.
  fewer :
      (m : Model E) (ls rs : List Range) (equal : List Position)
      → length ls < 2 ^ 61
      → length rs < 2 ^ 61
      → let ms = E.sort (map (search_match true) ls ++ right_only equal rs) in
        length ms + length ms < half_range
  fewer m ls rs equal h k =
      let left = length-map ls (search_match true) in
      let right = length-right_only equal rs in
      let both = length-append (map (search_match true) ls) (right_only equal rs) in
      rw (b.length-sort (map (search_match true) ls ++ right_only equal rs)) (omega arith)

  loaded-IsConsistent :
      (m v : Model E) (f : Option (Env.Finder E)) (ms : List SearchMatch)
      → v ≡ record m { finder = f }
      → IsCoherent m
      → (m.search_term ≡ [] → ⊥)
      → length ms + length ms < half_range
      → IsConsistent v.search_term ms
          (adjust_index (length ms) v.search_index)
          v.y_offset
          v.x_offset
          v.initialized
  loaded-IsConsistent m v f ms e w real few =
      subst
        (λ (u : Model E).
          IsConsistent u.search_term ms (adjust_index (length ms) u.search_index) u.y_offset
            u.x_offset u.initialized)
        (sym e) (found-IsConsistent b m ms w real few)

  update_side_by_side_search_state-IsCoherent :
      (m : Model E) (left right : Source) (m' : Model E)
      → IsCoherent m
      → update_side_by_side_search_state m left right ≡ ok m'
      → IsCoherent m'
  unfolding update_side_by_side_search_state
  update_side_by_side_search_state-IsCoherent m left right m' w h =
      elim (Bool-cases (text_beq m.search_term [])) [
        | inl bare ↦
            let h' : ok (without_matches m) ≡ ok m' = rw bare at h in
            subst IsCoherent (ok_injective h')
              (without_matches-IsCoherent b m w ((text_beq_iff m.search_term []).0 bare))
        | inr real ↦ searched real (rw real at h)
      ]
    where
      searched :
          text_beq m.search_term [] ≡ false
          → (search_in m left >>= (λ l. search_in l.0 right >>= (λ r.
              equal_positions left.lines l.1 >>= (λ equal. ok (record r.0 {
                left_matches = l.1;
                right_matches = r.1;
                search_matches = E.sort (map (search_match true) l.1 ++ right_only equal r.1);
                search_index =
                    adjust_index
                      (length (E.sort (map (search_match true) l.1 ++ right_only equal r.1)))
                      (Model.search_index r.0);
              })))))
            ≡ ok m'
          → IsCoherent m'
      searched real h' =
          let (l, run, h₁) = bind_ok (search_in m left) _ h' in
          let (r, run', h₂) = bind_ok (search_in l.0 right) _ h₁ in
          let (equal, run'', e) = bind_ok (equal_positions left.lines l.1) _ h₂ in
          let (f, same, few) = search_in-result b m left l run in
          let (f', same', few') = search_in-result b l.0 right r run' in
          let both : r.0 ≡ record m { finder = f' } =
            same' ∙ ap {A = Model E} {B = Model E} (λ v. record v { finder = f' }) same in
          subst IsCoherent (ok_injective e) (
            loaded-IsConsistent m r.0 f'
              (E.sort (map (search_match true) l.1 ++ right_only equal r.1)) both w
              (real_term m.search_term real) (fewer m l.1 r.1 equal few few'))

  pub apply_side_by_side_overlays-IsCoherent :
      (m m' : Model E) → IsCoherent m → apply_side_by_side_overlays m ≡ ok m' → IsCoherent m'
  unfolding apply_side_by_side_overlays
  apply_side_by_side_overlays-IsCoherent m m' w h = elim (Bool-cases (text_beq m.search_term [])) [
    | inl bare ↦ let h' : ok m ≡ ok m' = rw bare at h in subst IsCoherent (ok_injective h') w
    | inr real ↦ overlaid (rw real at h)
  ]
    where
      overlaid :
          (selection m >>= (λ s. pane_overlays m.left m.left_matches s.0 (s.1 || s.2) >>= (λ left.
              pane_overlays m.right m.right_matches s.0 (not s.1 || s.2)
              >>= (λ right. ok (record m { left = left; right = right })))))
            ≡ ok m'
          → IsCoherent m'
      overlaid h' =
          let (s, run, h₁) = bind_ok (selection m) _ h' in
          let (left, run', h₂) =
            bind_ok (pane_overlays m.left m.left_matches s.0 (s.1 || s.2)) _ h₁ in
          let (right, run'', e) =
            bind_ok (pane_overlays m.right m.right_matches s.0 (not s.1 || s.2)) _ h₂ in
          subst IsCoherent (ok_injective e) w

  get_diff_result-IsCoherent :
      (m : Model E) (r : Model E × DiffResult)
      → IsCoherent m
      → get_diff_result m ≡ ok r
      → IsCoherent r.0
  unfolding get_diff_result
  get_diff_result-IsCoherent m r w h =
      let (d, run, e) = bind_ok (found_diff m) _ h in subst (λ v. IsCoherent v.0) (ok_injective e) w

  render_panes-IsCoherent : (m m' : Model E) → IsCoherent m → render_panes m ≡ ok m' → IsCoherent m'
  unfolding render_panes
  render_panes-IsCoherent m m' w h =
      let (d, run, h₁) = bind_ok (get_diff_result m) _ h in
      let (before, run₁, h₂) = bind_ok (before_lines d.1.ops) _ h₁ in
      let (after, run₂, h₃) = bind_ok (after_lines d.1.ops) _ h₂ in
      let left = made_source d.1.name before in
      let right = made_source d.1.name after in
      let m₁ : Model E = record (d.0) { left = some left; left_owner = none; right = some right } in
      let (m₂, run₃, h₄) = bind_ok (update_side_by_side_search_state m₁ left right) _ h₃ in
      apply_side_by_side_overlays-IsCoherent m₂ m'
        (update_side_by_side_search_state-IsCoherent m₁ left right m₂
          (get_diff_result-IsCoherent m d w run) run₃)
        h₄

  render_source-IsCoherent :
      (m : Model E) (owner : Option ℕ) (s : Source) (m' : Model E)
      → IsCoherent m
      → render_source m owner s ≡ ok m'
      → IsCoherent m'
  unfolding render_source
  render_source-IsCoherent m owner s m' w h =
      let m₁ : Model E = record m { left = some s; left_owner = owner } in
      let (m₂, run, h₁) = bind_ok (update_search_state m₁ s) _ h in
      apply_search_overlays-IsCoherent m₂ s m' (update_search_state-IsCoherent b m₁ s m₂ w run) h₁

  render_plain-IsCoherent :
      (m : Model E) (source : Option (ℕ × Source)) (m' : Model E)
      → IsCoherent m
      → render_plain m source ≡ ok m'
      → IsCoherent m'
  unfolding render_plain
  render_plain-IsCoherent m none m' w h = subst IsCoherent (ok_injective h) w
  render_plain-IsCoherent m (some (a, s)) m' w h = render_source-IsCoherent m (some a) s m' w h

  render_unified-IsCoherent :
      (m m' : Model E) → IsCoherent m → render_unified m ≡ ok m' → IsCoherent m'
  unfolding render_unified
  render_unified-IsCoherent m m' w h =
      let (d, run, h₁) = bind_ok (get_diff_result m) _ h in
      render_source-IsCoherent d.0 none (made_source d.1.name (to_lines d.1.ops)) m'
        (get_diff_result-IsCoherent m d w run) h₁

  pub rerender-IsCoherent : (m m' : Model E) → IsCoherent m → rerender m ≡ ok m' → IsCoherent m'
  unfolding rerender
  rerender-IsCoherent m m' w h =
      let m₁ : Model E = record m { diff_result = none; right = none } in
      let (r, run, h₁) = bind_ok (resolve_revision_source m₁) _ h in
      elim (if_cases r.1 h₁) [
        | inr plain ↦ render_plain-IsCoherent m₁ r.0 m' w plain
        | inl diffs ↦ elim (if_cases (has_panes m.view_mode) diffs) [
          | inl panes ↦ render_panes-IsCoherent m₁ m' w panes
          | inr unified ↦ render_unified-IsCoherent m₁ m' w unified
        ]
      ]
