-- ===== src/Viewport/Render.antt =====
-- bubbles/yamlviewport/viewport.go: the sources on display, the search in them and the overlays of
-- its matches, which `rerender` brings up to date.
pub mod Overlaid
use niceyaml.Prelude.{
  ℕ, zero, suc, ◌+◌, Bool, true, false, not, ◌&&◌, ◌||◌, List, [], ◌∷◌, ◌++◌, map, Option, none,
  some, Outcome, ok, panic, ◌>>=◌, at, put, of_option, length, if◌then◌else◌,
}
use niceyaml.Prelude.Int.{ℤ, pos, negsuc, ltb_ℤ, eqb_ℤ}
use niceyaml.Text.{Text, text_beq}
use niceyaml.Position.{Position, Range, position_beq, new_position}
use niceyaml.Diff.{Flag, default}
use niceyaml.Diff.Hirschberg.{new_hirschberg}
use niceyaml.Line.{Line}
use niceyaml.Source.{Source, add_source_overlay, clear_source_overlays}
use niceyaml.Differ.{DiffResult, compute_ops, diff_result, before_lines, after_lines, to_lines}
use niceyaml.Revision.{Revision, origin, seek}
use niceyaml.Viewport.{
  Env, Model, SearchMatch, DiffMode, adjacent, from_origin, no_diff, ViewMode, side_by_side,
}
use niceyaml.Viewport.Render.Overlaid.{
  overlay_matches, adjust_index, on_equal_line, equal_positions, search_match, right_only,
  pane_overlays, lines_of, shows_diffs, diff_of, made_source, has_panes, stored,
}

module _ {E : Env} where
  -- The index of the selected match, where there is one.
  abbrev pub selected_at : Model E → Option ℕ
  selected_at m = elim m.search_index [
    | pos i ↦ if ltb_ℤ (pos i) (pos (length m.search_matches)) then some i else none
    | negsuc _ ↦ none
  ]

  unfoldable pub store_left : Model E → Source → Outcome (Model E)
  unfolding stored
  store_left m s = do
    heap ← stored m.heap m.left_owner s
    ok (record m { left = some s; heap = heap })

  -- `applySearchOverlays`, for the lines of `m.left`.
  unfoldable pub apply_search_overlays : Model E → Source → Outcome (Model E)
  unfolding overlay_matches clear_source_overlays store_left
  apply_search_overlays m lines = do
    lines' ← overlay_matches m.search_index 0 m.search_matches (clear_source_overlays lines)
    store_left m lines'

  -- `m.finder.Load` and `m.finder.Find`.
  unfoldable pub search_in : Model E → Source → Outcome (Model E × List Range)
  search_in m s = do
    finder ← of_option m.finder
    let loaded = E.load finder s
    ranges ← E.find loaded m.search_term
    ok (record m { finder = some loaded }, ranges)

  abbrev pub without_matches : Model E → Model E
  without_matches m = record m { search_matches = []; left_matches = []; right_matches = [] }

  -- `updateSearchState`.
  unfoldable pub update_search_state : Model E → Source → Outcome (Model E)
  unfolding search_in adjust_index
  update_search_state m lines = if text_beq m.search_term [] then ok (without_matches m) else (do
    (m', ranges) ← search_in m lines
    ok (record m' {
      search_matches = map (search_match false) ranges;
      search_index = adjust_index (length (map (search_match false) ranges)) m'.search_index;
    }))

  -- `updateSideBySideSearchState`, for the sources of `m.left` and `m.right`.
  unfoldable pub update_side_by_side_search_state : Model E → Source → Source → Outcome (Model E)
  unfolding search_in adjust_index equal_positions right_only
  update_side_by_side_search_state m left right =
      if text_beq m.search_term [] then ok (without_matches m) else (do
        (m₁, left_matches) ← search_in m left
        (m₂, right_matches) ← search_in m₁ right
        equal ← equal_positions left.lines left_matches
        let combined =
            E.sort (map (search_match true) left_matches ++ right_only equal right_matches)
        ok (record m₂ {
          left_matches = left_matches;
          right_matches = right_matches;
          search_matches = combined;
          search_index = adjust_index (length combined) m₂.search_index;
        }))

  -- The position, the pane and the kind of line of the selected match.
  unfoldable pub selection : Model E → Outcome (Position × Bool × Bool)
  unfolding on_equal_line
  selection m = elim (selected_at m) [
    | none ↦ ok (new_position (pos 0) (pos 0), false, false)
    | some i ↦ do
      selected ← at m.search_matches i
      lines ← lines_of m.left
      equal ← on_equal_line lines selected.rng.start
      ok (selected.rng.start, selected.in_left, equal)
  ]

  -- `applySideBySideOverlays`. Both panes are made by the diff; no revision owns them.
  unfoldable pub apply_side_by_side_overlays : Model E → Outcome (Model E)
  unfolding selection pane_overlays
  apply_side_by_side_overlays m = if text_beq m.search_term [] then ok m else (do
    (selected, in_left, equal) ← selection m
    left ← pane_overlays m.left m.left_matches selected (in_left || equal)
    right ← pane_overlays m.right m.right_matches selected (not in_left || equal)
    ok (record m { left = left; right = right }))

  -- `resolveRevisionSource`: the address and the source of a revision, or that a diff is needed.
  unfoldable pub resolve_revision_source : Model E → Outcome (Option (ℕ × Source) × Bool)
  unfolding origin
  resolve_revision_source m = elim m.revision [
    | none ↦ ok (none, false)
    | some a ↦ do
      node ← at m.heap a
      elim node.prev [
        | none ↦ do
          first ← origin m.heap a
          first_node ← at m.heap first
          ok (some (first, first_node.head), false)
        | some _ ↦
            if shows_diffs m.diff_mode then ok (none, true) else ok (some (a, node.head), false)
      ]
  ]

  -- `getDiffBaseRevision`.
  unfoldable pub get_diff_base_revision : Model E → Outcome (Option ℕ)
  unfolding origin seek
  get_diff_base_revision m = elim m.revision [
    | none ↦ ok none
    | some a ↦
        let first = origin m.heap a in
        let before = seek m.heap a (negsuc 0) in
        elim m.diff_mode [
          | from_origin ↦ do b ← first; ok (some b)
          | adjacent ↦ do b ← before; ok (some b)
          | no_diff ↦ ok none
        ]
  ]

  -- What `getDiffResult` returns.
  unfoldable pub found_diff : Model E → Outcome DiffResult
  unfolding get_diff_base_revision diff_of
  found_diff m = elim m.diff_result [
    | some r ↦ ok r
    | none ↦ do base ← get_diff_base_revision m; diff_of m.heap base m.revision
  ]

  -- `getDiffResult`, which leaves the result in the cache.
  unfoldable pub get_diff_result : Model E → Outcome (Model E × DiffResult)
  unfolding found_diff
  get_diff_result m = do r ← found_diff m; ok (record m { diff_result = some r }, r)

  -- `rerender` where the view has two panes.
  unfoldable pub render_panes : Model E → Outcome (Model E)
  unfolding get_diff_result before_lines after_lines update_side_by_side_search_state
      apply_side_by_side_overlays
  render_panes m = do
    (m₁, r) ← get_diff_result m
    before ← before_lines r.ops
    after ← after_lines r.ops
    let left = made_source r.name before
    let right = made_source r.name after
    m₂ ←
        update_side_by_side_search_state
          (record m₁ { left = some left; left_owner = none; right = some right }) left right
    apply_side_by_side_overlays m₂

  -- `rerender` for a source to display, which is one of a revision or made.
  unfoldable pub render_source : Model E → Option ℕ → Source → Outcome (Model E)
  unfolding update_search_state apply_search_overlays
  render_source m owner s = do
    m' ← update_search_state (record m { left = some s; left_owner = owner }) s
    apply_search_overlays m' s

  unfoldable pub render_unified : Model E → Outcome (Model E)
  unfolding get_diff_result to_lines render_source
  render_unified m = do
    (m', r) ← get_diff_result m
    render_source m' none (made_source r.name (to_lines r.ops))

  -- `rerender` where no diff is needed.
  unfoldable pub render_plain : Model E → Option (ℕ × Source) → Outcome (Model E)
  unfolding render_source
  render_plain m none = ok (record m { left = none; left_owner = none })
  render_plain m (some (a, s)) = render_source m (some a) s

  -- `rerender`.
  unfoldable pub rerender : Model E → Outcome (Model E)
  unfolding resolve_revision_source render_panes render_unified render_plain
  rerender m =
      let cleared = record m { diff_result = none; right = none } in
      let panes = render_panes cleared in
      let unified = render_unified cleared in
      let diffs = if has_panes m.view_mode then panes else unified in
      do
        (source, needs_diff) ← resolve_revision_source cleared
        if needs_diff then diffs else render_plain cleared source
