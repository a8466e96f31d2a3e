-- ===== src/Viewport/Revisions.antt =====
-- bubbles/yamlviewport/viewport.go: the operations that change what is on display: the history of
-- revisions, the modes, the width and the search.
use niceyaml.Prelude.{
  ℕ, suc, ◌%◌, Bool, true, false, not, ◌&&◌, List, [], ◌∷◌, Option, none, some, Outcome, ok, ◌>>=◌,
  at, of_option, length, if◌then◌else◌,
}
use niceyaml.Prelude.Int.{ℤ, pos, negsuc, ltb_ℤ, eqb_ℤ, add64, sub64, sub_ℕ}
use niceyaml.Text.{Text, text_beq}
use niceyaml.Source.{Source}
use niceyaml.Differ.{stats}
use niceyaml.Revision.{new_revision, tip, append, at_index, seek, index, chain_len, names}
use niceyaml.Viewport.{
  Env, Model, DiffMode, adjacent, from_origin, no_diff, ViewMode, full, side_by_side, clamp_to,
  half, max_width, max_height, max_y_offset, set_y_offset, goto_top, goto_bottom,
}
use niceyaml.Viewport.Render.{
  rerender, get_diff_result, apply_side_by_side_overlays, apply_search_overlays, selected_at,
}
use niceyaml.Viewport.Render.Overlaid.{shows_diffs, has_panes}

-- `a % b` on `int`, for a positive `b`: the sign is that of `a`.
abbrev pub rem : ℤ → ℕ → ℤ
rem (pos n) b = pos (n % b)
rem (negsuc n) b = sub_ℕ 0 (suc n % b)

abbrev pub is_nil {ℓ} : {A : Type ℓ} → Option A → Bool
is_nil none = true
is_nil (some _) = false

abbrev pub next_diff_mode : DiffMode → DiffMode
next_diff_mode adjacent = from_origin
next_diff_mode from_origin = no_diff
next_diff_mode no_diff = adjacent

abbrev pub next_view_mode : ViewMode → ViewMode
next_view_mode full = side_by_side
next_view_mode _ = full

-- The index that `navigateSearch` moves to, of `count` matches.
unfoldable pub moved_index : ℤ → ℤ → ℕ → ℤ
unfolding add64
moved_index i delta count = rem (add64 (add64 i delta) (pos count)) count

module _ {E : Env} where
  -- `updatePrinterWidth`.
  unfoldable pub update_printer_width : Model E → Outcome (Model E)
  unfolding max_width
  update_printer_width m = do
    printer ← of_option m.printer
    ok (record m { printer = some (E.set_printer_width printer (max_width m)) })

  -- `SetWidth`.
  unfoldable pub set_width : Model E → ℤ → Outcome (Model E)
  unfolding update_printer_width rerender
  set_width m w =
      let wide = update_printer_width (record m { width = w }) in
      if eqb_ℤ m.width w
      then ok m
      else (do m' ← wide; if m'.wrap_enabled then rerender m' else ok m')

  -- `SetPrinter`.
  unfoldable pub set_printer : Model E → Env.Printer E → Outcome (Model E)
  unfolding update_printer_width rerender
  set_printer m p = do m' ← update_printer_width (record m { printer = some p }); rerender m'

  -- `ToggleWordWrap`.
  unfoldable pub toggle_word_wrap : Model E → Outcome (Model E)
  unfolding rerender
  toggle_word_wrap m = do
    printer ← of_option m.printer
    let wrap = not m.wrap_enabled
    rerender (record m {
      wrap_enabled = wrap;
      printer = some (E.set_word_wrap printer wrap);
      x_offset = if wrap then pos 0 else m.x_offset;
    })

  -- The revision that `AddRevision` makes.
  unfoldable pub extend : Model E → Source → Outcome (Model E)
  unfolding new_revision tip append
  extend m s = elim m.revision [
    | none ↦
        let (heap, a) = new_revision m.heap s in ok (record m { heap = heap; revision = some a })
    | some a ↦ do
      last ← tip m.heap a
      (heap, b) ← append m.heap last s
      ok (record m { heap = heap; revision = some b })
  ]

  -- `AddRevision`.
  unfoldable pub add_revision : Model E → Source → Outcome (Model E)
  unfolding extend rerender goto_bottom max_y_offset
  add_revision m s = do
    m₁ ← extend m s
    m₂ ← rerender m₁
    ok (if ltb_ℤ (max_y_offset m₂) m₂.y_offset then goto_bottom m₂ else m₂)

  -- `ClearRevisions`.
  unfoldable pub clear_revisions : Model E → Outcome (Model E)
  unfolding rerender
  clear_revisions m = rerender (record m { revision = none })

  -- `SetTokens`.
  unfoldable pub set_tokens : Model E → Source → Outcome (Model E)
  unfolding clear_revisions add_revision
  set_tokens m s = do m' ← clear_revisions m; add_revision m' s

  -- `RevisionIndex`, `RevisionCount`, `RevisionName` and `RevisionNames`.
  unfoldable pub revision_index : Model E → Outcome ℕ
  unfolding index
  revision_index m = elim m.revision [ none ↦ ok 0 | some a ↦ index m.heap a ]

  unfoldable pub revision_count : Model E → Outcome ℕ
  unfolding chain_len
  revision_count m = elim m.revision [ none ↦ ok 0 | some a ↦ chain_len m.heap a ]

  unfoldable pub revision_name : Model E → Outcome Text
  revision_name m = elim m.revision [
    | none ↦ ok []
    | some a ↦ do node ← at m.heap a; ok node.head.name
  ]

  unfoldable pub revision_names : Model E → Outcome (List Text)
  unfolding names
  revision_names m = elim m.revision [ none ↦ ok [] | some a ↦ names Source.name m.heap a ]

  -- `IsAtFirstRevision`, `IsAtLatestRevision` and `IsShowingDiff`.
  unfoldable pub is_at_first_revision : Model E → Outcome Bool
  is_at_first_revision m = elim m.revision [
    | none ↦ ok true
    | some a ↦ do node ← at m.heap a; ok (is_nil node.prev)
  ]

  unfoldable pub is_at_latest_revision : Model E → Outcome Bool
  is_at_latest_revision m = elim m.revision [
    | none ↦ ok true
    | some a ↦ do node ← at m.heap a; ok (is_nil node.next)
  ]

  unfoldable pub is_showing_diff : Model E → Outcome Bool
  is_showing_diff m = elim m.revision [
    | none ↦ ok false
    | some a ↦ do node ← at m.heap a; ok (not (is_nil node.prev) && shows_diffs m.diff_mode)
  ]

  -- `DiffStats`, with the state whose cache it fills.
  unfoldable pub diff_stats : Model E → Outcome (Model E × ℕ × ℕ)
  unfolding is_showing_diff get_diff_result stats
  diff_stats m =
      let shown = (do
        (m', r) ← get_diff_result m
        let (added, removed) = stats r.ops
        ok (m', added, removed)) in
      do showing ← is_showing_diff m; if showing then shown else ok (m, 0, 0)

  -- `GoToRevision`.
  unfoldable pub goto_revision : Model E → ℤ → Outcome (Model E)
  unfolding chain_len at_index rerender goto_top sub64
  goto_revision m i = elim m.revision [
    | none ↦ ok m
    | some a ↦ do
      count ← chain_len m.heap a
      b ← at_index m.heap a (clamp_to i (pos 0) (sub64 (pos count) (pos 1)))
      m' ← rerender (record m { revision = some b })
      ok (goto_top m')
  ]

  -- `seekRevision` behind its guards.
  unfoldable pub move_revision : Model E → ℕ → ℤ → Outcome (Model E)
  unfolding seek rerender goto_top
  move_revision m a delta = do
    b ← seek m.heap a delta
    m' ← rerender (record m { revision = some b })
    ok (goto_top m')

  -- `seekRevision`.
  unfoldable pub seek_revision : Model E → ℤ → Outcome (Model E)
  unfolding move_revision
  seek_revision m delta = elim m.revision [
    | none ↦ ok m
    | some a ↦ do
      node ← at m.heap a
      if ltb_ℤ (pos 0) delta && is_nil node.next
          then ok m
          else if ltb_ℤ delta (pos 0) && is_nil node.prev
          then ok m
          else move_revision m a delta
  ]

  -- `NextRevision` and `PrevRevision`.
  unfoldable pub next_revision : Model E → Outcome (Model E)
  unfolding seek_revision
  next_revision m = seek_revision m (pos 1)

  unfoldable pub prev_revision : Model E → Outcome (Model E)
  unfolding seek_revision
  prev_revision m = seek_revision m (negsuc 0)

  -- `SetDiffMode` and `ToggleDiffMode`.
  unfoldable pub set_diff_mode : Model E → DiffMode → Outcome (Model E)
  unfolding rerender
  set_diff_mode m mode = rerender (record m { diff_mode = mode })

  unfoldable pub toggle_diff_mode : Model E → Outcome (Model E)
  unfolding rerender
  toggle_diff_mode m = rerender (record m { diff_mode = next_diff_mode m.diff_mode })

  -- `SetViewMode` and `ToggleViewMode`.
  unfoldable pub set_view_mode : Model E → ViewMode → Outcome (Model E)
  unfolding rerender
  set_view_mode m mode = rerender (record m { view_mode = mode })

  unfoldable pub toggle_view_mode : Model E → Outcome (Model E)
  unfolding rerender
  toggle_view_mode m = rerender (record m { view_mode = next_view_mode m.view_mode })

  -- `scrollToCurrentMatch`.
  unfoldable pub scroll_to_current_match : Model E → Outcome (Model E)
  unfolding set_y_offset max_height sub64
  scroll_to_current_match m = elim (selected_at m) [
    | none ↦ ok m
    | some i ↦ do
      found ← at m.search_matches i
      ok (set_y_offset m (sub64 found.rng.start.line (half (sub64 (max_height m) (pos 1)))))
  ]

  -- `ClearSearch`.
  unfoldable pub clear_search : Model E → Outcome (Model E)
  unfolding rerender
  clear_search m =
      rerender (record m { search_term = []; search_matches = []; search_index = negsuc 0 })

  -- `SetSearchTerm`.
  unfoldable pub set_search_term : Model E → Text → Outcome (Model E)
  unfolding clear_search rerender scroll_to_current_match
  set_search_term m term =
      let cleared = clear_search m in
      let searched = (do
        m' ← rerender (record m { search_term = term })
        scroll_to_current_match m') in
      if text_beq term [] then cleared else searched

  -- The overlays that `navigateSearch` brings up to date.
  unfoldable pub update_overlays : Model E → Outcome (Model E)
  unfolding apply_side_by_side_overlays apply_search_overlays
  update_overlays m =
      let panes = apply_side_by_side_overlays m in
      let unified : Outcome (Model E) = elim m.left [
        | none ↦ ok m
        | some s ↦ apply_search_overlays m s
      ] in
      if has_panes m.view_mode && not (is_nil m.right) then panes else unified

  -- `navigateSearch`.
  unfoldable pub navigate_search : Model E → ℤ → Outcome (Model E)
  unfolding moved_index update_overlays scroll_to_current_match
  navigate_search m delta = elim m.search_matches [
    | [] ↦ ok m
    | _ ∷ _ ↦ do
      m' ←
          update_overlays
            (record m { search_index = moved_index m.search_index delta (length m.search_matches) })
      scroll_to_current_match m'
  ]

  -- `SearchNext` and `SearchPrevious`.
  unfoldable pub search_next : Model E → Outcome (Model E)
  unfolding navigate_search
  search_next m = navigate_search m (pos 1)

  unfoldable pub search_previous : Model E → Outcome (Model E)
  unfolding navigate_search
  search_previous m = navigate_search m (negsuc 0)
