-- ===== src/Viewport/View.antt =====
-- bubbles/yamlviewport/viewport.go: what the viewport shows.
pub mod Visible
use niceyaml.Prelude.{
  ℕ, zero, suc, ◌+◌, ◌-◌, ◌%◌, Bool, true, false, not, ◌&&◌, List, [], ◌∷◌, ◌++◌, map, Option, none,
  some, Outcome, ok, panic, ◌>>=◌, of_option, length, take, replicate, get_elem?, ltb, ◌==◌,
  if◌then◌else◌,
}
use niceyaml.Prelude.Int.{ℤ, pos, negsuc, pos_part, ltb_ℤ, eqb_ℤ, min_ℤ, max_ℤ, add64, sub64}
use niceyaml.Text.{Text, newline, space, text_beq, trim_suffix}
use niceyaml.Position.{Span, new_span}
use niceyaml.Line.{Line}
use niceyaml.Source.{Source, source_len}
use niceyaml.Differ.{hunks}
use niceyaml.Viewport.{
  Env, Model, ViewMode, full, hunks as hunks_mode, side_by_side, half, max_width, max_height,
}
use niceyaml.Viewport.Render.{resolve_revision_source, found_diff}
use niceyaml.Viewport.Render.Overlaid.{made_source}

-- `strings.Split(s, "\n")`, with the bytes of the first line.
abbrev pub split_newlines : Text → Text → List Text
split_newlines line [] = line ∷ []
split_newlines line (c ∷ s) =
    let next = split_newlines [] s in
    let same = split_newlines (line ++ c ∷ []) s in if c == newline then line ∷ next else same

-- `splitLines`, whose nil is `none`.
unfoldable pub split_lines : Text → Option (List Text)
split_lines [] = none
split_lines (c ∷ s) = some (split_newlines [] (trim_suffix newline (c ∷ s)))

-- `strings.Join(lines, "\n")`.
abbrev join_rest : List Text → Text
join_rest [] = []
join_rest (l ∷ ls) = newline ∷ l ++ join_rest ls

abbrev pub join_lines : List Text → Text
join_lines [] = []
join_lines (l ∷ ls) = l ++ join_rest ls

abbrev pub or_empty : Option (List Text) → List Text
or_empty none = []
or_empty (some ls) = ls

abbrev pub text_at : List Text → ℕ → Text
text_at ls i = elim (get_elem? ls i) [ none ↦ [] | some l ↦ l ]

-- The separator of the panes.
abbrev pub separator : Text
separator = 32 ∷ 226 ∷ 148 ∷ 130 ∷ 32 ∷ []

-- `max(len(leftLines), len(rightLines))`.
abbrev pub longest : List Text → List Text → ℕ
longest left right = if ltb (length left) (length right) then length right else length left

-- The text of what is printed.
abbrev pub text_of : {A : Type 0} → Outcome (Text × A) → Outcome Text
text_of printed = do (t, _) ← printed; ok t

module _ {E : Env} where
  -- `renderVisible`, whose nil is `none`.
  unfoldable pub render_visible : Model E → Outcome (Option (List Text))
  unfolding max_height add64 split_lines
  render_visible m = elim m.left [
    | none ↦ ok none
    | some s ↦
        let end = min_ℤ (add64 m.y_offset (max_height m)) (pos (source_len s)) in
        let shown = (do
          printer ← of_option m.printer
          ok (split_lines (E.print printer s (new_span m.y_offset end ∷ [])))) in
        if ltb_ℤ m.y_offset end then shown else ok none
  ]

  -- The end of `visibleLines`, for lines that are there.
  unfoldable pub fit_lines : Model E → ℕ → List Text → List Text
  unfolding max_width add64
  fit_lines m height lines =
      let kept = take height lines in
      let padded = if m.fill_height then kept ++ replicate (height - length kept) [] else kept in
      if m.wrap_enabled
      then padded
      else map (λ l. E.cut l m.x_offset (add64 m.x_offset (max_width m))) padded

  abbrev pub blank_lines : Model E → ℕ → List Text
  blank_lines m height = if m.fill_height then replicate height [] else []

  abbrev pub fitted : Model E → ℕ → List Text → List Text
  fitted m height [] = blank_lines m height
  fitted m height (l ∷ ls) = fit_lines m height (l ∷ ls)

  -- `visibleLines`. The height is not negative.
  unfoldable pub visible_lines : Model E → Option (List Text) → Outcome (List Text)
  unfolding max_height max_width render_visible fit_lines
  visible_lines m lines =
      let shown : Outcome (Option (List Text)) = elim lines [
        | none ↦ render_visible m
        | some ls ↦ ok (some ls)
      ] in
      if eqb_ℤ (max_height m) (pos 0)
      then ok []
      else if eqb_ℤ (max_width m) (pos 0)
      then ok []
      else (do ls ← shown; ok (fitted m (pos_part (max_height m)) (or_empty ls)))

  -- `VisibleLineCount`.
  unfoldable pub visible_line_count : Model E → Outcome ℕ
  unfolding visible_lines
  visible_line_count m = do ls ← visible_lines m none; ok (length ls)

  -- `getViewDimensions`; `none` where it is not ok.
  unfoldable pub get_view_dimensions : Model E → Option (ℤ × ℤ)
  unfolding sub64
  get_view_dimensions m =
      let sw = E.style_width m.style in
      let sh = E.style_height m.style in
      let w = if eqb_ℤ sw (pos 0) then m.width else min_ℤ m.width sw in
      let h = if eqb_ℤ sh (pos 0) then m.height else min_ℤ m.height sh in
      if eqb_ℤ w (pos 0)
      then none
      else if eqb_ℤ h (pos 0)
      then none
      else some (sub64 w (E.horizontal_frame m.style), sub64 h (E.vertical_frame m.style))

  -- `renderContent`. The text style is the printer's.
  unfoldable pub render_content : Model E → List Text → ℤ → ℤ → Outcome Text
  render_content m lines w h = do
    printer ← of_option m.printer
    ok (E.render_frame m.style (E.render_block printer w h (join_lines lines)))

  -- `getHunksDiffContent`. `View` works on a copy, so that the cache is not kept.
  unfoldable pub get_hunks_diff_content : Model E → Outcome Text
  unfolding resolve_revision_source found_diff hunks
  get_hunks_diff_content m = do
    (source, needs_diff) ← resolve_revision_source m
    if needs_diff then hunks_content else plain_content source
    where
      hunks_content : Outcome Text
      hunks_content = do
        r ← found_diff m
        (lines, spans) ← hunks r m.hunk_context
        printer ← of_option m.printer
        ok (E.print printer (made_source r.name lines) spans)

      plain_content : Option (ℕ × Source) → Outcome Text
      plain_content none = ok []
      plain_content (some (_, s)) = do printer ← of_option m.printer; ok (E.print printer s [])

  -- One row of the two panes: the left pane, padded, the separator and the right pane.
  unfoldable pub pane_row : Model E → Env.Printer E → ℤ → ℕ → Text → Text → Text
  unfolding add64 sub64
  pane_row m printer pane_width extra left right =
      let shown = λ (l : Text).
        if m.wrap_enabled then l else E.cut l m.x_offset (add64 m.x_offset pane_width) in
      let padded = E.truncate (shown left) pane_width in
      let padding = sub64 pane_width (E.string_width padded) in
      let blanks = E.render_text printer (replicate (pos_part padding) space) in
      (if ltb_ℤ (pos 0) padding then padded ++ blanks else padded)
      ++ E.render_text printer (separator ++ replicate extra space)
      ++ shown right

  -- The loop over the rows, `count` rounds from `i`.
  unfoldable pub pane_rows :
      Model E → Env.Printer E → ℤ → ℕ → List Text → List Text → ℕ → ℕ → List Text
  unfolding pane_row
  pane_rows m printer pane_width extra left right i zero = []
  pane_rows m printer pane_width extra left right i (suc count) =
      pane_row m printer pane_width extra (text_at left i) (text_at right i)
      ∷ pane_rows m printer pane_width extra left right (i + 1) count

  -- The number of rows.
  abbrev pub row_count : Model E → ℕ → ℤ → ℕ
  row_count m longest content_h =
      if m.fill_height && ltb_ℤ (pos longest) content_h then pos_part content_h else longest

  -- What is printed, with the printer as it was. The model of `View` is a copy, but its printer is
  -- the one that the viewport has.
  abbrev pub kept : Model E → Outcome Text → Outcome (Text × Option (Env.Printer E))
  kept m printed = do t ← printed; ok (t, m.printer)

  -- The rows of both panes over a span, and the printer, which the viewport has with the width of a
  -- pane from then on.
  unfoldable pub render_panes_span :
      Model E → Source → Source → Span → ℤ → ℕ → ℤ → ℤ → Outcome (Text × Option (Env.Printer E))
  unfolding split_lines pane_rows render_content
  render_panes_span m left right span pane_width extra content_w content_h = do
    p ← of_option m.printer
    let printer = E.set_printer_width (E.set_word_wrap p m.wrap_enabled) pane_width
    let left_lines = or_empty (split_lines (E.print printer left (span ∷ [])))
    let right_lines = or_empty (split_lines (E.print printer right (span ∷ [])))
    let rows = row_count m (longest left_lines right_lines) content_h
    let set = record m { printer = some printer }
    kept set (
        render_content set (pane_rows m printer pane_width extra left_lines right_lines 0 rows)
          content_w content_h)

  -- `renderSideBySide` for the sources of both panes.
  unfoldable pub render_sources :
      Model E → Source → Source → ℤ → ℤ → Outcome (Text × Option (Env.Printer E))
  unfolding max_height add64 sub64 render_panes_span render_content
  render_sources m left right content_w content_h =
      let available = sub64 content_w (E.string_width separator) in
      let pane_width = half available in
      let end = min_ℤ (add64 m.y_offset (max_height m)) (pos (source_len left)) in
      if ltb_ℤ pane_width (pos 1)
      then kept m (render_content m [] content_w content_h)
      else if ltb_ℤ m.y_offset end
      then render_panes_span m left right (new_span m.y_offset end) pane_width
          (pos_part available % 2) content_w content_h
      else kept m (render_content m [] content_w content_h)

  -- `renderSideBySide`. The sources of a diff are there where one is shown.
  unfoldable pub render_side_by_side : Model E → ℤ → ℤ → Outcome (Text × Option (Env.Printer E))
  unfolding resolve_revision_source render_sources render_content
  render_side_by_side m content_w content_h = do
    (source, needs_diff) ← resolve_revision_source m
    if needs_diff then of_panes m.left m.right else of_source source
    where
      of_panes : Option Source → Option Source → Outcome (Text × Option (Env.Printer E))
      of_panes none right = panic
      of_panes (some left) none = panic
      of_panes (some left) (some right) = render_sources m left right content_w content_h

      of_source : Option (ℕ × Source) → Outcome (Text × Option (Env.Printer E))
      of_source none = kept m (render_content m [] content_w content_h)
      of_source (some (_, s)) = render_sources m s s content_w content_h

  -- The lines of `View` in hunks mode.
  unfoldable pub hunk_lines : Model E → Outcome (List Text)
  unfolding get_hunks_diff_content split_lines visible_lines
  hunk_lines m = do content ← get_hunks_diff_content m; visible_lines m (split_lines content)

  -- The switch of `View`.
  unfoldable pub view_in : Model E → ℤ → ℤ → ViewMode → Outcome (Text × Option (Env.Printer E))
  unfolding hunk_lines render_side_by_side visible_lines render_content
  view_in m w h hunks_mode = kept m (do lines ← hunk_lines m; render_content m lines w h)
  view_in m w h side_by_side = render_side_by_side m w h
  view_in m w h full = kept m (do lines ← visible_lines m none; render_content m lines w h)

  abbrev pub view_sized :
      Model E → ViewMode → Option (ℤ × ℤ) → Outcome (Text × Option (Env.Printer E))
  view_sized m mode none = ok ([], m.printer)
  view_sized m mode (some (w, h)) = view_in m w h mode

  -- `View`: the text, and the printer of the viewport after it.
  unfoldable pub view : Model E → Outcome (Text × Option (Env.Printer E))
  unfolding get_view_dimensions view_in
  view m = view_sized m m.view_mode (get_view_dimensions m)

  -- The text of `View`.
  unfoldable pub view_text : Model E → Outcome Text
  unfolding view
  view_text m = text_of (view m)

  -- The viewport after `View`.
  unfoldable pub viewed : Model E → Outcome (Model E)
  unfolding view
  viewed m = do (_, p) ← view m; ok (record m { printer = p })
