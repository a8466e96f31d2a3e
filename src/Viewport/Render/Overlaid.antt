-- ===== src/Viewport/Render/Overlaid.antt =====
-- bubbles/yamlviewport/viewport.go: the matches of a search in one pane and in two, and their overlays.
use niceyaml.Prelude.{
  ℕ, zero, suc, ◌+◌, Bool, true, false, not, ◌&&◌, ◌||◌, List, [], ◌∷◌, Option, none, some, Outcome,
  ok, panic, ◌>>=◌, at, put, of_option, length, if◌then◌else◌,
}
use niceyaml.Prelude.Int.{ℤ, pos, negsuc, ltb_ℤ, eqb_ℤ}
use niceyaml.Text.{Text}
use niceyaml.Position.{Position, Range, position_beq}
use niceyaml.Diff.{Flag, default}
use niceyaml.Diff.Hirschberg.{new_hirschberg}
use niceyaml.Line.{Line}
use niceyaml.Source.{Source, add_source_overlay, clear_source_overlays}
use niceyaml.Differ.{DiffResult, compute_ops, diff_result}
use niceyaml.Revision.{Revision}
use niceyaml.Viewport.{SearchMatch, DiffMode, no_diff, ViewMode, side_by_side}

-- `style.GenericHighlight` and `style.GenericHighlightDim`.
abbrev pub generic_highlight : Text
generic_highlight =
    103 ∷ 101 ∷ 110 ∷ 101 ∷ 114 ∷ 105 ∷ 99 ∷ 72 ∷ 105 ∷ 103 ∷ 104 ∷ 108 ∷ 105 ∷ 103 ∷ 104 ∷ 116 ∷ []

abbrev pub generic_highlight_dim : Text
generic_highlight_dim =
    103 ∷ 101 ∷ 110 ∷ 101 ∷ 114 ∷ 105 ∷ 99 ∷ 72 ∷ 105 ∷ 103 ∷ 104 ∷ 108 ∷ 105 ∷ 103 ∷ 104 ∷ 116 ∷ 68
    ∷ 105 ∷ 109 ∷ []

-- The loop of `applySearchOverlays` from the match `i` on.
unfoldable pub overlay_matches : ℤ → ℕ → List SearchMatch → Source → Outcome Source
unfolding add_source_overlay
overlay_matches index i [] s = ok s
overlay_matches index i (m ∷ ms) s = do
  s' ←
      add_source_overlay (if eqb_ℤ (pos i) index then generic_highlight else generic_highlight_dim)
        s (m.rng ∷ [])
  overlay_matches index (i + 1) ms s'

-- The adjustment at the end of both updates of the search state.
unfoldable pub adjust_index : ℕ → ℤ → ℤ
adjust_index zero index = negsuc 0
adjust_index (suc n) index =
    if not (ltb_ℤ index (pos (suc n))) || ltb_ℤ index (pos 0) then pos 0 else index

-- Whether a line is there and has no flag. A negative index panics.
abbrev is_default : Flag → Bool
is_default default = true
is_default _ = false

unfoldable pub on_equal_line : List Line → Position → Outcome Bool
on_equal_line lines p = elim p.line [
  | pos i ↦
      let equal = (do l ← at lines i; ok (is_default l.flag)) in
      if ltb_ℤ (pos i) (pos (length lines)) then equal else ok false
  | negsuc _ ↦ panic
]

-- The first loop of `updateSideBySideSearchState`: the keys of `equalLinePositions`.
unfoldable pub equal_positions : List Line → List Range → Outcome (List Position)
unfolding on_equal_line
equal_positions lines [] = ok []
equal_positions lines (r ∷ rs) = do
  equal ← on_equal_line lines r.start
  rest ← equal_positions lines rs
  ok (if equal then r.start ∷ rest else rest)

abbrev pub is_member : Position → List Position → Bool
is_member p [] = false
is_member p (q ∷ qs) = position_beq p q || is_member p qs

abbrev pub search_match : Bool → Range → SearchMatch
search_match in_left r = record { rng = r; in_left = in_left }

-- The second loop.
unfoldable pub right_only : List Position → List Range → List SearchMatch
right_only equal [] = []
right_only equal (r ∷ rs) =
    let rest = right_only equal rs in
    if is_member r.start equal then rest else search_match false r ∷ rest

-- The loop of `applySideBySidePaneOverlays`.
unfoldable overlay_pane : Position → Bool → List Range → Source → Outcome Source
unfolding add_source_overlay
overlay_pane selected show_selected [] s = ok s
overlay_pane selected show_selected (r ∷ rs) s = do
  s' ←
      add_source_overlay
        (if position_beq r.start selected && show_selected
          then generic_highlight
          else generic_highlight_dim)
        s (r ∷ [])
  overlay_pane selected show_selected rs s'

-- `applySideBySidePaneOverlays`.
unfoldable pub pane_overlays :
    Option Source → List Range → Position → Bool → Outcome (Option Source)
unfolding overlay_pane clear_source_overlays
pane_overlays none matches selected show_selected = ok none
pane_overlays (some s) matches selected show_selected = do
  s' ← overlay_pane selected show_selected matches (clear_source_overlays s)
  ok (some s')

abbrev pub lines_of : Option Source → Outcome (List Line)
lines_of none = panic
lines_of (some s) = ok s.lines

abbrev pub shows_diffs : DiffMode → Bool
shows_diffs no_diff = false
shows_diffs _ = true

-- `niceyaml.Diff` of two revisions, of which neither may be nil.
unfoldable pub diff_of : List (Revision Source) → Option ℕ → Option ℕ → Outcome DiffResult
unfolding compute_ops diff_result
diff_of heap base revision = do
  a ← of_option base
  b ← of_option revision
  before ← at heap a
  after ← at heap b
  (_, ops) ← compute_ops new_hirschberg before.head.lines after.head.lines
  ok (diff_result before.head.name after.head.name ops)

abbrev pub made_source : Text → List Line → Source
made_source name lines = record { name = name; file_path = []; lines = lines }

abbrev pub has_panes : ViewMode → Bool
has_panes side_by_side = true
has_panes _ = false

-- Writes to `*m.left` are writes to the revision's source where it owns it.
unfoldable pub stored :
    List (Revision Source) → Option ℕ → Source → Outcome (List (Revision Source))
stored heap none s = ok heap
stored heap (some a) s = do node ← at heap a; put heap a (record node { head = s })
