-- ===== src/Viewport.antt =====
-- bubbles/yamlviewport/viewport.go: the state of the viewport, its scroll offsets, and what it uses of
-- code outside the repository.
pub mod Scroll
pub mod Matches
pub mod Render
pub mod Revisions
pub mod Update
pub mod View
pub mod Commands
use niceyaml.Prelude.{
  ℕ, zero, suc, ◌+◌, ◌/◌, Bool, true, false, not, ◌&&◌, ◌||◌, List, [], ◌∷◌, Option, none, some,
  Outcome, length, ltb, ◌==◌, if◌then◌else◌,
}
use niceyaml.Prelude.Int.{ℤ, pos, negsuc, sub_ℕ, ltb_ℤ, eqb_ℤ, min_ℤ, max_ℤ, add64, sub64}
use niceyaml.Text.{Text}
use niceyaml.Position.{Range, Span}
use niceyaml.Source.{Source, source_len, source_width, has_no_lines}
use niceyaml.Differ.{DiffResult}
use niceyaml.Revision.{Revision}

-- The struct `searchMatch`.
pub record SearchMatch : Type 0 where
  pub rng : Range
  pub in_left : Bool

-- The interfaces `Printer` and `Finder`, whose implementations the viewport is given, and what it
-- uses of lipgloss, of ansi, of bubbles' keys, and of `slices.SortFunc`, which need not be stable. A
-- call that changes an object gives its new state.
pub record Env : Type 1 where
  pub Printer : Type 0
  pub new_printer : Printer
  pub print : Printer → Source → List Span → Text
  pub set_printer_width : Printer → ℤ → Printer
  pub set_word_wrap : Printer → Bool → Printer
  pub Finder : Type 0
  pub new_finder : Finder
  pub load : Finder → Source → Finder
  pub find : Finder → Text → Outcome (List Range)
  pub Style : Type 0
  pub no_style : Style
  pub horizontal_frame : Style → ℤ
  pub vertical_frame : Style → ℤ
  pub style_width : Style → ℤ
  pub style_height : Style → ℤ
  pub render_block : Printer → ℤ → ℤ → Text → Text
  pub render_text : Printer → Text → Text
  pub render_frame : Style → Text → Text
  pub cut : Text → ℤ → ℤ → Text
  pub truncate : Text → ℤ → Text
  pub string_width : Text → ℤ
  pub Key : Type 0
  pub Binding : Type 0
  pub new_binding : List Text → Text → Text → Binding
  pub key_matches : Key → Binding → Bool
  pub sort : List SearchMatch → List SearchMatch

-- The constants of `DiffMode` and `ViewMode`. Both are integers, and no other value is ever assigned
-- inside the package.
pub data DiffMode : Type 0 where
  adjacent from_origin no_diff : DiffMode

pub data ViewMode : Type 0 where
  full hunks side_by_side : ViewMode

-- The struct `KeyMap` of keymap.go.
pub record KeyMap (E : Env) : Type 0 where
  pub page_down : Env.Binding E
  pub page_up : Env.Binding E
  pub half_page_up : Env.Binding E
  pub half_page_down : Env.Binding E
  pub down : Env.Binding E
  pub up : Env.Binding E
  pub left : Env.Binding E
  pub right : Env.Binding E
  pub next_revision : Env.Binding E
  pub prev_revision : Env.Binding E
  pub toggle_diff_mode : Env.Binding E
  pub toggle_view_mode : Env.Binding E
  pub toggle_word_wrap : Env.Binding E

-- The struct `Model`. The revisions are addresses in the heap. `left` can be the source of a revision
-- itself; `left_owner` is then the address of the revision, whose source changes with it.
pub record Model (E : Env) : Type 0 where
  pub style : Env.Style E
  pub printer : Option (Env.Printer E)
  pub finder : Option (Env.Finder E)
  pub heap : List (Revision Source)
  pub revision : Option ℕ
  pub diff_result : Option DiffResult
  pub left : Option Source
  pub left_owner : Option ℕ
  pub right : Option Source
  pub search_term : Text
  pub key_map : Option (KeyMap E)
  pub search_matches : List SearchMatch
  pub left_matches : List Range
  pub right_matches : List Range
  pub horizontal_step : ℤ
  pub diff_mode : DiffMode
  pub mouse_wheel_delta : ℤ
  pub width : ℤ
  pub search_index : ℤ
  pub y_offset : ℤ
  pub height : ℤ
  pub x_offset : ℤ
  pub view_mode : ViewMode
  pub hunk_context : ℤ
  pub fill_height : Bool
  pub mouse_wheel_enabled : Bool
  pub wrap_enabled : Bool
  pub initialized : Bool

-- `clamp`.
abbrev pub clamp_to : ℤ → ℤ → ℤ → ℤ
clamp_to v low high = min_ℤ high (max_ℤ low v)

-- `a / 2` on `int`, which rounds towards 0.
abbrev pub half : ℤ → ℤ
half (pos n) = pos (n / 2)
half (negsuc n) = sub_ℕ 0 (suc n / 2)

module _ {E : Env} where
  -- `maxWidth` and `maxHeight`.
  unfoldable pub max_width : Model E → ℤ
  unfolding sub64
  max_width m = max_ℤ (pos 0) (sub64 m.width (E.horizontal_frame m.style))

  unfoldable pub max_height : Model E → ℤ
  unfolding sub64
  max_height m = max_ℤ (pos 0) (sub64 m.height (E.vertical_frame m.style))

  -- `lineCount`.
  unfoldable pub line_count : Model E → ℤ
  line_count m = elim m.left [ none ↦ pos 0 | some s ↦ pos (source_len s) ]

  -- `maxYOffset`.
  unfoldable pub max_y_offset : Model E → ℤ
  unfolding line_count max_height sub64
  max_y_offset m =
      if eqb_ℤ (line_count m) (pos 0)
      then pos 0
      else max_ℤ (pos 0) (sub64 (line_count m) (max_height m))

  -- `maxXOffset`.
  unfoldable pub max_x_offset : Model E → ℤ
  unfolding source_width max_width sub64
  max_x_offset m = elim m.left [
    | none ↦ pos 0
    | some s ↦ max_ℤ (pos 0) (sub64 (pos (source_width s)) (max_width m))
  ]

  -- `hasContent`.
  abbrev pub has_content : Model E → Bool
  has_content m = elim m.left [ none ↦ false | some s ↦ not (has_no_lines s) ]

  -- `SetYOffset`.
  unfoldable pub set_y_offset : Model E → ℤ → Model E
  unfolding max_y_offset
  set_y_offset m n = record m { y_offset = clamp_to n (pos 0) (max_y_offset m) }

  -- `SetXOffset`.
  unfoldable pub set_x_offset : Model E → ℤ → Model E
  unfolding max_x_offset
  set_x_offset m n = record m { x_offset = clamp_to n (pos 0) (max_x_offset m) }

  -- `AtTop`.
  unfoldable pub at_top : Model E → Bool
  at_top m = not (has_content m) || not (ltb_ℤ (pos 0) m.y_offset)

  -- `AtBottom`.
  unfoldable pub at_bottom : Model E → Bool
  unfolding max_y_offset
  at_bottom m = not (has_content m) || not (ltb_ℤ m.y_offset (max_y_offset m))

  -- `PastBottom`.
  unfoldable pub past_bottom : Model E → Bool
  unfolding max_y_offset
  past_bottom m = has_content m && ltb_ℤ (max_y_offset m) m.y_offset

  -- `ScrollDown`.
  unfoldable pub scroll_down : Model E → ℤ → Model E
  unfolding at_bottom set_y_offset add64
  scroll_down m n =
      if at_bottom m || eqb_ℤ n (pos 0) then m else set_y_offset m (add64 m.y_offset n)

  -- `ScrollUp`.
  unfoldable pub scroll_up : Model E → ℤ → Model E
  unfolding at_top set_y_offset sub64
  scroll_up m n = if at_top m || eqb_ℤ n (pos 0) then m else set_y_offset m (sub64 m.y_offset n)

  -- `PageDown`, `PageUp`, `HalfPageDown` and `HalfPageUp`.
  unfoldable pub page_down : Model E → Model E
  unfolding scroll_down max_height
  page_down m = scroll_down m (max_height m)

  unfoldable pub page_up : Model E → Model E
  unfolding scroll_up max_height
  page_up m = scroll_up m (max_height m)

  unfoldable pub half_page_down : Model E → Model E
  unfolding scroll_down max_height
  half_page_down m = scroll_down m (half (max_height m))

  unfoldable pub half_page_up : Model E → Model E
  unfolding scroll_up max_height
  half_page_up m = scroll_up m (half (max_height m))

  -- `ScrollLeft` and `ScrollRight`.
  unfoldable pub scroll_left : Model E → ℤ → Model E
  unfolding set_x_offset sub64
  scroll_left m n = set_x_offset m (sub64 m.x_offset n)

  unfoldable pub scroll_right : Model E → ℤ → Model E
  unfolding set_x_offset add64
  scroll_right m n = set_x_offset m (add64 m.x_offset n)

  -- `GotoTop` and `GotoBottom`.
  unfoldable pub goto_top : Model E → Model E
  unfolding set_y_offset
  goto_top m = set_y_offset m (pos 0)

  unfoldable pub goto_bottom : Model E → Model E
  unfolding set_y_offset max_y_offset
  goto_bottom m = set_y_offset m (max_y_offset m)

  -- `SetHorizontalStep`, `SetHunkContext` and `SetHeight`.
  unfoldable pub set_horizontal_step : Model E → ℤ → Model E
  set_horizontal_step m n = record m { horizontal_step = max_ℤ (pos 0) n }

  unfoldable pub set_hunk_context : Model E → ℤ → Model E
  set_hunk_context m n = record m { hunk_context = max_ℤ (pos 0) n }

  unfoldable pub set_height : Model E → ℤ → Model E
  set_height m h = record m { height = h }
