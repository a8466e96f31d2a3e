-- ===== src/Viewport/Commands.antt =====
-- bubbles/yamlviewport/viewport.go: all calls that change a viewport, as commands, and their runs.
pub mod Scrolled
pub mod Invariant
pub mod Rerender
pub mod Display
pub mod Searching
pub mod Messages
pub mod Runs
use niceyaml.Prelude.{ℕ, List, [], ◌∷◌, Outcome, ok, ◌>>=◌}
use niceyaml.Prelude.Int.{ℤ}
use niceyaml.Text.{Text}
use niceyaml.Source.{Source}
use niceyaml.Viewport.{
  Env, Model, DiffMode, ViewMode, set_height, set_y_offset, set_x_offset, scroll_down, scroll_up,
  page_down, page_up, half_page_down, half_page_up, scroll_left, scroll_right, goto_top,
  goto_bottom, set_horizontal_step, set_hunk_context,
}
use niceyaml.Viewport.Revisions.{
  set_width, set_printer, toggle_word_wrap, add_revision, clear_revisions, set_tokens,
  goto_revision, next_revision, prev_revision, set_diff_mode, toggle_diff_mode, set_view_mode,
  toggle_view_mode, set_search_term, clear_search, search_next, search_previous,
}
use niceyaml.Viewport.View.{viewed}
use niceyaml.Viewport.Update.{Message, update}

-- The exported methods that change the viewport, and its messages. `redraw` is `View`.
pub data Command (E : Env) : Type 0 where
  resize_width resize_height : ℤ → Command E
  use_printer : Env.Printer E → Command E
  replace_tokens push_revision : Source → Command E
  drop_revisions : Command E
  visit_revision : ℤ → Command E
  forward_revision back_revision : Command E
  use_diff_mode : DiffMode → Command E
  cycle_diff_mode : Command E
  use_view_mode : ViewMode → Command E
  cycle_view_mode cycle_word_wrap : Command E
  use_hunk_context use_horizontal_step : ℤ → Command E
  move_y move_x : ℤ → Command E
  move_down move_up move_left move_right : ℤ → Command E
  page_forward page_back half_forward half_back jump_top jump_bottom : Command E
  look_for : Text → Command E
  stop_search next_match previous_match : Command E
  redraw : Command E
  message : Message E → Command E

module _ {E : Env} where
  unfoldable pub command : Command E → Model E → Outcome (Model E)
  command (resize_width w) m = set_width m w
  command (resize_height h) m = ok (set_height m h)
  command (use_printer p) m = set_printer m p
  command (replace_tokens s) m = set_tokens m s
  command (push_revision s) m = add_revision m s
  command drop_revisions m = clear_revisions m
  command (visit_revision i) m = goto_revision m i
  command forward_revision m = next_revision m
  command back_revision m = prev_revision m
  command (use_diff_mode mode) m = set_diff_mode m mode
  command cycle_diff_mode m = toggle_diff_mode m
  command (use_view_mode mode) m = set_view_mode m mode
  command cycle_view_mode m = toggle_view_mode m
  command cycle_word_wrap m = toggle_word_wrap m
  command (use_hunk_context n) m = ok (set_hunk_context m n)
  command (use_horizontal_step n) m = ok (set_horizontal_step m n)
  command (move_y n) m = ok (set_y_offset m n)
  command (move_x n) m = ok (set_x_offset m n)
  command (move_down n) m = ok (scroll_down m n)
  command (move_up n) m = ok (scroll_up m n)
  command (move_left n) m = ok (scroll_left m n)
  command (move_right n) m = ok (scroll_right m n)
  command page_forward m = ok (page_down m)
  command page_back m = ok (page_up m)
  command half_forward m = ok (half_page_down m)
  command half_back m = ok (half_page_up m)
  command jump_top m = ok (goto_top m)
  command jump_bottom m = ok (goto_bottom m)
  command (look_for term) m = set_search_term m term
  command stop_search m = clear_search m
  command next_match m = search_next m
  command previous_match m = search_previous m
  command redraw m = viewed m
  command (message msg) m = update m msg

  unfoldable pub run : List (Command E) → Model E → Outcome (Model E)
  unfolding command
  run [] m = ok m
  run (c ∷ cs) m = command c m >>= run cs
