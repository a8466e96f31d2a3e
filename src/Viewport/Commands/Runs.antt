-- ===== src/Viewport/Commands/Runs.antt =====
-- Every command, and every run of commands from a new viewport, keeps what holds of a viewport.
use niceyaml.Prelude.{◌≡◌, refl, List, [], ◌∷◌, ok, Option, bind_ok, arith}
use niceyaml.Prelude.Int.{ℤ, pos}
use niceyaml.Viewport.{
  Env, Model, set_height, set_hunk_context, set_horizontal_step, page_down, page_up, half_page_down,
  half_page_up, scroll_down, scroll_up, scroll_left, scroll_right, set_y_offset, set_x_offset,
  goto_top, goto_bottom,
}
use niceyaml.Viewport.View.{view, viewed}
use niceyaml.Viewport.Update.{
  set_initial_values, new_model, ModelOption, with_printer, with_style, with_finder,
  apply_model_options, apply_option, zero_model,
}
use niceyaml.Viewport.Commands.{Command, command, run}
use niceyaml.Viewport.Commands.Invariant.{IsBounded, IsCoherent}
use niceyaml.Viewport.Commands.Display.{
  set_width-IsCoherent, set_printer-IsCoherent, toggle_word_wrap-IsCoherent,
  add_revision-IsCoherent, clear_revisions-IsCoherent, set_tokens-IsCoherent,
  goto_revision-IsCoherent, goto_top-IsCoherent, goto_bottom-IsCoherent,
}
use niceyaml.Viewport.Commands.Scrolled.{
  set_y_offset-IsCoherent, set_x_offset-IsCoherent, scroll_down-IsCoherent, scroll_up-IsCoherent,
  scroll_left-IsCoherent, scroll_right-IsCoherent,
}
use niceyaml.Viewport.Commands.Searching.{clear_search-IsCoherent, set_search_term-IsCoherent}
use niceyaml.Viewport.Commands.Messages.{
  next_revision-IsCoherent, prev_revision-IsCoherent, set_diff_mode-IsCoherent,
  set_view_mode-IsCoherent, toggle_diff_mode-IsCoherent, toggle_view_mode-IsCoherent,
  page_down-IsCoherent, page_up-IsCoherent, half_page_down-IsCoherent, half_page_up-IsCoherent,
  search_next-IsCoherent, search_previous-IsCoherent, returned, update-IsCoherent,
}

module _ {E : Env} (b : IsBounded E) where
  set_height-IsCoherent : (m : Model E) (z : ℤ) → IsCoherent m → IsCoherent (set_height m z)
  unfolding set_height
  set_height-IsCoherent m z w = w

  set_hunk_context-IsCoherent :
      (m : Model E) (z : ℤ) → IsCoherent m → IsCoherent (set_hunk_context m z)
  unfolding set_hunk_context
  set_hunk_context-IsCoherent m z w = w

  set_horizontal_step-IsCoherent :
      (m : Model E) (z : ℤ) → IsCoherent m → IsCoherent (set_horizontal_step m z)
  unfolding set_horizontal_step
  set_horizontal_step-IsCoherent m z w = w

  viewed-IsCoherent : (m m' : Model E) → IsCoherent m → viewed m ≡ ok m' → IsCoherent m'
  unfolding viewed
  viewed-IsCoherent m m' w h =
      let ((t, p), _, same) =
        bind_ok (view m) (λ r. let (t, p) = r in ok (record m { printer = p })) h in
      returned (record m { printer = p }) m' (reprinted p) same
    where
      reprinted : (p : Option (Env.Printer E)) → IsCoherent (record m { printer = p })
      reprinted p = w

  pub command-IsCoherent :
      (c : Command E) (m m' : Model E) → IsCoherent m → command c m ≡ ok m' → IsCoherent m'
  unfolding command
  command-IsCoherent (Command.resize_width z) m m' w h = set_width-IsCoherent b m z m' w h
  command-IsCoherent (Command.resize_height z) m m' w h =
      returned (set_height m z) m' (set_height-IsCoherent m z w) h
  command-IsCoherent (Command.use_printer p) m m' w h = set_printer-IsCoherent b m p m' w h
  command-IsCoherent (Command.replace_tokens s) m m' w h = set_tokens-IsCoherent b m s m' w h
  command-IsCoherent (Command.push_revision s) m m' w h = add_revision-IsCoherent b m s m' w h
  command-IsCoherent Command.drop_revisions m m' w h = clear_revisions-IsCoherent b m m' w h
  command-IsCoherent (Command.visit_revision i) m m' w h = goto_revision-IsCoherent b m i m' w h
  command-IsCoherent Command.forward_revision m m' w h = next_revision-IsCoherent b m m' w h
  command-IsCoherent Command.back_revision m m' w h = prev_revision-IsCoherent b m m' w h
  command-IsCoherent (Command.use_diff_mode mode) m m' w h =
      set_diff_mode-IsCoherent b m mode m' w h
  command-IsCoherent Command.cycle_diff_mode m m' w h = toggle_diff_mode-IsCoherent b m m' w h
  command-IsCoherent (Command.use_view_mode mode) m m' w h =
      set_view_mode-IsCoherent b m mode m' w h
  command-IsCoherent Command.cycle_view_mode m m' w h = toggle_view_mode-IsCoherent b m m' w h
  command-IsCoherent Command.cycle_word_wrap m m' w h = toggle_word_wrap-IsCoherent b m m' w h
  command-IsCoherent (Command.use_hunk_context n) m m' w h =
      returned (set_hunk_context m n) m' (set_hunk_context-IsCoherent m n w) h
  command-IsCoherent (Command.use_horizontal_step n) m m' w h =
      returned (set_horizontal_step m n) m' (set_horizontal_step-IsCoherent m n w) h
  command-IsCoherent (Command.move_y n) m m' w h =
      returned (set_y_offset m n) m' (set_y_offset-IsCoherent m n w) h
  command-IsCoherent (Command.move_x n) m m' w h =
      returned (set_x_offset m n) m' (set_x_offset-IsCoherent m n w) h
  command-IsCoherent (Command.move_down n) m m' w h =
      returned (scroll_down m n) m' (scroll_down-IsCoherent m n w) h
  command-IsCoherent (Command.move_up n) m m' w h =
      returned (scroll_up m n) m' (scroll_up-IsCoherent m n w) h
  command-IsCoherent (Command.move_left n) m m' w h =
      returned (scroll_left m n) m' (scroll_left-IsCoherent m n w) h
  command-IsCoherent (Command.move_right n) m m' w h =
      returned (scroll_right m n) m' (scroll_right-IsCoherent m n w) h
  command-IsCoherent Command.page_forward m m' w h =
      returned (page_down m) m' (page_down-IsCoherent b m w) h
  command-IsCoherent Command.page_back m m' w h =
      returned (page_up m) m' (page_up-IsCoherent b m w) h
  command-IsCoherent Command.half_forward m m' w h =
      returned (half_page_down m) m' (half_page_down-IsCoherent b m w) h
  command-IsCoherent Command.half_back m m' w h =
      returned (half_page_up m) m' (half_page_up-IsCoherent b m w) h
  command-IsCoherent Command.jump_top m m' w h =
      returned (goto_top m) m' (goto_top-IsCoherent b m w) h
  command-IsCoherent Command.jump_bottom m m' w h =
      returned (goto_bottom m) m' (goto_bottom-IsCoherent b m w) h
  command-IsCoherent (Command.look_for term) m m' w h = set_search_term-IsCoherent b m term m' w h
  command-IsCoherent Command.stop_search m m' w h = clear_search-IsCoherent b m m' w h
  command-IsCoherent Command.next_match m m' w h = search_next-IsCoherent b m m' w h
  command-IsCoherent Command.previous_match m m' w h = search_previous-IsCoherent b m m' w h
  command-IsCoherent Command.redraw m m' w h = viewed-IsCoherent m m' w h
  command-IsCoherent (Command.message msg) m m' w h = update-IsCoherent b m msg m' w h

  run-kept :
      (cs : List (Command E)) (m m' : Model E) → IsCoherent m → run cs m ≡ ok m' → IsCoherent m'
  unfolding run
  run-kept [] m m' w h = returned m m' w h
  run-kept (c ∷ cs) m m' w h =
      let (m₁, step, h₁) = bind_ok (command c m) (run cs) h in
      run-kept cs m₁ m' (command-IsCoherent c m m₁ w step) h₁

-- What the options leave as it is.
abbrev IsFresh : {E : Env} → Model E → Type 0
IsFresh m = (m.search_matches ≡ []) × (m.y_offset ≡ pos 0) × (m.x_offset ≡ pos 0)

apply_options-IsFresh :
    {E : Env} (opts : List (ModelOption E)) (m : Model E)
    → IsFresh m
    → IsFresh (apply_model_options opts m)
apply_options-IsFresh [] m h = h
apply_options-IsFresh (with_printer p ∷ opts) m h =
    apply_options-IsFresh opts (apply_option (with_printer p) m) h
apply_options-IsFresh (with_style s ∷ opts) m h =
    apply_options-IsFresh opts (apply_option (with_style s) m) h
apply_options-IsFresh (with_finder f ∷ opts) m h =
    apply_options-IsFresh opts (apply_option (with_finder f) m) h

pub new_model-IsCoherent :
    {E : Env} (opts : List (ModelOption E)) → IsCoherent (new_model {E = E} opts)
unfolding new_model set_initial_values
new_model-IsCoherent {E} opts =
    let (none_found, y, x) = apply_options-IsFresh opts (zero_model {E = E}) (refl, refl, refl) in
    record {
      selected = rw none_found refl;
      searched = λ _. none_found;
      few = rw none_found (omega arith);
      above = rw y (omega arith);
      beside = rw x (omega arith);
      set_up = refl;
    }

-- In every state that a new viewport reaches, by any calls of its methods and any messages, the
-- selected match is one of the matches found, or the index is -1 and there are none; without a
-- search term there are no matches; and neither offset is negative. This holds where a search finds
-- fewer than 2 ^ 61 ranges and sorting keeps their number.
pub run-IsCoherent :
    {E : Env}
    → IsBounded E
    → (opts : List (ModelOption E)) (cs : List (Command E)) (m : Model E)
    → run cs (new_model opts) ≡ ok m
    → IsCoherent m
run-IsCoherent b opts cs m h = run-kept b cs (new_model opts) m (new_model-IsCoherent opts) h
