-- ===== src/Examples/Viewports.antt =====
-- A viewport on two lines, with a finder that finds the first column of both.
use niceyaml.Prelude.{
  ℕ, suc, ◌+◌, ◌-◌, ◌%◌, ◌≤◌, ◌<◌, ◌≡◌, ◌⊎◌, refl, subst, true, false, List, [], ◌∷◌, none, some,
  Outcome, ok, ok_injective, length, arith,
}
use niceyaml.Prelude.Int.{pos}
use niceyaml.Text.{Text}
use niceyaml.Position.{Range, new_position, new_range}
use niceyaml.Viewport
use niceyaml.Viewport.{Env, Model, SearchMatch, hunks, full}
use niceyaml.Viewport.Update.{new_model, zero_model}
use niceyaml.Viewport.Scroll.{IsSized, scroll_all, at_line, scroll_all-window}
use niceyaml.Viewport.Scroll.Window.{
  Scrolling, down, up, page_forward, half_back, to_bottom, scrolled_all, limit,
}
use niceyaml.Viewport.Matches.{IsSearching}
use niceyaml.Viewport.Matches.Cycle.{Selects, search-IsPrinted, next_times, next_times-reaches}
use niceyaml.Viewport.Revisions.{
  search_next, search_previous, set_width, add_revision, toggle_view_mode, set_search_term,
}
use niceyaml.Viewport.Commands.{Command, run}
use niceyaml.Viewport.Commands.Invariant.{IsBounded, IsCoherent}
use niceyaml.Viewport.Commands.Runs.{run-IsCoherent}
use niceyaml.Viewport.View.{view_text, viewed, get_hunks_diff_content, visible_lines}
use niceyaml.Viewport.View.Visible.{Fits, visible_lines-Fits, view_text-hunks}
use niceyaml.Examples.Sources.{two_lines}

abbrev first_column : ℕ → Range
first_column i = new_range (new_position (pos i) (pos 0)) (new_position (pos i) (pos 1))

-- A printer prints `+` for its first span; the frame takes no room.
abbrev pub env : Env
env = record {
  Printer = Unit;
  new_printer = tt;
  print = λ p s spans. 43 ∷ [];
  set_printer_width = λ p w. p;
  set_word_wrap = λ p b. p;
  Finder = Unit;
  new_finder = tt;
  load = λ f s. f;
  find = λ f term. ok (first_column 0 ∷ first_column 1 ∷ []);
  Style = Unit;
  no_style = tt;
  horizontal_frame = λ s. pos 0;
  vertical_frame = λ s. pos 0;
  style_width = λ s. pos 0;
  style_height = λ s. pos 0;
  render_block = λ p w h t. t;
  render_text = λ p t. t;
  render_frame = λ s t. t;
  cut = λ t a b. t;
  truncate = λ t w. t;
  string_width = λ t. pos (length t);
  Key = Unit;
  Binding = Unit;
  new_binding = λ keys key help. tt;
  key_matches = λ k b. false;
  sort = λ ms. ms;
}

-- One row and ten columns, on two lines with both matches found.
abbrev searching : Model env
searching = record (zero_model {E = env}) {
  printer = some tt;
  finder = some tt;
  left = some two_lines;
  search_term = 97 ∷ [];
  search_matches =
      record { rng = first_column 0; in_left = false }
      ∷ record { rng = first_column 1; in_left = false }
      ∷ [];
  height = pos 1;
  width = pos 10;
  search_index = pos 0;
  initialized = true;
}

searching-IsSized : IsSized searching 2 1
unfolding Viewport.line_count Viewport.max_height
searching-IsSized = record { lines = refl; rows = refl; fits = omega arith; small = omega arith }

abbrev calls : List Scrolling
calls = down 5 ∷ half_back ∷ up 1 ∷ page_forward ∷ to_bottom ∷ []

scroll_all-window_example :
    (scroll_all calls searching ≡ at_line searching (scrolled_all 2 1 calls 0))
    × (scrolled_all 2 1 calls 0 ≤ limit 2 1)
scroll_all-window_example =
    scroll_all-window searching 2 1 searching-IsSized calls 0 refl (omega arith)
      (omega arith, (omega arith, (omega arith, (omega arith, (omega arith, tt)))))

searching-IsSearching : IsSearching searching 2 1 0
unfolding Viewport.max_height
searching-IsSearching = record {
  source = two_lines;
  shown = refl;
  counted = refl;
  owned = tt;
  one_pane = refl;
  spread = (
    (0, 0, refl, refl, omega arith, omega arith),
    ((1, 1, refl, refl, omega arith, omega arith), tt),
  );
  at_match = refl;
  less = omega arith;
  few = omega arith;
  fits = omega arith;
  rows = refl;
  small = omega arith;
}

search-IsPrinted_example :
    Selects searching tt (search_next searching) ((0 + 1) % 2)
    × Selects searching tt (search_previous searching) ((0 + (2 - 1)) % 2)
search-IsPrinted_example =
    search-IsPrinted searching tt 2 1 0 searching-IsSearching refl (omega arith) (omega arith)

next_times-reaches_example :
    (k : ℕ) × (m' : Model env) × (k < 2)
    × (next_times k searching ≡ ok m')
    × (m'.search_index ≡ pos 1)
    × (m'.search_matches ≡ searching.search_matches)
next_times-reaches_example =
    next_times-reaches searching 2 1 0 1 searching-IsSearching (omega arith) (omega arith)

env-IsBounded : IsBounded env
env-IsBounded = record {
  few_ranges = λ f term rs e.
      subst (λ v. length v < 2_305_843_009_213_693_952) (ok_injective e) (omega arith);
  length-sort = λ ms. refl;
}

abbrev used : List (Command env)
used =
    Command.resize_height (pos 1)
    ∷ Command.resize_width (pos 10)
    ∷ Command.push_revision two_lines
    ∷ Command.look_for (97 ∷ [])
    ∷ Command.next_match
    ∷ Command.page_back
    ∷ Command.cycle_view_mode
    ∷ Command.redraw
    ∷ []

abbrev model_of : Outcome (Model env) → Model env
model_of (ok m) = m
model_of _ = zero_model

abbrev reached : Model env
reached = model_of (run used (new_model []))

reached-run : run used (new_model []) ≡ ok reached
unfolding run new_model set_width Viewport.set_height add_revision set_search_term search_next
    Viewport.page_up toggle_view_mode viewed
reached-run = refl

run-IsCoherent_example : IsCoherent reached
run-IsCoherent_example = run-IsCoherent env-IsBounded [] used reached reached-run

-- One revision, in the hunks mode.
abbrev in_hunks : Model env
in_hunks = record searching {
  heap = record { prev = none; next = none; head = two_lines } ∷ [];
  revision = some 0;
  view_mode = hunks;
}

abbrev plus : Text
plus = 43 ∷ []

in_hunks-content : get_hunks_diff_content in_hunks ≡ ok plus
unfolding get_hunks_diff_content
in_hunks-content = refl

view_text-hunks_example :
    (view_text (record in_hunks { y_offset = pos 1 }) ≡ view_text in_hunks)
    ⊎ ((plus ≡ []) × (view_text in_hunks ≡ view_text (record in_hunks { view_mode = full })))
view_text-hunks_example = view_text-hunks in_hunks plus (pos 1) refl in_hunks-content

searching-rows : Viewport.max_height searching ≡ pos 1
unfolding Viewport.max_height
searching-rows = refl

searching-columns : Viewport.max_width searching ≡ pos (suc 9)
unfolding Viewport.max_width
searching-columns = refl

visible_lines-Fits_example :
    (ls : List Text) × (visible_lines searching none ≡ ok ls) × Fits searching 1 ls
visible_lines-Fits_example =
    visible_lines-Fits searching none tt 1 9 refl searching-rows searching-columns
