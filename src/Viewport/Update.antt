-- ===== src/Viewport/Update.antt =====
-- bubbles/yamlviewport/viewport.go and keymap.go: the messages that the viewport answers.
use niceyaml.Prelude.{
  Bool, true, false, not, List, [], ◌∷◌, Option, none, some, Outcome, ok, ◌>>=◌, of_option,
  if◌then◌else◌,
}
use niceyaml.Prelude.Int.{pos, negsuc}
use niceyaml.Viewport.{
  Env, KeyMap, Model, adjacent, full, scroll_down, scroll_up, scroll_left, scroll_right, page_down,
  page_up, half_page_down, half_page_up,
}
use niceyaml.Viewport.Revisions.{
  next_revision, prev_revision, toggle_diff_mode, toggle_view_mode, toggle_word_wrap,
}

-- `DefaultKeyMap`, of keymap.go; texts are in UTF-8.
abbrev pub default_key_map : (E : Env) → KeyMap E
default_key_map E = record {
  page_down =
      E.new_binding
        ((112 ∷ 103 ∷ 100 ∷ 111 ∷ 119 ∷ 110 ∷ [])
          ∷ (115 ∷ 112 ∷ 97 ∷ 99 ∷ 101 ∷ [])
          ∷ (102 ∷ [])
          ∷ [])
        (102 ∷ 47 ∷ 112 ∷ 103 ∷ 100 ∷ 110 ∷ [])
        (112 ∷ 97 ∷ 103 ∷ 101 ∷ 32 ∷ 100 ∷ 111 ∷ 119 ∷ 110 ∷ []);
  page_up =
      E.new_binding ((112 ∷ 103 ∷ 117 ∷ 112 ∷ []) ∷ (98 ∷ []) ∷ [])
        (98 ∷ 47 ∷ 112 ∷ 103 ∷ 117 ∷ 112 ∷ []) (112 ∷ 97 ∷ 103 ∷ 101 ∷ 32 ∷ 117 ∷ 112 ∷ []);
  half_page_up =
      E.new_binding ((117 ∷ []) ∷ (99 ∷ 116 ∷ 114 ∷ 108 ∷ 43 ∷ 117 ∷ []) ∷ []) (117 ∷ [])
        (194 ∷ 189 ∷ 32 ∷ 112 ∷ 97 ∷ 103 ∷ 101 ∷ 32 ∷ 117 ∷ 112 ∷ []);
  half_page_down =
      E.new_binding ((100 ∷ []) ∷ (99 ∷ 116 ∷ 114 ∷ 108 ∷ 43 ∷ 100 ∷ []) ∷ []) (100 ∷ [])
        (194 ∷ 189 ∷ 32 ∷ 112 ∷ 97 ∷ 103 ∷ 101 ∷ 32 ∷ 100 ∷ 111 ∷ 119 ∷ 110 ∷ []);
  down =
      E.new_binding ((100 ∷ 111 ∷ 119 ∷ 110 ∷ []) ∷ (106 ∷ []) ∷ [])
        (226 ∷ 134 ∷ 147 ∷ 47 ∷ 106 ∷ []) (100 ∷ 111 ∷ 119 ∷ 110 ∷ []);
  up =
      E.new_binding ((117 ∷ 112 ∷ []) ∷ (107 ∷ []) ∷ []) (226 ∷ 134 ∷ 145 ∷ 47 ∷ 107 ∷ [])
        (117 ∷ 112 ∷ []);
  left =
      E.new_binding ((108 ∷ 101 ∷ 102 ∷ 116 ∷ []) ∷ (104 ∷ []) ∷ [])
        (226 ∷ 134 ∷ 144 ∷ 47 ∷ 104 ∷ []) (109 ∷ 111 ∷ 118 ∷ 101 ∷ 32 ∷ 108 ∷ 101 ∷ 102 ∷ 116 ∷ []);
  right =
      E.new_binding ((114 ∷ 105 ∷ 103 ∷ 104 ∷ 116 ∷ []) ∷ (108 ∷ []) ∷ [])
        (226 ∷ 134 ∷ 146 ∷ 47 ∷ 108 ∷ [])
        (109 ∷ 111 ∷ 118 ∷ 101 ∷ 32 ∷ 114 ∷ 105 ∷ 103 ∷ 104 ∷ 116 ∷ []);
  next_revision =
      E.new_binding ((116 ∷ 97 ∷ 98 ∷ []) ∷ []) (116 ∷ 97 ∷ 98 ∷ [])
        (110 ∷ 101 ∷ 120 ∷ 116 ∷ 32 ∷ 114 ∷ 101 ∷ 118 ∷ 105 ∷ 115 ∷ 105 ∷ 111 ∷ 110 ∷ []);
  prev_revision =
      E.new_binding ((115 ∷ 104 ∷ 105 ∷ 102 ∷ 116 ∷ 43 ∷ 116 ∷ 97 ∷ 98 ∷ []) ∷ [])
        (115 ∷ 104 ∷ 105 ∷ 102 ∷ 116 ∷ 43 ∷ 116 ∷ 97 ∷ 98 ∷ [])
        (112 ∷ 114 ∷ 101 ∷ 118 ∷ 32 ∷ 114 ∷ 101 ∷ 118 ∷ 105 ∷ 115 ∷ 105 ∷ 111 ∷ 110 ∷ []);
  toggle_diff_mode = E.new_binding ((109 ∷ []) ∷ []) (109 ∷ []) (
      116 ∷ 111 ∷ 103 ∷ 103 ∷ 108 ∷ 101 ∷ 32 ∷ 100 ∷ 105 ∷ 102 ∷ 102 ∷ 32 ∷ 109 ∷ 111 ∷ 100 ∷ 101
      ∷ []);
  toggle_view_mode = E.new_binding ((118 ∷ []) ∷ []) (118 ∷ []) (
      116 ∷ 111 ∷ 103 ∷ 103 ∷ 108 ∷ 101 ∷ 32 ∷ 118 ∷ 105 ∷ 101 ∷ 119 ∷ 32 ∷ 109 ∷ 111 ∷ 100 ∷ 101
      ∷ []);
  toggle_word_wrap = E.new_binding ((119 ∷ []) ∷ []) (119 ∷ []) (
      116 ∷ 111 ∷ 103 ∷ 103 ∷ 108 ∷ 101 ∷ 32 ∷ 119 ∷ 111 ∷ 114 ∷ 100 ∷ 32 ∷ 119 ∷ 114 ∷ 97 ∷ 112
      ∷ []);
}

-- The options that the package offers.
pub data ModelOption (E : Env) : Type 0 where
  with_printer : Env.Printer E → ModelOption E
  with_style : Env.Style E → ModelOption E
  with_finder : Env.Finder E → ModelOption E

-- The buttons of a `tea.MouseWheelMsg`.
pub data Button : Type 0 where
  wheel_down wheel_up wheel_left wheel_right other_button : Button

-- The messages that `Update` looks at; of a wheel's modifiers it asks for shift only.
pub data Message (E : Env) : Type 0 where
  key_press : Env.Key E → Message E
  mouse_wheel : Bool → Button → Message E
  other_message : Message E

abbrev or_default {ℓ} : {A : Type ℓ} → A → Option A → A
or_default d none = d
or_default d (some a) = a

module _ {E : Env} where
  -- `setInitialValues`.
  unfoldable pub set_initial_values : Model E → Model E
  set_initial_values m = record m {
    key_map = some (default_key_map E);
    mouse_wheel_enabled = true;
    mouse_wheel_delta = pos 3;
    horizontal_step = pos 6;
    hunk_context = pos 3;
    wrap_enabled = true;
    search_index = negsuc 0;
    printer = some (or_default E.new_printer m.printer);
    finder = some (or_default E.new_finder m.finder);
    initialized = true;
  }

  -- The zero value.
  abbrev pub zero_model : Model E
  zero_model = record {
    style = E.no_style;
    printer = none;
    finder = none;
    heap = [];
    revision = none;
    diff_result = none;
    left = none;
    left_owner = none;
    right = none;
    search_term = [];
    key_map = none;
    search_matches = [];
    left_matches = [];
    right_matches = [];
    horizontal_step = pos 0;
    diff_mode = adjacent;
    mouse_wheel_delta = pos 0;
    width = pos 0;
    search_index = pos 0;
    y_offset = pos 0;
    height = pos 0;
    x_offset = pos 0;
    view_mode = full;
    hunk_context = pos 0;
    fill_height = false;
    mouse_wheel_enabled = false;
    wrap_enabled = false;
    initialized = false;
  }

  -- `WithPrinter`, `WithStyle` and `WithFinder`.
  abbrev pub apply_option : ModelOption E → Model E → Model E
  apply_option (with_printer p) m = record m { printer = some p }
  apply_option (with_style s) m = record m { style = s }
  apply_option (with_finder f) m = record m { finder = some f }

  abbrev pub apply_model_options : List (ModelOption E) → Model E → Model E
  apply_model_options [] m = m
  apply_model_options (opt ∷ opts) m = apply_model_options opts (apply_option opt m)

  -- `New`.
  unfoldable pub new_model : List (ModelOption E) → Model E
  unfolding set_initial_values
  new_model opts = set_initial_values (apply_model_options opts zero_model)

  -- The keys of `Update` behind those that scroll by lines and pages.
  unfoldable pub update_mode : Model E → KeyMap E → Env.Key E → Outcome (Model E)
  unfolding scroll_left scroll_right next_revision prev_revision toggle_diff_mode toggle_view_mode
      toggle_word_wrap
  update_mode m k key =
      if E.key_matches key k.left
      then ok (scroll_left m m.horizontal_step)
      else if E.key_matches key k.right
      then ok (scroll_right m m.horizontal_step)
      else if E.key_matches key k.next_revision
      then next_revision m
      else if E.key_matches key k.prev_revision
      then prev_revision m
      else if E.key_matches key k.toggle_diff_mode
      then toggle_diff_mode m
      else if E.key_matches key k.toggle_view_mode
      then toggle_view_mode m
      else if E.key_matches key k.toggle_word_wrap
      then toggle_word_wrap m
      else ok m

  -- The first keys of `Update`, and those behind them.
  unfoldable pub update_key : Model E → KeyMap E → Env.Key E → Outcome (Model E)
  unfolding page_down page_up half_page_down half_page_up scroll_down scroll_up update_mode
  update_key m k key =
      if E.key_matches key k.page_down
      then ok (page_down m)
      else if E.key_matches key k.page_up
      then ok (page_up m)
      else if E.key_matches key k.half_page_down
      then ok (half_page_down m)
      else if E.key_matches key k.half_page_up
      then ok (half_page_up m)
      else if E.key_matches key k.down
      then ok (scroll_down m (pos 1))
      else if E.key_matches key k.up
      then ok (scroll_up m (pos 1))
      else update_mode m k key

  -- The wheel with shift, and without.
  abbrev pub shift_wheel : Model E → Button → Model E
  shift_wheel m wheel_down = scroll_right m m.horizontal_step
  shift_wheel m wheel_up = scroll_left m m.horizontal_step
  shift_wheel m _ = m

  abbrev pub plain_wheel : Model E → Button → Model E
  plain_wheel m wheel_down = scroll_down m m.mouse_wheel_delta
  plain_wheel m wheel_up = scroll_up m m.mouse_wheel_delta
  plain_wheel m wheel_left = scroll_left m m.horizontal_step
  plain_wheel m wheel_right = scroll_right m m.horizontal_step
  plain_wheel m other_button = m

  -- The switch of `Update`. A key map is there once the initial values are set.
  unfoldable pub dispatch : Model E → Message E → Outcome (Model E)
  unfolding update_key scroll_left scroll_right scroll_down scroll_up
  dispatch m (key_press key) = do k ← of_option m.key_map; update_key m k key
  dispatch m (mouse_wheel shift button) = ok (
      if not m.mouse_wheel_enabled
      then m
      else if shift
      then shift_wheel m button
      else plain_wheel m button)
  dispatch m other_message = ok m

  -- `Update`, which gives no command.
  unfoldable pub update : Model E → Message E → Outcome (Model E)
  unfolding set_initial_values dispatch
  update m msg = dispatch (if m.initialized then m else set_initial_values m) msg
