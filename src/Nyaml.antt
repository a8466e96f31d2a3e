-- ===== src/Nyaml.antt =====
-- cmd/nyaml/model.go: the program that shows files in a viewport, with a prompt for searches and a
-- picker of themes.
pub mod State
pub mod Settled
pub mod Running
pub mod Picker
pub mod Preview
use niceyaml.Prelude.{
  ℕ, zero, suc, ◌+◌, ◌/◌, ◌==◌, Bool, true, false, List, [], ◌∷◌, ◌++◌, Option, none, some, Outcome,
  ok, panic, ◌>>=◌, at, length, take, drop, if◌then◌else◌,
}
use niceyaml.Prelude.Int.{ℤ, pos, negsuc, pos_part, ltb_ℤ, eqb_ℤ, min_ℤ, max_ℤ, add64, sub64, sub_ℕ}
use niceyaml.Text.{Text, text_beq}
use niceyaml.Tokens.{TokenRef}
use niceyaml.Source.{new_source_from_string, with_name}
use niceyaml.Viewport.{Env, Model, half, set_height, goto_top, goto_bottom}
use niceyaml.Viewport.Revisions.{
  rem, set_width, set_printer, add_revision, set_search_term, clear_search, search_next,
  search_previous,
}
use niceyaml.Viewport.View.{viewed}
use niceyaml.Viewport.Update.{Message, key_press, other_message, with_printer, new_model, update}
use niceyaml.Nyaml.State.{
  Host, FileEntry, ModelOptions, NyamlModel, NyamlMessage, NyamlStep, sent, drawn, default_theme,
  base_name, list_index, theme_at, but_last, ctrl_c, escape, enter, backspace, arrow_down, arrow_up,
  pressed, quarter,
}

module _ {E : Env} where
  -- What `View` leaves of the program: the viewport has its printer as `View` of the viewport left it.
  unfoldable pub draw : NyamlModel E → Outcome (NyamlModel E)
  unfolding viewed
  draw m = do vp ← viewed m.viewport; ok (record m { viewport = vp })

  -- A call on the viewport in the switch of `Update`.
  abbrev pub on_viewport : NyamlModel E → Outcome (Model E) → Outcome (Option (NyamlModel E))
  on_viewport m called = do vp ← called; ok (some (record m { viewport = vp }))

  -- The keys of `Update` where neither the prompt nor the picker is open; `none` is to quit.
  unfoldable pub press_key : NyamlModel E → Env.Key E → Outcome (Option (NyamlModel E))
  unfolding search_next search_previous clear_search goto_top goto_bottom
  press_key m key =
      if pressed E key ((113 ∷ []) ∷ ctrl_c ∷ [])
      then ok none
      else if pressed E key ((116 ∷ []) ∷ [])
      then ok (some (record m { theme_picking = true; previous_theme = m.current_theme }))
      else if pressed E key ((47 ∷ []) ∷ [])
      then ok (some (record m { searching = true; search_input = [] }))
      else if pressed E key ((110 ∷ []) ∷ [])
      then on_viewport m (search_next m.viewport)
      else if pressed E key ((78 ∷ []) ∷ [])
      then on_viewport m (search_previous m.viewport)
      else if pressed E key (escape ∷ [])
      then on_viewport m (clear_search m.viewport)
      else if pressed E key ((103 ∷ []) ∷ [])
      then on_viewport m (ok (goto_top m.viewport))
      else if pressed E key ((71 ∷ []) ∷ [])
      then on_viewport m (ok (goto_bottom m.viewport))
      else ok (some m)

  -- The end of `Update`; no command is given.
  unfoldable pub forward_message : NyamlModel E → Message E → Outcome (NyamlModel E × Bool)
  unfolding update
  forward_message m msg = do vp ← update m.viewport msg; ok (record m { viewport = vp }, false)

  -- `applySearch`.
  unfoldable pub apply_search : NyamlModel E → Text → Outcome (NyamlModel E)
  unfolding set_search_term
  apply_search m term = do vp ← set_search_term m.viewport term; ok (record m { viewport = vp })

  -- The visible items of `renderThemeOverlay`: its height without the frame, made odd.
  unfoldable pub visible_items : NyamlModel E → ℤ
  unfolding add64 sub64
  visible_items m =
      let items = sub64 (max_ℤ (pos 10) (quarter m.height)) (pos 4) in
      if eqb_ℤ (rem items 2) (pos 0) then add64 items (pos 1) else items

  unfoldable pub scroll_offset : NyamlModel E → ℤ
  unfolding visible_items sub64
  scroll_offset m =
      min_ℤ (max_ℤ (pos 0) (sub64 (pos (length m.theme_list)) (visible_items m)))
        (max_ℤ (pos 0) (sub64 m.theme_index (half (visible_items m))))

  -- A name cut to the width of the overlay, which is 30 at least.
  unfoldable pub cut_name : NyamlModel E → Text → Text
  unfolding sub64
  cut_name m name =
      let max_len = sub64 (max_ℤ (pos 30) (quarter m.width)) (pos 6) in
      if ltb_ℤ max_len (pos (length name))
      then take (pos_part (sub64 max_len (pos 1))) name ++ 126 ∷ []
      else name

  unfoldable pub theme_item : NyamlModel E → ℕ → Text → Text
  unfolding cut_name
  theme_item m i name =
      (if eqb_ℤ (pos i) m.theme_index then 62 ∷ 32 ∷ [] else 32 ∷ 32 ∷ []) ++ cut_name m name

  -- The loop of `renderThemeOverlay` from the theme `i` on, until `room` items are there.
  unfoldable pub theme_items_from : NyamlModel E → ℕ → ℕ → List Text → List Text
  unfolding theme_item
  theme_items_from m zero i names = []
  theme_items_from m (suc room) i [] = []
  theme_items_from m (suc room) i (name ∷ names) =
      theme_item m i name ∷ theme_items_from m room (i + 1) names

  unfoldable pub theme_items : NyamlModel E → List Text
  unfolding scroll_offset visible_items theme_items_from
  theme_items m =
      let offset = pos_part (scroll_offset m) in
      theme_items_from m (pos_part (visible_items m)) offset (drop offset m.theme_list)

  -- The model of `newModel` before the files, with the sorted list of themes.
  abbrev pub empty_nyaml : List Text → ModelOptions → Model E → NyamlModel E
  empty_nyaml themes opts vp = record {
    search_input = [];
    current_theme = default_theme;
    previous_theme = [];
    theme_list = themes;
    viewport = vp;
    width = pos 0;
    height = pos 0;
    theme_index = max_ℤ (pos 0) (list_index 0 themes default_theme);
    line_numbers = opts.line_numbers;
    searching = false;
    theme_picking = false;
  }

module _ {E : Env} (H : Host E) where
  -- `applyTheme`.
  unfoldable pub apply_theme : NyamlModel E → Text → Outcome (NyamlModel E)
  unfolding set_printer
  apply_theme m name = do
    vp ← set_printer m.viewport (H.build_printer m.line_numbers name)
    ok (record m { current_theme = name; viewport = vp })

  -- A move of the selection, with the preview.
  unfoldable pub preview_theme : NyamlModel E → ℤ → Outcome (NyamlModel E)
  unfolding apply_theme
  preview_theme m i = do
    name ← theme_at m.theme_list i
    apply_theme (record m { theme_index = i }) name

  -- Back to the theme before.
  unfoldable pub revert_theme : NyamlModel E → Outcome (NyamlModel E)
  unfolding apply_theme list_index
  revert_theme m = do
    m' ← apply_theme (record m { theme_picking = false }) m.previous_theme
    ok (record m' { theme_index = list_index 0 m'.theme_list m'.previous_theme })

  -- `updateThemeInput`.
  unfoldable pub update_theme_input : NyamlModel E → Env.Key E → Outcome (NyamlModel E)
  unfolding preview_theme revert_theme add64 sub64
  update_theme_input m key =
      if pressed E key (enter ∷ [])
      then ok (record m { theme_picking = false })
      else if pressed E key (escape ∷ [])
      then revert_theme m
      else if pressed E key ((106 ∷ []) ∷ arrow_down ∷ [])
      then (if ltb_ℤ m.theme_index (sub64 (pos (length m.theme_list)) (pos 1))
          then preview_theme m (add64 m.theme_index (pos 1))
          else ok m)
      else if pressed E key ((107 ∷ []) ∷ arrow_up ∷ [])
      then (if ltb_ℤ (pos 0) m.theme_index
          then preview_theme m (sub64 m.theme_index (pos 1))
          else ok m)
      else ok m

  -- `updateSearchInput`.
  unfoldable pub update_search_input : NyamlModel E → Env.Key E → Outcome (NyamlModel E)
  unfolding apply_search
  update_search_input m key =
      if pressed E key (enter ∷ [])
      then apply_search (record m { searching = false }) m.search_input
      else if pressed E key (escape ∷ [])
      then ok (record m { searching = false; search_input = [] })
      else if pressed E key (backspace ∷ [])
      then ok (record m { search_input = but_last m.search_input })
      else ok (record m { search_input = m.search_input ++ H.key_text key })

  -- A key in `Update`, with whether it quits.
  unfoldable pub update_pressed : NyamlModel E → Env.Key E → Outcome (NyamlModel E × Bool)
  unfolding update_theme_input update_search_input press_key forward_message
  update_pressed m key =
      if m.theme_picking
      then (do m' ← update_theme_input m key; ok (m', false))
      else if m.searching
      then (do m' ← update_search_input m key; ok (m', false))
      else (do
        next ← press_key m key
        elim next [ none ↦ ok (m, true) | some m' ↦ forward_message m' (key_press key) ])

  -- `Update`, with whether its command is `tea.Quit`.
  unfoldable pub update_nyaml : NyamlModel E → NyamlMessage E → Outcome (NyamlModel E × Bool)
  unfolding update_pressed forward_message set_width set_height sub64
  update_nyaml m (NyamlMessage.window_size w h) = do
    vp ← set_width m.viewport w
    forward_message (record m { width = w; height = h; viewport = set_height vp (sub64 h (pos 2)) })
        other_message
  update_nyaml m (NyamlMessage.event (key_press key)) = update_pressed m key
  update_nyaml m (NyamlMessage.event msg) = forward_message m msg

  abbrev pub step_nyaml : NyamlModel E → NyamlStep E → Outcome (NyamlModel E)
  step_nyaml m (sent msg) = do (m', quits) ← update_nyaml m msg; ok m'
  step_nyaml m drawn = draw m

  -- The steps of a run, one after the other.
  unfoldable pub run_nyaml : List (NyamlStep E) → NyamlModel E → Outcome (NyamlModel E)
  unfolding update_nyaml draw
  run_nyaml [] m = ok m
  run_nyaml (s ∷ steps) m = step_nyaml m s >>= run_nyaml steps

  -- The loop of `newModel` over the files.
  unfoldable pub add_files : List FileEntry → Model E → Outcome (Model E)
  unfolding new_source_from_string add_revision
  add_files [] vp = ok vp
  add_files (f ∷ fs) vp = do
    s ← new_source_from_string H.tokenize f.content (with_name (base_name f.path) ∷ [])
    vp' ← add_revision vp s
    add_files fs vp'

  -- `newModel`.
  unfoldable pub new_nyaml : List Text → ModelOptions → Outcome (NyamlModel E)
  unfolding new_model add_files apply_search list_index
  new_nyaml themes opts = do
    vp ←
        add_files opts.files
          (new_model (with_printer (H.build_printer opts.line_numbers default_theme) ∷ []))
    let m = empty_nyaml themes opts vp
    if text_beq opts.search [] then ok m else apply_search m opts.search
