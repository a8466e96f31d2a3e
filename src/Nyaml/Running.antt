-- ===== src/Nyaml/Running.antt =====
-- What holds of the program after any messages.
use niceyaml.Prelude.{
  ◌≡◌, refl, ap, ◌∙◌, subst, Bool, true, false, List, [], ◌∷◌, Option, none, some, Outcome, ok,
  if_then, if_known, inl, inr, bind_ok, ok_injective, some_injective,
}
use niceyaml.Prelude.Int.{pos, sub64, max_ℤ}
use niceyaml.Text.{Text, text_beq}
use niceyaml.Source.{new_source_from_string, with_name}
use niceyaml.Viewport.{Env, Model, set_height}
use niceyaml.Viewport.Revisions.{set_width, add_revision}
use niceyaml.Viewport.Update.{
  Message, key_press, mouse_wheel, other_message, with_printer, new_model, update,
}
use niceyaml.Viewport.Commands.{Command, command}
use niceyaml.Viewport.Commands.Invariant.{IsBounded, IsCoherent}
use niceyaml.Viewport.Commands.Runs.{command-IsCoherent, new_model-IsCoherent}
use niceyaml.Nyaml.{
  on_viewport, press_key, forward_message, update_theme_input, update_search_input, update_pressed,
  update_nyaml, draw, step_nyaml, run_nyaml, add_files, empty_nyaml, new_nyaml,
}
use niceyaml.Viewport.View.{viewed}
use niceyaml.Nyaml.State.{
  Host, FileEntry, ModelOptions, NyamlModel, NyamlMessage, NyamlStep, sent, drawn, default_theme,
  pressed, base_name,
}
use niceyaml.Nyaml.Settled.{
  IsListed, list_index-IsChosen, IsRunning, max_pos, never, update_theme_input-IsRunning,
  apply_search-IsRunning, update_search_input-IsRunning,
}

module _ {E : Env} (b : IsBounded E) (H : Host E) where
  -- A call on the viewport.
  on_viewport-IsRunning :
      (m : NyamlModel E) (c : Command E) (m' : NyamlModel E)
      → IsRunning m
      → on_viewport m (command c m.viewport) ≡ ok (some m')
      → IsRunning m'
  on_viewport-IsRunning m c m' w h =
      let (vp, run, e) = bind_ok (command c m.viewport) _ h in
      let same : record m { viewport = vp } ≡ m' = cc in
      subst IsRunning same (w.0, command-IsCoherent b c m.viewport vp w.1 run)

  press_key-IsRunning :
      (m : NyamlModel E) (key : Env.Key E) (m' : NyamlModel E)
      → m.theme_picking ≡ false
      → m.searching ≡ false
      → IsRunning m
      → press_key m key ≡ ok (some m')
      → IsRunning m'
  unfolding press_key command
  press_key-IsRunning m key m' closed quiet w =
      let kept : (x : NyamlModel E) → IsRunning x → ok (some x) ≡ ok (some m') → IsRunning m' =
        λ x v e. subst IsRunning (some_injective (ok_injective e)) v in
      if_then (pressed E key _) (λ e. absurd (never (ok_injective e)))
        (if_then (pressed E key _)
          (kept (record m { theme_picking = true; previous_theme = m.current_theme })
            (
              record {
                chosen = w.0.chosen;
                saved = inr (w.0.chosen.0, w.0.chosen.2);
                apart = rw quiet refl;
              },
              w.1,
            ))
          (if_then (pressed E key _)
            (kept (record m { searching = true; search_input = [] })
              (record { chosen = w.0.chosen; saved = w.0.saved; apart = rw closed refl }, w.1))
            (if_then (pressed E key _) (on_viewport-IsRunning m Command.next_match m' w) (
              if_then (pressed E key _) (on_viewport-IsRunning m Command.previous_match m' w) (
                if_then (pressed E key _) (on_viewport-IsRunning m Command.stop_search m' w) (
                  if_then (pressed E key _) (on_viewport-IsRunning m Command.jump_top m' w) (
                    if_then (pressed E key _) (on_viewport-IsRunning m Command.jump_bottom m' w)
                      (kept m w))))))))

  forward_message-IsRunning :
      (m : NyamlModel E) (msg : Message E) (m' : NyamlModel E) (quits : Bool)
      → IsRunning m
      → forward_message m msg ≡ ok (m', quits)
      → IsRunning m'
  unfolding forward_message command
  forward_message-IsRunning m msg m' quits w h =
      let (vp, run, e) = bind_ok (update m.viewport msg) _ h in
      subst IsRunning (ap (λ x. x.0) (ok_injective e))
        (w.0, command-IsCoherent b (Command.message msg) m.viewport vp w.1 run)

  update_pressed-IsRunning :
      (m : NyamlModel E) (key : Env.Key E) (m' : NyamlModel E) (quits : Bool)
      → IsRunning m
      → update_pressed H m key ≡ ok (m', quits)
      → IsRunning m'
  unfolding update_pressed
  update_pressed-IsRunning m key m' quits w =
      if_known m.theme_picking
        (λ picking h.
          let (m₁, run, e) = bind_ok (update_theme_input H m key) _ h in
          subst IsRunning (ap (λ x. x.0) (ok_injective e))
            (update_theme_input-IsRunning b H m key m₁ picking w run))
        (λ closed.
          if_known m.searching
            (λ searching h.
              let (m₁, run, e) = bind_ok (update_search_input H m key) _ h in
              subst IsRunning (ap (λ x. x.0) (ok_injective e))
                (update_search_input-IsRunning b H m key m₁ closed w run))
            (λ quiet h.
              let (next, run, e) = bind_ok (press_key m key) _ h in
              forwarded closed quiet next run e))
    where
      forwarded :
          m.theme_picking ≡ false
          → m.searching ≡ false
          → (next : Option (NyamlModel E)) → press_key m key ≡ ok next
          → (elim next as (λ _. Outcome (NyamlModel E × Bool)) [
            | none ↦ ok (m, true)
            | some x ↦ forward_message x (key_press key)
          ])
            ≡ ok (m', quits)
          → IsRunning m'
      forwarded closed quiet none run e = subst IsRunning (ap (λ x. x.0) (ok_injective e)) w
      forwarded closed quiet (some m₁) run e =
          forward_message-IsRunning m₁ (key_press key) m' quits
            (press_key-IsRunning m key m₁ closed quiet w run) e

  update_nyaml-IsRunning :
      (m : NyamlModel E) (msg : NyamlMessage E) (m' : NyamlModel E) (quits : Bool)
      → IsRunning m
      → update_nyaml H m msg ≡ ok (m', quits)
      → IsRunning m'
  unfolding update_nyaml command
  update_nyaml-IsRunning m (NyamlMessage.window_size x y) m' quits w h =
      let (vp, run, h₁) = bind_ok (set_width m.viewport x) _ h in
      let wide = command-IsCoherent b (Command.resize_width x) m.viewport vp w.1 run in
      let shown = set_height vp (sub64 y (pos 2)) in
      forward_message-IsRunning (record m { width = x; height = y; viewport = shown }) other_message
        m' quits
        (w.0, command-IsCoherent b (Command.resize_height (sub64 y (pos 2))) vp shown wide refl) h₁
  update_nyaml-IsRunning m (NyamlMessage.event (key_press key)) m' quits w h =
      update_pressed-IsRunning m key m' quits w h
  update_nyaml-IsRunning m (NyamlMessage.event (mouse_wheel shift button)) m' quits w h =
      forward_message-IsRunning m (mouse_wheel shift button) m' quits w h
  update_nyaml-IsRunning m (NyamlMessage.event other_message) m' quits w h =
      forward_message-IsRunning m other_message m' quits w h

  draw-IsRunning : (m m' : NyamlModel E) → IsRunning m → draw m ≡ ok m' → IsRunning m'
  unfolding draw command
  draw-IsRunning m m' w h =
      let (vp, run, same) = bind_ok (viewed m.viewport) _ h in
      subst IsRunning (ok_injective same)
        (w.0, command-IsCoherent b Command.redraw m.viewport vp w.1 run)

  step_nyaml-IsRunning :
      (m : NyamlModel E) (s : NyamlStep E) (m' : NyamlModel E)
      → IsRunning m
      → step_nyaml H m s ≡ ok m'
      → IsRunning m'
  step_nyaml-IsRunning m (sent msg) m' w h =
      let ((m₁, quits), run, same) = bind_ok (update_nyaml H m msg) (λ x. ok x.0) h in
      subst IsRunning (ok_injective same) (update_nyaml-IsRunning m msg m₁ quits w run)
  step_nyaml-IsRunning m drawn m' w h = draw-IsRunning m m' w h

  steps-IsRunning :
      (steps : List (NyamlStep E)) (m m' : NyamlModel E)
      → IsRunning m
      → run_nyaml H steps m ≡ ok m'
      → IsRunning m'
  unfolding run_nyaml
  steps-IsRunning [] m m' w h = subst IsRunning (ok_injective h) w
  steps-IsRunning (s ∷ steps) m m' w h =
      let (m₁, run, h₁) = bind_ok (step_nyaml H m s) (run_nyaml H steps) h in
      steps-IsRunning steps m₁ m' (step_nyaml-IsRunning m s m₁ w run) h₁

  add_files-IsCoherent :
      (fs : List FileEntry) (vp vp' : Model E)
      → IsCoherent vp
      → add_files H fs vp ≡ ok vp'
      → IsCoherent vp'
  unfolding add_files command
  add_files-IsCoherent [] vp vp' w h = subst IsCoherent (ok_injective h) w
  add_files-IsCoherent (f ∷ fs) vp vp' w h =
      let (s, run, h₁) =
        bind_ok (new_source_from_string H.tokenize f.content (with_name (base_name f.path) ∷ [])) _
          h in
      let (vp₁, run₁, h₂) = bind_ok (add_revision vp s) (add_files H fs) h₁ in
      add_files-IsCoherent fs vp₁ vp' (command-IsCoherent b (Command.push_revision s) vp vp₁ w run₁)
        h₂

  new_nyaml-IsRunning :
      (themes : List Text) (opts : ModelOptions) (m : NyamlModel E)
      → IsListed themes default_theme
      → new_nyaml H themes opts ≡ ok m
      → IsRunning m
  unfolding new_nyaml
  new_nyaml-IsRunning themes opts m listed h =
      let made = new_model (with_printer (H.build_printer opts.line_numbers default_theme) ∷ []) in
      let (vp, run, h₁) = bind_ok (add_files H opts.files made) _ h in
      let (i, found, get) = list_index-IsChosen themes default_theme listed in
      let start : IsRunning (empty_nyaml themes opts vp) = (
        record {
          chosen = (i, ap (max_ℤ (pos 0)) found ∙ max_pos i, get);
          saved = inl refl;
          apart = refl;
        },
        add_files-IsCoherent opts.files made vp
            (new_model-IsCoherent {E = E}
              (with_printer (H.build_printer opts.line_numbers default_theme) ∷ []))
            run,
      ) in
      if_then (text_beq opts.search []) (λ e. subst IsRunning (ok_injective e) start)
        (apply_search-IsRunning b H (empty_nyaml themes opts vp) opts.search m start) h₁

-- After any messages, with the program drawn at any times between them, the viewport of the program
-- is as it should be after any calls of its methods; the selected theme is the one in use, the
-- picker has a theme of the list to go back to, and the prompt and the picker are not both open.
-- This holds where the default theme is listed, a search finds fewer than 2 ^ 61 ranges and sorting
-- keeps their number.
pub run_nyaml-IsRunning :
    {E : Env}
    → IsBounded E
    → (H : Host E) (themes : List Text) (opts : ModelOptions) (steps : List (NyamlStep E))
      (m m' : NyamlModel E)
    → IsListed themes default_theme
    → new_nyaml H themes opts ≡ ok m
    → run_nyaml H steps m ≡ ok m'
    → IsRunning m'
run_nyaml-IsRunning b H themes opts steps m m' listed start h =
    steps-IsRunning b H steps m m' (new_nyaml-IsRunning b H themes opts m listed start) h
