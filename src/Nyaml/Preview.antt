-- ===== src/Nyaml/Preview.antt =====
-- The picker of themes from its opening to its end.
use niceyaml.Prelude.{
  ◌≡◌, refl, sym, ap, ◌∙◌, subst, Bool, true, false, [], ◌∷◌, ok, length, if_then, if_known,
  bind_ok, ok_injective,
}
use niceyaml.Prelude.Int.{ℤ, pos, ltb_ℤ, add64, sub64}
use niceyaml.Text.{Text}
use niceyaml.Viewport.{Env}
use niceyaml.Viewport.Revisions.{set_printer}
use niceyaml.Viewport.Update.{key_press, update}
use niceyaml.Nyaml.{
  press_key, forward_message, apply_theme, preview_theme, revert_theme, update_theme_input,
  update_pressed,
}
use niceyaml.Nyaml.State.{Host, NyamlModel, theme_at, pressed, enter, escape, ctrl_c}

module _ {E : Env} where
  -- What no key changes while the picker is open.
  pub record Keeps (m m' : NyamlModel E) : Type 0 where
    pub previous : m'.previous_theme ≡ m.previous_theme
    pub prompt : m'.searching ≡ m.searching
    pub input : m'.search_input ≡ m.search_input
    pub themes : m'.theme_list ≡ m.theme_list

  Keeps-refl : (m : NyamlModel E) → Keeps m m
  Keeps-refl m = record { previous = refl; prompt = refl; input = refl; themes = refl }

  Keeps-trans : {m₁ m₂ m₃ : NyamlModel E} → Keeps m₁ m₂ → Keeps m₂ m₃ → Keeps m₁ m₃
  Keeps-trans a b = record {
    previous = b.previous ∙ a.previous;
    prompt = b.prompt ∙ a.prompt;
    input = b.input ∙ a.input;
    themes = b.themes ∙ a.themes;
  }

module _ {E : Env} (H : Host E) where
  -- Keys that leave the picker open.
  pub data Previews : NyamlModel E → NyamlModel E → Type 0 where
    opened : {m : NyamlModel E} → Previews m m
    preview :
        {m m₁ m₂ : NyamlModel E} (key : Env.Key E)
        → update_pressed H m key ≡ ok (m₁, false)
        → m₁.theme_picking ≡ true
        → Previews m₁ m₂
        → Previews m m₂

  apply_theme-Keeps :
      (m : NyamlModel E) (name : Text) (m' : NyamlModel E)
      → apply_theme H m name ≡ ok m'
      → Keeps m m' × (m'.current_theme ≡ name) × (m'.theme_picking ≡ m.theme_picking)
  unfolding apply_theme
  apply_theme-Keeps m name m' h =
      let (vp, run, e) =
        bind_ok (set_printer m.viewport (H.build_printer m.line_numbers name)) _ h in
      let same : record m { current_theme = name; viewport = vp } ≡ m' = ok_injective e in
      subst (λ x. Keeps m x × (x.current_theme ≡ name) × (x.theme_picking ≡ m.theme_picking)) same
        (record { previous = refl; prompt = refl; input = refl; themes = refl }, refl, refl)

  preview_theme-Keeps :
      (m : NyamlModel E) (z : ℤ) (m' : NyamlModel E) → preview_theme H m z ≡ ok m' → Keeps m m'
  unfolding preview_theme
  preview_theme-Keeps m z m' h =
      let (name, run, h₁) = bind_ok (theme_at m.theme_list z) _ h in
      let (kept, _, _) = apply_theme-Keeps (record m { theme_index = z }) name m' h₁ in
      record {
        previous = kept.previous;
        prompt = kept.prompt;
        input = kept.input;
        themes = kept.themes;
      }

  -- Escape goes back to the theme before.
  revert_theme-Keeps :
      (m m' : NyamlModel E)
      → revert_theme H m ≡ ok m'
      → Keeps m m' × (m'.current_theme ≡ m.previous_theme) × (m'.theme_picking ≡ false)
  unfolding revert_theme
  revert_theme-Keeps m m' h =
      let (m₁, run, e) =
        bind_ok (apply_theme H (record m { theme_picking = false }) m.previous_theme) _ h in
      let (kept, name, closed) =
        apply_theme-Keeps (record m { theme_picking = false }) m.previous_theme m₁ run in
      subst (λ x. Keeps m x × (x.current_theme ≡ m.previous_theme) × (x.theme_picking ≡ false))
        (ok_injective e)
        (
          record {
            previous = kept.previous;
            prompt = kept.prompt;
            input = kept.input;
            themes = kept.themes;
          },
          name,
          closed,
        )

  update_theme_input-Keeps :
      (m : NyamlModel E) (key : Env.Key E) (m' : NyamlModel E)
      → update_theme_input H m key ≡ ok m'
      → Keeps m m'
  unfolding update_theme_input
  update_theme_input-Keeps m key m' =
      let same : ok m ≡ ok m' → Keeps m m' = λ e. subst (Keeps m) (ok_injective e) (Keeps-refl m) in
      if_then (pressed E key _)
        (λ e.
          subst (Keeps m) (ok_injective e)
            (record { previous = refl; prompt = refl; input = refl; themes = refl }))
        (if_then (pressed E key _) (λ e. (revert_theme-Keeps m m' e).0)
          (if_then (pressed E key _)
            (if_then (ltb_ℤ m.theme_index (sub64 (pos (length m.theme_list)) (pos 1)))
              (preview_theme-Keeps m (add64 m.theme_index (pos 1)) m') same)
            (if_then (pressed E key _)
              (if_then (ltb_ℤ (pos 0) m.theme_index)
                (preview_theme-Keeps m (sub64 m.theme_index (pos 1)) m') same)
              same)))

  -- A key while the picker is open goes to it.
  update_pressed-picking :
      (m : NyamlModel E) (key : Env.Key E) (m' : NyamlModel E) (quits : Bool)
      → m.theme_picking ≡ true
      → update_pressed H m key ≡ ok (m', quits)
      → update_theme_input H m key ≡ ok m'
  unfolding update_pressed
  update_pressed-picking m key m' quits picking =
      if_known m.theme_picking
        (λ _ h.
          let (m₁, run, e) = bind_ok (update_theme_input H m key) _ h in
          run ∙ ap ok (ap (λ x. x.0) (ok_injective e)))
        (λ closed h. cc)

  Previews-Keeps :
      {m m' : NyamlModel E}
      → Previews m m'
      → m.theme_picking ≡ true
      → Keeps m m' × (m'.theme_picking ≡ true)
  Previews-Keeps (opened {m}) picking = (Keeps-refl m, picking)
  Previews-Keeps (preview {m} {m₁} {m₂} key run still rest) picking =
      let (kept, last) = Previews-Keeps rest still in
      (
        Keeps-trans
            (update_theme_input-Keeps m key m₁ (update_pressed-picking m key m₁ false picking run))
            kept,
        last,
      )

  forward_message-Keeps :
      (m : NyamlModel E) (key : Env.Key E) (m' : NyamlModel E) (quits : Bool)
      → forward_message m (key_press key) ≡ ok (m', quits)
      → Keeps m m' × (m'.theme_picking ≡ m.theme_picking)
  unfolding forward_message
  forward_message-Keeps m key m' quits h =
      let (vp, run, e) = bind_ok (update m.viewport (key_press key)) _ h in
      subst (λ x. Keeps m x × (x.theme_picking ≡ m.theme_picking)) (ap (λ x. x.0) (ok_injective e))
        (record { previous = refl; prompt = refl; input = refl; themes = refl }, refl)

  abbrev opening : NyamlModel E → NyamlModel E
  opening m = record m { theme_picking = true; previous_theme = m.current_theme }

  -- The key that opens the picker.
  update_pressed-opening :
      (m : NyamlModel E) (key : Env.Key E) (m' : NyamlModel E) (quits : Bool)
      → m.theme_picking ≡ false
      → m.searching ≡ false
      → pressed E key ((113 ∷ []) ∷ ctrl_c ∷ []) ≡ false
      → pressed E key ((116 ∷ []) ∷ []) ≡ true
      → update_pressed H m key ≡ ok (m', quits)
      → Keeps (opening m) m' × (m'.theme_picking ≡ true)
  unfolding update_pressed press_key
  update_pressed-opening m key m' quits closed quiet stay open_key h =
      forward_message-Keeps (opening m) key m' quits
        (sym (rw (closed, quiet, stay, open_key) refl) ∙ h)

  -- A theme picker that is opened and left by escape changes neither the theme in use nor the
  -- prompt: the key t opens it, any keys may move its selection, and escape closes it; where the
  -- bindings tell t from q and escape from enter, and every key returns.
  pub update_pressed-Previews :
      (m m₁ m₂ m₃ : NyamlModel E) (open_key close_key : Env.Key E) (q₁ q₃ : Bool)
      → m.theme_picking ≡ false
      → m.searching ≡ false
      → pressed E open_key ((113 ∷ []) ∷ ctrl_c ∷ []) ≡ false
      → pressed E open_key ((116 ∷ []) ∷ []) ≡ true
      → update_pressed H m open_key ≡ ok (m₁, q₁)
      → Previews m₁ m₂
      → pressed E close_key (enter ∷ []) ≡ false
      → pressed E close_key (escape ∷ []) ≡ true
      → update_pressed H m₂ close_key ≡ ok (m₃, q₃)
      → (m₃.current_theme ≡ m.current_theme)
        × (m₃.theme_picking ≡ false)
        × (m₃.searching ≡ false)
        × (m₃.search_input ≡ m.search_input)
  unfolding update_theme_input
  update_pressed-Previews m m₁ m₂ m₃ open_key close_key q₁ q₃ closed quiet stay opens first keys
        no_enter escapes last =
      let (kept, picking) = update_pressed-opening m open_key m₁ q₁ closed quiet stay opens first in
      let (moved, still) = Previews-Keeps keys picking in
      let left = update_pressed-picking m₂ close_key m₃ q₃ still last in
      let reverted : revert_theme H m₂ ≡ ok m₃ = sym (rw (no_enter, escapes) refl) ∙ left in
      let (kept', name, shut) = revert_theme-Keeps m₂ m₃ reverted in
      (
        name ∙ moved.previous ∙ kept.previous,
        shut,
        kept'.prompt ∙ moved.prompt ∙ kept.prompt ∙ quiet,
        kept'.input ∙ moved.input ∙ kept.input,
      )
