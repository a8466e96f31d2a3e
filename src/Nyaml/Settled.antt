-- ===== src/Nyaml/Settled.antt =====
-- What holds of the program, and the keys of the picker and the prompt.
use niceyaml.Prelude.{
  ℕ, zero, suc, ◌+◌, ◌≡◌, refl, ap, ◌∙◌, subst, Bool, true, false, ◌&&◌, List, [], ◌∷◌, Option,
  none, some, ok, at, length, get_elem?, of_option, if_then, ◌⊎◌, inl, inr, Bool-cases, bind_ok,
  ok_injective, some_injective, arith,
}
use niceyaml.Prelude.Int.{ℤ, pos, negsuc, ltb_ℤ, add64, sub64, max_ℤ}
use niceyaml.Text.{Text, text_beq, text_beq_iff}
use niceyaml.Viewport.{Env, Model}
use niceyaml.Viewport.Revisions.{set_printer, set_search_term}
use niceyaml.Viewport.Commands.{Command, command}
use niceyaml.Viewport.Commands.Invariant.{IsBounded, IsCoherent}
use niceyaml.Viewport.Commands.Runs.{command-IsCoherent}
use niceyaml.Nyaml.{
  apply_search, apply_theme, preview_theme, revert_theme, update_theme_input, update_search_input,
}
use niceyaml.Nyaml.State.{Host, NyamlModel, list_index, theme_at, pressed}

abbrev pub IsListed : List Text → Text → Type 0
IsListed themes name = (i : ℕ) × (get_elem? themes i ≡ some name)

-- The index is that of the theme.
abbrev IsChosen : List Text → ℤ → Text → Type 0
IsChosen themes index name = (i : ℕ) × (index ≡ pos i) × (get_elem? themes i ≡ some name)

-- The selected theme is the one in use, the picker can go back to a theme of the list, and the
-- prompt and the picker are not both open.
pub record IsSettled (themes : List Text) (index : ℤ) (current previous : Text)
    (picking searching : Bool) : Type 0 where
  pub chosen : IsChosen themes index current
  pub saved : (picking ≡ false) ⊎ IsListed themes previous
  pub apart : picking && searching ≡ false

-- `slices.Index` finds a name that is listed.
list_index-IsListed :
    (themes : List Text) (name : Text) (k i : ℕ)
    → get_elem? themes i ≡ some name
    → (j : ℕ) × (list_index k themes name ≡ pos (k + j)) × (get_elem? themes j ≡ some name)
unfolding list_index
list_index-IsListed [] name k i h = cc
list_index-IsListed (t ∷ ts) name k zero h =
    let here : text_beq t name ≡ true = (text_beq_iff t name).1 (some_injective h) in
    (0, rw here (ap pos (omega arith)), h)
list_index-IsListed (t ∷ ts) name k (suc i) h =
    let (j, found, get) = list_index-IsListed ts name (k + 1) i h in
    elim (Bool-cases (text_beq t name)) [
      | inl here ↦ (0, rw here (ap pos (omega arith)), ap some ((text_beq_iff t name).0 here))
      | inr other ↦ (suc j, rw other (found ∙ ap pos (omega arith)), get)
    ]

pub list_index-IsChosen :
    (themes : List Text) (name : Text)
    → IsListed themes name
    → IsChosen themes (list_index 0 themes name) name
list_index-IsChosen themes name (i, h) =
    let (j, found, get) = list_index-IsListed themes name 0 i h in
    (j, found ∙ ap pos (omega arith), get)

at-get :
    (themes : List Text) (i : ℕ) {name : Text}
    → at themes i ≡ ok name
    → get_elem? themes i ≡ some name
at-get themes i {name} h = got (get_elem? themes i) h
  where
    got : (o : Option Text) → of_option o ≡ ok name → o ≡ some name
    got none h = cc
    got (some x) h = ap some (ok_injective h)

-- A theme that was read is the one at the index.
theme_at-IsChosen :
    (themes : List Text) (z : ℤ) {name : Text}
    → theme_at themes z ≡ ok name
    → IsChosen themes z name
theme_at-IsChosen themes (pos i) h = (i, refl, at-get themes i h)
theme_at-IsChosen themes (negsuc i) h = cc

module _ {E : Env} where
  abbrev pub IsRunning : NyamlModel E → Type 0
  IsRunning m =
      IsSettled m.theme_list m.theme_index m.current_theme m.previous_theme m.theme_picking
        m.searching
      × IsCoherent m.viewport

pub max_pos : (i : ℕ) → max_ℤ (pos 0) (pos i) ≡ pos i
max_pos i = ground arith

saved-IsListed :
    {picking : Bool} (themes : List Text) (name : Text)
    → picking ≡ true
    → (picking ≡ false) ⊎ IsListed themes name
    → IsListed themes name
saved-IsListed themes name opened (inl closed) = cc
saved-IsListed themes name opened (inr listed) = listed

pub never {ℓ} : {A : Type ℓ} {x : A} → none ≡ some x → ⊥
never h = cc

module _ {E : Env} (b : IsBounded E) (H : Host E) where
  apply_theme-IsCoherent :
      (m : NyamlModel E) (name : Text) (m' : NyamlModel E)
      → IsCoherent m.viewport
      → apply_theme H m name ≡ ok m'
      → (vp : Model E) × (record m { current_theme = name; viewport = vp } ≡ m') × IsCoherent vp
  unfolding apply_theme command
  apply_theme-IsCoherent m name m' w h =
      let printer = H.build_printer m.line_numbers name in
      let (vp, run, e) = bind_ok (set_printer m.viewport printer) _ h in
      (vp, ok_injective e, command-IsCoherent b (Command.use_printer printer) m.viewport vp w run)

  preview_theme-IsRunning :
      (m : NyamlModel E) (z : ℤ) (m' : NyamlModel E)
      → IsRunning m
      → preview_theme H m z ≡ ok m'
      → IsRunning m'
  unfolding preview_theme
  preview_theme-IsRunning m z m' w h =
      let (name, run, h₁) = bind_ok (theme_at m.theme_list z) _ h in
      let (vp, e, w') = apply_theme-IsCoherent (record m { theme_index = z }) name m' w.1 h₁ in
      subst IsRunning e (
        record {
          chosen = theme_at-IsChosen m.theme_list z run;
          saved = w.0.saved;
          apart = w.0.apart;
        },
        w',
      )

  revert_theme-IsRunning :
      (m m' : NyamlModel E)
      → m.theme_picking ≡ true
      → IsRunning m
      → revert_theme H m ≡ ok m'
      → IsRunning m'
  unfolding revert_theme
  revert_theme-IsRunning m m' picking w h =
      let (m₁, run, e) =
        bind_ok (apply_theme H (record m { theme_picking = false }) m.previous_theme) _ h in
      let (vp, e₁, w') =
        apply_theme-IsCoherent (record m { theme_picking = false }) m.previous_theme m₁ w.1 run in
      let back : NyamlModel E → NyamlModel E =
        λ x. record x { theme_index = list_index 0 x.theme_list x.previous_theme } in
      subst IsRunning (ap back e₁ ∙ ok_injective e) (
        record {
          chosen =
              list_index-IsChosen m.theme_list m.previous_theme
                (saved-IsListed m.theme_list m.previous_theme picking w.0.saved);
          saved = inl refl;
          apart = refl;
        },
        w',
      )

  pub update_theme_input-IsRunning :
      (m : NyamlModel E) (key : Env.Key E) (m' : NyamlModel E)
      → m.theme_picking ≡ true
      → IsRunning m
      → update_theme_input H m key ≡ ok m'
      → IsRunning m'
  unfolding update_theme_input
  update_theme_input-IsRunning m key m' picking w =
      let same : ok m ≡ ok m' → IsRunning m' = λ e. subst IsRunning (ok_injective e) w in
      if_then (pressed E key _)
        (λ e.
          subst IsRunning (ok_injective e)
            (record { chosen = w.0.chosen; saved = inl refl; apart = refl }, w.1))
        (if_then (pressed E key _) (revert_theme-IsRunning m m' picking w) (
          if_then (pressed E key _)
            (if_then (ltb_ℤ m.theme_index (sub64 (pos (length m.theme_list)) (pos 1)))
              (preview_theme-IsRunning m (add64 m.theme_index (pos 1)) m' w) same)
            (if_then (pressed E key _)
              (if_then (ltb_ℤ (pos 0) m.theme_index)
                (preview_theme-IsRunning m (sub64 m.theme_index (pos 1)) m' w) same)
              same)))

  pub apply_search-IsRunning :
      (m : NyamlModel E) (term : Text) (m' : NyamlModel E)
      → IsRunning m
      → apply_search m term ≡ ok m'
      → IsRunning m'
  unfolding apply_search command
  apply_search-IsRunning m term m' w h =
      let (vp, run, e) = bind_ok (set_search_term m.viewport term) _ h in
      subst IsRunning (ok_injective e)
        (w.0, command-IsCoherent b (Command.look_for term) m.viewport vp w.1 run)

  pub update_search_input-IsRunning :
      (m : NyamlModel E) (key : Env.Key E) (m' : NyamlModel E)
      → m.theme_picking ≡ false
      → IsRunning m
      → update_search_input H m key ≡ ok m'
      → IsRunning m'
  unfolding update_search_input
  update_search_input-IsRunning m key m' closed w =
      let shut : IsRunning (record m { searching = false }) =
        (record { chosen = w.0.chosen; saved = w.0.saved; apart = rw closed refl }, w.1) in
      if_then (pressed E key _)
        (apply_search-IsRunning (record m { searching = false }) m.search_input m' shut)
        (if_then (pressed E key _) (λ e. subst IsRunning (ok_injective e) (shut.0, w.1))
          (if_then (pressed E key _) (λ e. subst IsRunning (ok_injective e) (w.0, w.1))
            (λ e. subst IsRunning (ok_injective e) (w.0, w.1))))
