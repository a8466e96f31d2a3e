-- ===== src/Examples/Programs.antt =====
-- The program on a file of one line, with two themes.
use niceyaml.Prelude.{
  ℕ, ◌≤◌, ◌<◌, ◌≡◌, refl, subst, true, false, Bool, ◌||◌, List, [], ◌∷◌, some, Outcome, ok,
  ok_injective, length, get_elem?, arith,
}
use niceyaml.Prelude.Int.{pos}
use niceyaml.Text.{Text, text_beq}
use niceyaml.Viewport.{Env}
use niceyaml.Viewport.Update.{key_press, zero_model}
use niceyaml.Viewport.Commands.Invariant.{IsBounded}
use niceyaml.Nyaml.{empty_nyaml, new_nyaml, run_nyaml, update_pressed, theme_items, cut_name}
use niceyaml.Nyaml.State.{
  Host, ModelOptions, NyamlModel, NyamlMessage, NyamlStep, sent, drawn, default_theme, enter,
  escape,
}
use niceyaml.Nyaml.Settled.{IsRunning}
use niceyaml.Nyaml.Running.{run_nyaml-IsRunning}
use niceyaml.Nyaml.Picker.{room, theme_items-selected}
use niceyaml.Nyaml.Preview.{opened, preview, update_pressed-Previews}
use niceyaml.Examples.Viewports.{env}

abbrev is_one_of : Text → List Text → Bool
is_one_of key [] = false
is_one_of key (name ∷ names) = text_beq key name || is_one_of key names

-- The keys are told apart by their names.
abbrev keyed : Env
keyed = record env {
  Key = Text;
  Binding = List Text;
  new_binding = λ names key help. names;
  key_matches = is_one_of;
}

keyed-IsBounded : IsBounded keyed
keyed-IsBounded = record {
  few_ranges = λ f term rs e.
      subst (λ v. length v < 2_305_843_009_213_693_952) (ok_injective e) (omega arith);
  length-sort = λ ms. refl;
}

abbrev host : Host keyed
host = record { key_text = λ key. key; tokenize = λ s. []; build_printer = λ numbers theme. tt }

abbrev two_themes : List Text
two_themes = default_theme ∷ (100 ∷ []) ∷ []

abbrev options : ModelOptions
options = record {
  search = 97 ∷ [];
  files = record { path = 47 ∷ 102 ∷ []; content = 97 ∷ [] } ∷ [];
  line_numbers = false;
}

abbrev key : Text → NyamlStep keyed
key name = sent (NyamlMessage.event (key_press name))

abbrev typed : List (NyamlStep keyed)
typed =
    sent (NyamlMessage.window_size (pos 20) (pos 10))
    ∷ drawn
    ∷ key (116 ∷ [])
    ∷ key (106 ∷ [])
    ∷ key enter
    ∷ key (110 ∷ [])
    ∷ []

abbrev empty_model : NyamlModel keyed
empty_model = empty_nyaml two_themes options zero_model

abbrev model_of : Outcome (NyamlModel keyed) → NyamlModel keyed
model_of (ok m) = m
model_of _ = empty_model

abbrev started : NyamlModel keyed
started = model_of (new_nyaml host two_themes options)

started-run : new_nyaml host two_themes options ≡ ok started
unfolding new_nyaml
started-run = refl

abbrev after_keys : NyamlModel keyed
after_keys = model_of (run_nyaml host typed started)

after_keys-run : run_nyaml host typed started ≡ ok after_keys
unfolding run_nyaml new_nyaml
after_keys-run = refl

run_nyaml-IsRunning_example : IsRunning after_keys
run_nyaml-IsRunning_example =
    run_nyaml-IsRunning keyed-IsBounded host two_themes options typed started after_keys (0, refl)
      started-run after_keys-run

abbrev choosing : NyamlModel keyed
choosing = record empty_model { height = pos 10; theme_index = pos 1; theme_picking = true }

theme_items-selected_example :
    (length (theme_items choosing) ≤ room 10)
    × (k : ℕ) × (get_elem? (theme_items choosing) k ≡ some (62 ∷ 32 ∷ cut_name choosing (100 ∷ [])))
theme_items-selected_example =
    theme_items-selected choosing 10 1 (100 ∷ []) refl (omega arith) refl refl (omega arith)

abbrev pressed_model : Outcome (NyamlModel keyed × Bool) → NyamlModel keyed
pressed_model (ok (m, quits)) = m
pressed_model _ = empty_model

abbrev picking : NyamlModel keyed
picking = pressed_model (update_pressed host empty_model (116 ∷ []))

picking-run : update_pressed host empty_model (116 ∷ []) ≡ ok (picking, false)
unfolding update_pressed
picking-run = refl

abbrev moved : NyamlModel keyed
moved = pressed_model (update_pressed host picking (106 ∷ []))

moved-run : update_pressed host picking (106 ∷ []) ≡ ok (moved, false)
unfolding update_pressed
moved-run = refl

moved-picking : moved.theme_picking ≡ true
unfolding update_pressed
moved-picking = refl

abbrev cancelled : NyamlModel keyed
cancelled = pressed_model (update_pressed host moved escape)

cancelled-run : update_pressed host moved escape ≡ ok (cancelled, false)
unfolding update_pressed
cancelled-run = refl

update_pressed-Previews_example :
    (cancelled.current_theme ≡ empty_model.current_theme)
    × (cancelled.theme_picking ≡ false)
    × (cancelled.searching ≡ false)
    × (cancelled.search_input ≡ empty_model.search_input)
update_pressed-Previews_example =
    update_pressed-Previews host empty_model picking moved cancelled (116 ∷ []) escape false false
      refl refl refl refl picking-run (preview (106 ∷ []) moved-run moved-picking opened) refl refl
      cancelled-run
