-- ===== src/Nyaml/State.antt =====
-- cmd/nyaml/model.go: the state of the program, its messages, and the texts of keys and paths.
use niceyaml.Prelude.{ℕ, ◌+◌, ◌==◌, Bool, List, [], ◌∷◌, ◌++◌, Outcome, panic, at, if◌then◌else◌}
use niceyaml.Prelude.Int.{ℤ, pos, negsuc}
use niceyaml.Text.{Text, text_beq}
use niceyaml.Tokens.{TokenRef}
use niceyaml.Viewport.{Env, Model, half}
use niceyaml.Viewport.Update.{Message}

-- What the program uses besides: the text of a key, go-yaml's lexer, and the printer that
-- `buildPrinterOpts` and `NewPrinter` make of the line numbers and a theme's name.
pub record Host (E : Env) : Type 0 where
  pub key_text : Env.Key E → Text
  pub tokenize : Text → List TokenRef
  pub build_printer : Bool → Text → Env.Printer E

-- The structs `fileEntry` and `modelOptions`.
pub record FileEntry : Type 0 where
  pub path : Text
  pub content : Text

pub record ModelOptions : Type 0 where
  pub search : Text
  pub files : List FileEntry
  pub line_numbers : Bool

-- The struct `model`.
pub record NyamlModel (E : Env) : Type 0 where
  pub search_input : Text
  pub current_theme : Text
  pub previous_theme : Text
  pub theme_list : List Text
  pub viewport : Model E
  pub width : ℤ
  pub height : ℤ
  pub theme_index : ℤ
  pub line_numbers : Bool
  pub searching : Bool
  pub theme_picking : Bool

-- The messages that `Update` looks at; those that are not a `tea.WindowSizeMsg` it hands on.
pub data NyamlMessage (E : Env) : Type 0 where
  window_size : ℤ → ℤ → NyamlMessage E
  event : Message E → NyamlMessage E

-- What happens to the program: a message comes, or it is drawn.
pub data NyamlStep (E : Env) : Type 0 where
  sent : NyamlMessage E → NyamlStep E
  drawn : NyamlStep E

abbrev pub default_theme : Text
default_theme = 99 ∷ 104 ∷ 97 ∷ 114 ∷ 109 ∷ []

-- `filepath.Base`: without the slashes at the end, what is behind the last slash.
abbrev or_byte : ℕ → Text → Text
or_byte c [] = if c == 47 then [] else c ∷ []
or_byte c (d ∷ s) = c ∷ d ∷ s

abbrev trim_slashes : Text → Text
trim_slashes [] = []
trim_slashes (c ∷ s) = or_byte c (trim_slashes s)

abbrev last_element : Text → Text → Text
last_element part [] = part
last_element part (c ∷ s) =
    let next = last_element [] s in
    let same = last_element (part ++ c ∷ []) s in if c == 47 then next else same

abbrev pub base_name : Text → Text
base_name [] = 46 ∷ []
base_name (c ∷ s) = elim (last_element [] (trim_slashes (c ∷ s))) [ [] ↦ 47 ∷ [] | d ∷ t ↦ d ∷ t ]

-- `slices.Index`, from the index `i` on.
unfoldable pub list_index : ℕ → List Text → Text → ℤ
list_index i [] name = negsuc 0
list_index i (t ∷ ts) name =
    let later = list_index (i + 1) ts name in if text_beq t name then pos i else later

-- `m.themeList[i]`.
abbrev pub theme_at : List Text → ℤ → Outcome Text
theme_at themes (pos i) = at themes i
theme_at themes (negsuc i) = panic

-- `s[:len(s)-1]`, of a string that is not empty.
abbrev pub but_last : Text → Text
but_last [] = []
but_last (c ∷ []) = []
but_last (c ∷ d ∷ s) = c ∷ but_last (d ∷ s)

-- The names of keys that have no letter.
abbrev pub ctrl_c : Text
ctrl_c = 99 ∷ 116 ∷ 114 ∷ 108 ∷ 43 ∷ 99 ∷ []

abbrev pub escape : Text
escape = 101 ∷ 115 ∷ 99 ∷ []

abbrev pub enter : Text
enter = 101 ∷ 110 ∷ 116 ∷ 101 ∷ 114 ∷ []

abbrev pub backspace : Text
backspace = 98 ∷ 97 ∷ 99 ∷ 107 ∷ 115 ∷ 112 ∷ 97 ∷ 99 ∷ 101 ∷ []

abbrev pub arrow_down : Text
arrow_down = 100 ∷ 111 ∷ 119 ∷ 110 ∷ []

abbrev pub arrow_up : Text
arrow_up = 117 ∷ 112 ∷ []

-- `key.Matches` with a binding of some keys.
abbrev pub pressed : (E : Env) → Env.Key E → List Text → Bool
pressed E key names = E.key_matches key (E.new_binding names [] [])

-- `n / 4`, which rounds towards 0 as two halves do.
abbrev pub quarter : ℤ → ℤ
quarter n = half (half n)
