-- ===== src/Viewport/Scroll/Window.antt =====
-- What scrolling means: the first line of a window of `height` lines on `count` lines.
use niceyaml.Prelude.{ℕ, ◌+◌, ◌-◌, ◌/◌, List, [], ◌∷◌, min}

-- The calls that scroll vertically.
pub data Scrolling : Type 0 where
  down up : ℕ → Scrolling
  page_forward page_back half_forward half_back to_top to_bottom : Scrolling

-- A window reaches the last line and no further.
abbrev pub limit : ℕ → ℕ → ℕ
limit count height = count - height

abbrev pub advanced : ℕ → ℕ → ℕ → ℕ
advanced top first n = min top (first + n)

abbrev pub scrolled : ℕ → ℕ → Scrolling → ℕ → ℕ
scrolled count height (down n) first = advanced (limit count height) first n
scrolled count height (up n) first = first - n
scrolled count height page_forward first = advanced (limit count height) first height
scrolled count height page_back first = first - height
scrolled count height half_forward first = advanced (limit count height) first (height / 2)
scrolled count height half_back first = first - height / 2
scrolled count height to_top first = 0
scrolled count height to_bottom first = limit count height

abbrev pub scrolled_all : ℕ → ℕ → List Scrolling → ℕ → ℕ
scrolled_all count height [] first = first
scrolled_all count height (s ∷ ss) first =
    scrolled_all count height ss (scrolled count height s first)
