-- ===== src/Viewport/Scroll.antt =====
-- The vertical scroll of the viewport against a window on a list of lines.
pub mod Window
use niceyaml.Prelude.{
  Bool, ◌⊎◌, ℕ, zero, suc, ◌+◌, ◌-◌, ◌/◌, ◌≤◌, ◌<◌, ◌≡◌, refl, sym, ap, ◌∙◌, true, false, List, [],
  ◌∷◌, Option, none, some, min, ltb, arith, Bool-cases, inl, inr, length, if◌then◌else◌, ◌==◌, ◌||◌,
  not,
}
use niceyaml.Prelude.Int.{
  ℤ, pos, negsuc, sub_ℕ, eqb_ℤ, ltb_ℤ, max_ℤ, min_ℤ, add64, sub64, add64-pos, sub64-pos, half_range,
}
use niceyaml.Line.{Line}
use niceyaml.Source.{Source, source_len, has_no_lines}
use niceyaml.Viewport.{
  Env, Model, clamp_to, half, max_height, line_count, max_y_offset, set_y_offset, at_top, at_bottom,
  scroll_down, scroll_up, page_down, page_up, half_page_down, half_page_up, goto_top, goto_bottom,
  has_content,
}
use niceyaml.Viewport.Scroll.Window.{
  Scrolling, down, up, page_forward, page_back, half_forward, half_back, to_top, to_bottom, limit,
  scrolled, scrolled_all, advanced,
}

pub pos_injective : {a b : ℕ} → pos a ≡ pos b → a ≡ b
pos_injective h = ground arith

module _ {E : Env} where
  abbrev pub scroll : Scrolling → Model E → Model E
  scroll (down n) m = scroll_down m (pos n)
  scroll (up n) m = scroll_up m (pos n)
  scroll page_forward m = page_down m
  scroll page_back m = page_up m
  scroll half_forward m = half_page_down m
  scroll half_back m = half_page_up m
  scroll to_top m = goto_top m
  scroll to_bottom m = goto_bottom m

  abbrev pub scroll_all : List Scrolling → Model E → Model E
  scroll_all [] m = m
  scroll_all (s ∷ ss) m = scroll_all ss (scroll s m)

  abbrev pub at_line : Model E → ℕ → Model E
  at_line m first = record m { y_offset = pos first }

  -- The sizes of what the viewport shows, as numbers.
  pub record IsSized (m : Model E) (count height : ℕ) : Type 0 where
    pub lines : line_count m ≡ pos count
    pub rows : max_height m ≡ pos height
    pub fits : count < half_range
    pub small : height < half_range

  module _ (m : Model E) (count height : ℕ) (sized : IsSized m count height) where
    pub max_y_offset-limit : max_y_offset m ≡ pos (limit count height)
    unfolding max_y_offset
    max_y_offset-limit =
        rw (sized.lines, sized.rows, sub64-pos count height sized.fits sized.small) (ground arith)

    no_lines : has_content m ≡ false → count ≡ 0
    unfolding line_count
    no_lines h = empty m.left h sized.lines
      where
        bare :
            (ls : List Line) → not ((elim ls [ [] ↦ true | _ ∷ _ ↦ false ])) ≡ false → length ls ≡ 0
        bare [] e = refl
        bare (l ∷ ls) e = cc

        empty :
            (o : Option Source)
            → (elim o [ none ↦ false | some s ↦ not (has_no_lines s) ]) ≡ false
            → (elim o [ none ↦ pos 0 | some s ↦ pos (source_len s) ]) ≡ pos count
            → count ≡ 0
        empty none e c = ground arith
        empty (some s) e c = omega (arith, bare s.lines e, pos_injective c)

    pub set_y_offset-line :
        (k : ℕ) (z : ℤ)
        → clamp_to z (pos 0) (pos (limit count height)) ≡ pos k
        → set_y_offset m z ≡ at_line m k
    unfolding set_y_offset max_y_offset line_count max_height
    set_y_offset-line k z e =
        ap (λ top. record m { y_offset = top })
          (ap (λ top. clamp_to z (pos 0) top) max_y_offset-limit ∙ e)

    set_y_offset-window :
        (first k : ℕ) (z : ℤ)
        → clamp_to z (pos 0) (pos (limit count height)) ≡ pos k
        → set_y_offset (at_line m first) z ≡ at_line m k
    unfolding set_y_offset max_y_offset line_count max_height
    set_y_offset-window first k z e =
        ap (λ top. record m { y_offset = top })
          (ap (λ top. clamp_to z (pos 0) top) max_y_offset-limit ∙ e)

    -- A guard that finds nothing to do leaves the window where the move would leave it.
    guarded :
        (first to : ℕ) (b : Bool) (moved : Model E)
        → (b ≡ true → first ≡ to)
        → moved ≡ at_line m to
        → (if b then at_line m first else moved) ≡ at_line m to
    guarded first to true moved stays e = ap (at_line m) (stays refl)
    guarded first to false moved stays e = e

    scroll_down-window :
        (first n : ℕ)
        → first ≤ limit count height
        → first + n < half_range
        → scroll_down (at_line m first) (pos n) ≡ at_line m (advanced (limit count height) first n)
    unfolding scroll_down at_bottom max_y_offset line_count max_height
    scroll_down-window first n le small =
        guarded first (advanced (limit count height) first n)
          ((not (has_content m) || not (ltb_ℤ (pos first) (max_y_offset m)))
            || eqb_ℤ (pos n) (pos 0))
          (set_y_offset (at_line m first) (add64 (pos first) (pos n)))
          (λ e. stays (max_y_offset-limit) (Bool-cases (has_content m)) e)
          (rw (add64-pos first n small) (
            set_y_offset-window first (advanced (limit count height) first n) (pos (first + n))
              (ground arith)))
      where
        stays :
            {top : ℤ}
            → top ≡ pos (limit count height)
            → (has_content m ≡ true) ⊎ (has_content m ≡ false)
            → ((not (has_content m) || not (ltb_ℤ (pos first) top)) || eqb_ℤ (pos n) (pos 0)) ≡ true
            → first ≡ advanced (limit count height) first n
        stays e (inr nothing) h = let none_left = no_lines nothing in omega arith
        stays e (inl content) h =
            let h' : (not (ltb_ℤ (pos first) (pos (limit count height))) || eqb_ℤ (pos n) (pos 0))
                ≡ true =
              rw (content, e) at h in
            ground arith

    scroll_up-window :
        (first n : ℕ)
        → first ≤ limit count height
        → n < half_range
        → scroll_up (at_line m first) (pos n) ≡ at_line m (first - n)
    unfolding scroll_up at_top line_count max_height
    scroll_up-window first n le small =
        guarded first (first - n)
          ((not (has_content m) || not (ltb_ℤ (pos 0) (pos first))) || eqb_ℤ (pos n) (pos 0))
          (set_y_offset (at_line m first) (sub64 (pos first) (pos n)))
          (stays (Bool-cases (has_content m)))
          (rw (sub64-pos first n (omega (arith, sized.fits)) small)
            (set_y_offset-window first (first - n) (sub_ℕ first n) (ground arith)))
      where
        stays :
            (has_content m ≡ true) ⊎ (has_content m ≡ false)
            → ((not (has_content m) || not (ltb_ℤ (pos 0) (pos first))) || eqb_ℤ (pos n) (pos 0))
              ≡ true
            → first ≡ first - n
        stays (inr nothing) h = let none_left = no_lines nothing in omega arith
        stays (inl content) h =
            let h' : (not (ltb_ℤ (pos 0) (pos first)) || eqb_ℤ (pos n) (pos 0)) ≡ true =
              rw content at h in
            ground arith

    -- The numbers that a call scrolls by.
    abbrev pub IsShort : Scrolling → Type 0
    IsShort (down n) = count + n < half_range
    IsShort (up n) = n < half_range
    IsShort _ = count + height < half_range

    scroll-window :
        (s : Scrolling) (first : ℕ)
        → first ≤ limit count height
        → IsShort s
        → scroll s (at_line m first) ≡ at_line m (scrolled count height s first)
    unfolding page_down page_up half_page_down half_page_up goto_top goto_bottom max_y_offset
        line_count max_height
    scroll-window (down n) first le h = scroll_down-window first n le (omega arith)
    scroll-window (up n) first le h = scroll_up-window first n le h
    scroll-window page_forward first le h =
        ap (scroll_down (at_line m first)) sized.rows
        ∙ scroll_down-window first height le (omega arith)
    scroll-window page_back first le h =
        ap (scroll_up (at_line m first)) sized.rows ∙ scroll_up-window first height le sized.small
    scroll-window half_forward first le h =
        ap (λ n. scroll_down (at_line m first) (half n)) sized.rows
        ∙ scroll_down-window first (height / 2) le (omega arith)
    scroll-window half_back first le h =
        ap (λ n. scroll_up (at_line m first) (half n)) sized.rows
        ∙ scroll_up-window first (height / 2) le (omega arith)
    scroll-window to_top first le h = set_y_offset-window first 0 (pos 0) (ground arith)
    scroll-window to_bottom first le h =
        ap (set_y_offset (at_line m first)) max_y_offset-limit
        ∙ set_y_offset-window first (limit count height) (pos (limit count height)) (ground arith)

    scrolled-limit :
        (s : Scrolling) (first : ℕ)
        → first ≤ limit count height
        → scrolled count height s first ≤ limit count height
    scrolled-limit (down n) first le = omega arith
    scrolled-limit (up n) first le = omega arith
    scrolled-limit page_forward first le = omega arith
    scrolled-limit page_back first le = omega arith
    scrolled-limit half_forward first le = omega arith
    scrolled-limit half_back first le = omega arith
    scrolled-limit to_top first le = omega arith
    scrolled-limit to_bottom first le = omega arith

    abbrev pub AllShort : List Scrolling → Type 0
    AllShort [] = Unit
    AllShort (s ∷ ss) = IsShort s × AllShort ss

    scroll_all-lines :
        (ss : List Scrolling) (first : ℕ)
        → first ≤ limit count height
        → AllShort ss
        → (scroll_all ss (at_line m first) ≡ at_line m (scrolled_all count height ss first))
          × (scrolled_all count height ss first ≤ limit count height)
    scroll_all-lines [] first le h = (refl, le)
    scroll_all-lines (s ∷ ss) first le h =
        let next = scrolled count height s first in
        let (run, bound) = scroll_all-lines ss next (scrolled-limit s first le) h.1 in
        (ap (scroll_all ss) (scroll-window s first le h.0) ∙ run, bound)

    -- Any calls that scroll vertically, one after the other, move the viewport as they move a window
    -- that starts at a line and reaches neither above the first line nor below the last one, and
    -- change nothing else; from an offset within those bounds, where the numbers of lines and the
    -- lines scrolled by stay below 2 ^ 63.
    pub scroll_all-window :
        (ss : List Scrolling) (first : ℕ)
        → m.y_offset ≡ pos first
        → first ≤ limit count height
        → AllShort ss
        → (scroll_all ss m ≡ at_line m (scrolled_all count height ss first))
          × (scrolled_all count height ss first ≤ limit count height)
    scroll_all-window ss first e le h =
        let (run, bound) = scroll_all-lines ss first le h in
        (ap (λ y. scroll_all ss (record m { y_offset = y })) e ∙ run, bound)
