-- ===== src/Viewport/Commands/Scrolled.antt =====
-- The scroll operations keep what holds of a viewport.
use niceyaml.Prelude.{refl, Bool, true, false, ◌||◌, [], Option, none, some, if◌then◌else◌, arith}
use niceyaml.Prelude.Int.{ℤ, pos, negsuc, eqb_ℤ, max_ℤ, add64, sub64, ◌≤ℤ◌}
use niceyaml.Source.{Source, source_width}
use niceyaml.Viewport.{
  Env, Model, clamp_to, max_y_offset, max_x_offset, max_width, max_height, line_count, set_y_offset,
  set_x_offset, scroll_down, scroll_up, scroll_left, scroll_right, at_bottom, at_top,
}
use niceyaml.Viewport.Commands.Invariant.{IsCoherent, IsConsistent}

clamp-above : (n top : ℤ) → pos 0 ≤ℤ top → pos 0 ≤ℤ clamp_to n (pos 0) top
clamp-above n top h = ground arith

chosen-above : (b : Bool) (z : ℤ) → pos 0 ≤ℤ (if b then pos 0 else max_ℤ (pos 0) z)
chosen-above true z = omega arith
chosen-above false z = ground arith

pub wrapped-above : (b : Bool) (x : ℤ) → pos 0 ≤ℤ x → pos 0 ≤ℤ (if b then pos 0 else x)
wrapped-above true x h = omega arith
wrapped-above false x h = h

module _ {E : Env} where
  max_y_offset-above : (m : Model E) → pos 0 ≤ℤ max_y_offset m
  unfolding max_y_offset
  max_y_offset-above m =
      chosen-above (eqb_ℤ (line_count m) (pos 0)) (sub64 (line_count m) (max_height m))

  max_x_offset-above : (m : Model E) → pos 0 ≤ℤ max_x_offset m
  unfolding max_x_offset
  max_x_offset-above m = shown m.left
    where
      shown :
          (o : Option Source)
          → pos 0 ≤ℤ (elim o [
            | none ↦ pos 0
            | some s ↦ max_ℤ (pos 0) (sub64 (pos (source_width s)) (max_width m))
          ])
      shown none = omega arith
      shown (some s) = chosen-above false (sub64 (pos (source_width s)) (max_width m))

  -- New offsets that are not negative.
  pub moved-IsConsistent :
      (m : Model E) (y x : ℤ)
      → IsCoherent m
      → pos 0 ≤ℤ y
      → pos 0 ≤ℤ x
      → IsConsistent m.search_term m.search_matches m.search_index y x m.initialized
  moved-IsConsistent m y x w h k = record {
    selected = w.selected;
    searched = w.searched;
    few = w.few;
    above = h;
    beside = k;
    set_up = w.set_up;
  }

  pub set_y_offset-IsCoherent : (m : Model E) (n : ℤ) → IsCoherent m → IsCoherent (set_y_offset m n)
  unfolding set_y_offset
  set_y_offset-IsCoherent m n w =
      moved-IsConsistent m _ m.x_offset w (clamp-above n (max_y_offset m) (max_y_offset-above m))
        w.beside

  pub set_x_offset-IsCoherent : (m : Model E) (n : ℤ) → IsCoherent m → IsCoherent (set_x_offset m n)
  unfolding set_x_offset
  set_x_offset-IsCoherent m n w =
      moved-IsConsistent m m.y_offset _ w w.above
        (clamp-above n (max_x_offset m) (max_x_offset-above m))

  pub either :
      (b : Bool) (m m' : Model E) → IsCoherent m → IsCoherent m' → IsCoherent (if b then m else m')
  either true m m' w w' = w
  either false m m' w w' = w'

  pub scroll_down-IsCoherent : (m : Model E) (n : ℤ) → IsCoherent m → IsCoherent (scroll_down m n)
  unfolding scroll_down
  scroll_down-IsCoherent m n w =
      either (at_bottom m || eqb_ℤ n (pos 0)) m _ w
        (set_y_offset-IsCoherent m (add64 m.y_offset n) w)

  pub scroll_up-IsCoherent : (m : Model E) (n : ℤ) → IsCoherent m → IsCoherent (scroll_up m n)
  unfolding scroll_up
  scroll_up-IsCoherent m n w =
      either (at_top m || eqb_ℤ n (pos 0)) m _ w (set_y_offset-IsCoherent m (sub64 m.y_offset n) w)

  pub scroll_left-IsCoherent : (m : Model E) (n : ℤ) → IsCoherent m → IsCoherent (scroll_left m n)
  unfolding scroll_left
  scroll_left-IsCoherent m n w = set_x_offset-IsCoherent m (sub64 m.x_offset n) w

  pub scroll_right-IsCoherent : (m : Model E) (n : ℤ) → IsCoherent m → IsCoherent (scroll_right m n)
  unfolding scroll_right
  scroll_right-IsCoherent m n w = set_x_offset-IsCoherent m (add64 m.x_offset n) w

  -- The search without a term.
  pub cleared-IsCoherent :
      (m : Model E)
      → IsCoherent m
      → IsCoherent (record m { search_term = []; search_matches = []; search_index = negsuc 0 })
  cleared-IsCoherent m w = record {
    selected = refl;
    searched = λ _. refl;
    few = omega arith;
    above = w.above;
    beside = w.beside;
    set_up = w.set_up;
  }
