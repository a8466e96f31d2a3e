-- ===== src/Viewport/Commands/Messages.antt =====
-- The messages keep what holds of a viewport.
use niceyaml.Prelude.{
  ◌≡◌, sym, ap, ◌∙◌, subst, not, ok, of_option, if◌then◌else◌, if_then, bind_ok, ok_injective,
}
use niceyaml.Prelude.Int.{pos, negsuc}
use niceyaml.Viewport.{
  Env, Model, KeyMap, DiffMode, ViewMode, max_height, half, page_down, page_up, half_page_down,
  half_page_up, scroll_down, scroll_up, scroll_left, scroll_right,
}
use niceyaml.Viewport.Revisions.{
  set_diff_mode, toggle_diff_mode, set_view_mode, toggle_view_mode, next_diff_mode, next_view_mode,
  next_revision, prev_revision, search_next, search_previous,
}
use niceyaml.Viewport.Update.{
  Message, key_press, mouse_wheel, other_message, Button, wheel_down, wheel_up, wheel_left,
  wheel_right, other_button, shift_wheel, plain_wheel, update_mode, update_key, dispatch, update,
  set_initial_values,
}
use niceyaml.Viewport.Commands.{run}
use niceyaml.Viewport.Commands.Invariant.{IsBounded, IsCoherent}
use niceyaml.Viewport.Commands.Rerender.{rerender-IsCoherent}
use niceyaml.Viewport.Commands.Display.{toggle_word_wrap-IsCoherent, seek_revision-IsCoherent}
use niceyaml.Viewport.Commands.Scrolled.{
  scroll_down-IsCoherent, scroll_up-IsCoherent, scroll_left-IsCoherent, scroll_right-IsCoherent,
}
use niceyaml.Viewport.Commands.Searching.{navigate_search-IsCoherent, next-IsStep, previous-IsStep}

-- A step that returned at once.
module _ {E : Env} where
  pub returned : (m m' : Model E) → IsCoherent m → ok m ≡ ok m' → IsCoherent m'
  returned m m' w h = subst IsCoherent (ok_injective h) w

module _ {E : Env} (b : IsBounded E) where
  pub next_revision-IsCoherent :
      (m m' : Model E) → IsCoherent m → next_revision m ≡ ok m' → IsCoherent m'
  unfolding next_revision
  next_revision-IsCoherent m m' w h = seek_revision-IsCoherent b m (pos 1) m' w h

  pub prev_revision-IsCoherent :
      (m m' : Model E) → IsCoherent m → prev_revision m ≡ ok m' → IsCoherent m'
  unfolding prev_revision
  prev_revision-IsCoherent m m' w h = seek_revision-IsCoherent b m (negsuc 0) m' w h

  pub set_diff_mode-IsCoherent :
      (m : Model E) (mode : DiffMode) (m' : Model E)
      → IsCoherent m
      → set_diff_mode m mode ≡ ok m'
      → IsCoherent m'
  unfolding set_diff_mode
  set_diff_mode-IsCoherent m mode m' w h =
      rerender-IsCoherent b (record m { diff_mode = mode }) m' w h

  pub set_view_mode-IsCoherent :
      (m : Model E) (mode : ViewMode) (m' : Model E)
      → IsCoherent m
      → set_view_mode m mode ≡ ok m'
      → IsCoherent m'
  unfolding set_view_mode
  set_view_mode-IsCoherent m mode m' w h =
      rerender-IsCoherent b (record m { view_mode = mode }) m' w h

  pub toggle_diff_mode-IsCoherent :
      (m m' : Model E) → IsCoherent m → toggle_diff_mode m ≡ ok m' → IsCoherent m'
  unfolding toggle_diff_mode
  toggle_diff_mode-IsCoherent m m' w h =
      rerender-IsCoherent b (record m { diff_mode = next_diff_mode m.diff_mode }) m' w h

  pub toggle_view_mode-IsCoherent :
      (m m' : Model E) → IsCoherent m → toggle_view_mode m ≡ ok m' → IsCoherent m'
  unfolding toggle_view_mode
  toggle_view_mode-IsCoherent m m' w h =
      rerender-IsCoherent b (record m { view_mode = next_view_mode m.view_mode }) m' w h

  pub page_down-IsCoherent : (m : Model E) → IsCoherent m → IsCoherent (page_down m)
  unfolding page_down
  page_down-IsCoherent m w = scroll_down-IsCoherent m (max_height m) w

  pub page_up-IsCoherent : (m : Model E) → IsCoherent m → IsCoherent (page_up m)
  unfolding page_up
  page_up-IsCoherent m w = scroll_up-IsCoherent m (max_height m) w

  pub half_page_down-IsCoherent : (m : Model E) → IsCoherent m → IsCoherent (half_page_down m)
  unfolding half_page_down
  half_page_down-IsCoherent m w = scroll_down-IsCoherent m (half (max_height m)) w

  pub half_page_up-IsCoherent : (m : Model E) → IsCoherent m → IsCoherent (half_page_up m)
  unfolding half_page_up
  half_page_up-IsCoherent m w = scroll_up-IsCoherent m (half (max_height m)) w

  pub search_next-IsCoherent :
      (m m' : Model E) → IsCoherent m → search_next m ≡ ok m' → IsCoherent m'
  unfolding search_next
  search_next-IsCoherent m m' w h = navigate_search-IsCoherent b m (pos 1) m' (next-IsStep b) w h

  pub search_previous-IsCoherent :
      (m m' : Model E) → IsCoherent m → search_previous m ≡ ok m' → IsCoherent m'
  unfolding search_previous
  search_previous-IsCoherent m m' w h =
      navigate_search-IsCoherent b m (negsuc 0) m' (previous-IsStep b) w h

  update_mode-IsCoherent :
      (m : Model E) (k : KeyMap E) (key : Env.Key E) (m' : Model E)
      → IsCoherent m
      → update_mode m k key ≡ ok m'
      → IsCoherent m'
  unfolding update_mode
  update_mode-IsCoherent m k key m' w h =
      if_then (E.key_matches key k.left)
        (returned (scroll_left m m.horizontal_step) m'
          (scroll_left-IsCoherent m m.horizontal_step w))
        (if_then (E.key_matches key k.right)
          (returned (scroll_right m m.horizontal_step) m'
            (scroll_right-IsCoherent m m.horizontal_step w))
          (if_then (E.key_matches key k.next_revision) (next_revision-IsCoherent m m' w) (
            if_then (E.key_matches key k.prev_revision) (prev_revision-IsCoherent m m' w) (
              if_then (E.key_matches key k.toggle_diff_mode) (toggle_diff_mode-IsCoherent m m' w) (
                if_then (E.key_matches key k.toggle_view_mode) (toggle_view_mode-IsCoherent m m' w)
                  (if_then (E.key_matches key k.toggle_word_wrap)
                    (toggle_word_wrap-IsCoherent b m m' w) (returned m m' w)))))))
        h

  update_key-IsCoherent :
      (m : Model E) (k : KeyMap E) (key : Env.Key E) (m' : Model E)
      → IsCoherent m
      → update_key m k key ≡ ok m'
      → IsCoherent m'
  unfolding update_key
  update_key-IsCoherent m k key m' w h =
      if_then (E.key_matches key k.page_down) (returned (page_down m) m' (page_down-IsCoherent m w))
        (if_then (E.key_matches key k.page_up) (returned (page_up m) m' (page_up-IsCoherent m w)) (
          if_then (E.key_matches key k.half_page_down)
            (returned (half_page_down m) m' (half_page_down-IsCoherent m w))
            (if_then (E.key_matches key k.half_page_up)
              (returned (half_page_up m) m' (half_page_up-IsCoherent m w))
              (if_then (E.key_matches key k.down)
                (returned (scroll_down m (pos 1)) m' (scroll_down-IsCoherent m (pos 1) w))
                (if_then (E.key_matches key k.up)
                  (returned (scroll_up m (pos 1)) m' (scroll_up-IsCoherent m (pos 1) w))
                  (update_mode-IsCoherent m k key m' w))))))
        h

  shift_wheel-IsCoherent :
      (m : Model E) (button : Button) → IsCoherent m → IsCoherent (shift_wheel m button)
  shift_wheel-IsCoherent m wheel_down w = scroll_right-IsCoherent m m.horizontal_step w
  shift_wheel-IsCoherent m wheel_up w = scroll_left-IsCoherent m m.horizontal_step w
  shift_wheel-IsCoherent m wheel_left w = w
  shift_wheel-IsCoherent m wheel_right w = w
  shift_wheel-IsCoherent m other_button w = w

  plain_wheel-IsCoherent :
      (m : Model E) (button : Button) → IsCoherent m → IsCoherent (plain_wheel m button)
  plain_wheel-IsCoherent m wheel_down w = scroll_down-IsCoherent m m.mouse_wheel_delta w
  plain_wheel-IsCoherent m wheel_up w = scroll_up-IsCoherent m m.mouse_wheel_delta w
  plain_wheel-IsCoherent m wheel_left w = scroll_left-IsCoherent m m.horizontal_step w
  plain_wheel-IsCoherent m wheel_right w = scroll_right-IsCoherent m m.horizontal_step w
  plain_wheel-IsCoherent m other_button w = w

  dispatch-IsCoherent :
      (m : Model E) (msg : Message E) (m' : Model E)
      → IsCoherent m
      → dispatch m msg ≡ ok m'
      → IsCoherent m'
  unfolding dispatch
  dispatch-IsCoherent m (key_press key) m' w h =
      let (k, run, h₁) = bind_ok (of_option m.key_map) _ h in update_key-IsCoherent m k key m' w h₁
  dispatch-IsCoherent m (mouse_wheel shift button) m' w h =
      if_then (not m.mouse_wheel_enabled) (λ e. subst IsCoherent e w)
        (if_then shift (λ e. subst IsCoherent e (shift_wheel-IsCoherent m button w))
          (λ e. subst IsCoherent e (plain_wheel-IsCoherent m button w)))
        (ok_injective h)
  dispatch-IsCoherent m other_message m' w h = returned m m' w h

  pub update-IsCoherent :
      (m : Model E) (msg : Message E) (m' : Model E)
      → IsCoherent m
      → update m msg ≡ ok m'
      → IsCoherent m'
  unfolding update
  update-IsCoherent m msg m' w h =
      let ready : (if m.initialized then m else set_initial_values m) ≡ m =
        ap (λ set. if set then m else set_initial_values m) w.set_up in
      dispatch-IsCoherent m msg m' w (sym (ap (λ v. dispatch v msg) ready) ∙ h)
