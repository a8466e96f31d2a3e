-- ===== src/Viewport/View/Visible.antt =====
-- What the viewport shows: how many lines, and what the hunks show.
use niceyaml.Prelude.{
  ℕ, zero, suc, ◌-◌, ◌≤◌, ◌≡◌, refl, sym, ap, ◌∙◌, Bool, true, false, List, [], ◌∷◌, ◌++◌, map,
  Option, none, some, Outcome, ok, ◌>>=◌, of_option, length, length-take, length-append,
  length-replicate, length-map, take, replicate, Bool-cases, ◌⊎◌, inl, inr, if◌then◌else◌, arith,
  fun_ext,
}
use niceyaml.Prelude.Int.{ℤ, pos, eqb_ℤ, ltb_ℤ, min_ℤ, add64}
use niceyaml.Text.{Text}
use niceyaml.Source.{Source, source_len}
use niceyaml.Position.{new_span}
use niceyaml.Viewport.{Env, Model, full, hunks, max_height, max_width}
use niceyaml.Viewport.Render.{resolve_revision_source, found_diff, get_diff_base_revision}
use niceyaml.Viewport.View.{
  render_visible, fit_lines, fitted, visible_lines, or_empty, split_lines, view_text, view_sized,
  view_in, hunk_lines, get_hunks_diff_content, get_view_dimensions, render_content, kept, view,
  text_of,
}

padded-length :
    (fill : Bool) (height : ℕ) (ls : List Text)
    → let kept = take height ls in
      let padded = if fill then kept ++ replicate (height - length kept) [] else kept in
      (length padded ≤ height) × (fill ≡ true → length padded ≡ height)
padded-length true height ls =
    let size : length (take height ls ++ replicate (height - length (take height ls)) []) ≡ height =
      omega (
        arith,
        length-take height ls,
        length-append (take height ls) (replicate (height - length (take height ls)) []),
        length-replicate {A = Text} (height - length (take height ls)) [],
      ) in
    (omega arith, λ _. size)
padded-length false height ls = (omega (arith, length-take height ls), λ h. cc)

cut-length :
    (wrap fill : Bool) (height : ℕ) (padded : List Text) (f : Text → Text)
    → (length padded ≤ height) × (fill ≡ true → length padded ≡ height)
    → (length (if wrap then padded else map f padded) ≤ height)
      × (fill ≡ true → length (if wrap then padded else map f padded) ≡ height)
cut-length true fill height padded f h = h
cut-length false fill height padded f h =
    (omega (arith, length-map padded f, h.0), λ e. length-map padded f ∙ h.1 e)

nonzero : (n : ℕ) → eqb_ℤ (pos (suc n)) (pos 0) ≡ false
nonzero n = ground arith

module _ {E : Env} where
  -- As many lines as there is room for, or all the room where it is to be filled.
  abbrev pub Fits : Model E → ℕ → List Text → Type 0
  Fits m height ls = (length ls ≤ height) × (m.fill_height ≡ true → length ls ≡ height)

  fit_lines-Fits :
      (m : Model E) (height : ℕ) (ls : List Text) → Fits m height (fit_lines m height ls)
  unfolding fit_lines
  fit_lines-Fits m height ls =
      cut-length m.wrap_enabled m.fill_height height
        (if m.fill_height
          then take height ls ++ replicate (height - length (take height ls)) []
          else take height ls)
        (λ t. E.cut t m.x_offset (add64 m.x_offset (max_width m)))
        (padded-length m.fill_height height ls)

  fitted-Fits : (m : Model E) (height : ℕ) (ls : List Text) → Fits m height (fitted m height ls)
  fitted-Fits m height [] = blank m.fill_height
    where
      blank :
          (fill : Bool)
          → (length {A = Text} (if fill then replicate height [] else []) ≤ height)
            × (fill ≡ true → length {A = Text} (if fill then replicate height [] else []) ≡ height)
      blank true = let size = length-replicate {A = Text} height [] in (omega arith, λ _. size)
      blank false = (omega arith, λ h. cc)
  fitted-Fits m height (l ∷ ls) = fit_lines-Fits m height (l ∷ ls)

  render_visible-total :
      (m : Model E) (p : Env.Printer E)
      → m.printer ≡ some p
      → (o : Option (List Text)) × (render_visible m ≡ ok o)
  unfolding render_visible
  render_visible-total m p e = shown m.left
    where
      printed :
          (o : Option (Env.Printer E))
          → o ≡ some p
          → (s : Source) → (z : ℤ)
          → (r : Option (List Text)) × ((of_option o
                >>= (λ q. ok (split_lines (E.print q s (new_span m.y_offset z ∷ [])))))
              ≡ ok r)
      printed none h s z = cc
      printed (some q) h s z = (split_lines (E.print q s (new_span m.y_offset z ∷ [])), refl)

      shown :
          (o : Option Source)
          → (r : Option (List Text)) × ((elim o as (λ _. Outcome (Option (List Text))) [
            | none ↦ ok none
            | some s ↦
                let end = min_ℤ (add64 m.y_offset (max_height m)) (pos (source_len s)) in
                if ltb_ℤ m.y_offset end
                then of_option m.printer
                  >>= (λ q. ok (split_lines (E.print q s (new_span m.y_offset end ∷ []))))
                else ok none
          ])
              ≡ ok r)
      shown none = (none, refl)
      shown (some s) =
          let end = min_ℤ (add64 m.y_offset (max_height m)) (pos (source_len s)) in
          elim (Bool-cases (ltb_ℤ m.y_offset end)) [
            | inl some_line ↦ let (r, run) = printed m.printer e s end in (r, rw some_line run)
            | inr no_line ↦ (none, rw no_line refl)
          ]

  -- The visible lines: there are no more than the height of the viewport, and as many where
  -- FillHeight is set; visibleLines returns, for lines given to it and for those that it prints
  -- itself, where a printer is set and the viewport has a width.
  pub visible_lines-Fits :
      (m : Model E) (lines : Option (List Text)) (p : Env.Printer E) (height width : ℕ)
      → m.printer ≡ some p
      → max_height m ≡ pos height
      → max_width m ≡ pos (suc width)
      → (ls : List Text) × (visible_lines m lines ≡ ok ls) × Fits m height ls
  unfolding visible_lines
  visible_lines-Fits m lines p zero width e rows columns =
      ([], rw (visible_lines, rows) refl, (omega arith, λ _. refl))
  visible_lines-Fits m none p (suc height) width e rows columns =
      let (o, run) = render_visible-total m p e in
      (
        fitted m (suc height) (or_empty o),
        rw (visible_lines, rows, nonzero height, columns, nonzero width) (rw run refl),
        fitted-Fits m (suc height) (or_empty o),
      )
  visible_lines-Fits m (some ls) p (suc height) width e rows columns = (
    fitted m (suc height) ls,
    rw (visible_lines, rows, nonzero height, columns, nonzero width) refl,
    fitted-Fits m (suc height) ls,
  )

  -- The lines of the hunks are those given, for every vertical offset.
  hunk_lines-content :
      (m : Model E) (y : ℤ) (c : ℕ) (content : Text)
      → get_hunks_diff_content m ≡ ok (c ∷ content)
      → hunk_lines (record m { y_offset = y }) ≡ hunk_lines m
  unfolding hunk_lines get_hunks_diff_content resolve_revision_source found_diff
      get_diff_base_revision split_lines visible_lines fit_lines max_height max_width
  hunk_lines-content m y c content e =
      let e' : get_hunks_diff_content (record m { y_offset = y }) ≡ ok (c ∷ content) = e in
      ap (λ o. o >>= (λ t. visible_lines (record m { y_offset = y }) (split_lines t))) e'
      ∙ sym (ap (λ o. o >>= (λ t. visible_lines m (split_lines t))) e)

  hunk_lines-bare :
      (m : Model E) → get_hunks_diff_content m ≡ ok [] → hunk_lines m ≡ visible_lines m none
  unfolding hunk_lines split_lines
  hunk_lines-bare m e = ap (λ o. o >>= (λ t. visible_lines m (split_lines t))) e

  view_sized-lines :
      (m m' : Model E) (o : Option (ℤ × ℤ))
      → ((ls : List Text) (w h : ℤ) → render_content m ls w h ≡ render_content m' ls w h)
      → hunk_lines m ≡ hunk_lines m'
      → m.printer ≡ m'.printer
      → view_sized m hunks o ≡ view_sized m' hunks o
  unfolding view_in
  view_sized-lines m m' none r e same = ap (λ p. ok ([], p)) same
  view_sized-lines m m' (some (w, h)) r e same =
      ap (λ o. kept m (o >>= (λ ls. render_content m ls w h))) e
      ∙ ap (λ f. kept m (hunk_lines m' >>= f)) (fun_ext (λ ls. r ls w h))
      ∙ ap (λ p. do t ← hunk_lines m' >>= (λ ls. render_content m' ls w h); ok (t, p)) same

  view_sized-full :
      (m : Model E) (o : Option (ℤ × ℤ))
      → hunk_lines m ≡ visible_lines m none
      → view_sized m hunks o ≡ view_sized (record m { view_mode = full }) full o
  unfolding view_in visible_lines render_content render_visible fit_lines max_height max_width
  view_sized-full m none e = refl
  view_sized-full m (some (w, h)) e = ap (λ o. kept m (o >>= (λ ls. render_content m ls w h))) e

  -- In the hunks mode, the viewport shows at every vertical offset what it shows at its own, or its
  -- hunks have no content, and it shows what the full mode shows; where it has hunks to print.
  pub view_text-hunks :
      (m : Model E) (content : Text) (y : ℤ)
      → m.view_mode ≡ hunks
      → get_hunks_diff_content m ≡ ok content
      → (view_text (record m { y_offset = y }) ≡ view_text m)
        ⊎ ((content ≡ []) × (view_text m ≡ view_text (record m { view_mode = full })))
  unfolding view_text view get_view_dimensions render_content
  view_text-hunks m [] y mode e = inr (
    refl,
    ap text_of (
        ap (λ v. view_sized m v (get_view_dimensions m)) mode
        ∙ view_sized-full m (get_view_dimensions m) (hunk_lines-bare m e)),
  )
  view_text-hunks m (c ∷ content) y mode e = inl (
      ap text_of (
        ap (λ v. view_sized (record m { y_offset = y }) v (get_view_dimensions m)) mode
        ∙ view_sized-lines (record m { y_offset = y }) m (get_view_dimensions m) same
            (hunk_lines-content m y c content e) refl
        ∙ sym (ap (λ v. view_sized m v (get_view_dimensions m)) mode)))
    where
      same :
          (ls : List Text) (w h : ℤ)
          → render_content (record m { y_offset = y }) ls w h ≡ render_content m ls w h
      same ls w h = refl
