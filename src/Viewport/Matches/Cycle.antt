-- ===== src/Viewport/Matches/Cycle.antt =====
-- The steps through the matches of a search go round all of them.
use niceyaml.Prelude.{
  ℕ, zero, suc, ◌+◌, ◌-◌, ◌%◌, ◌≤◌, ◌<◌, ◌≡◌, refl, sym, ap, ◌∙◌, subst, true, min, List, [], ◌∷◌,
  some, Outcome, ok, ◌>>=◌, arith, length, get_elem?, get_elem?_total, some_injective,
}
use native.Mathlib.Nat.{mod-add-mod, mod-eq_of_lt, mul-add-mod_self_left, mod-lt}
use niceyaml.Prelude.Int.{
  ℤ, pos, negsuc, ◌≤ℤ◌, half_range, add64, add64-pos, ltb_ℤ, min_ℤ, min_ℤ-pos,
}
use niceyaml.Position.{new_span}
use niceyaml.Source.{Source, source_len}
use niceyaml.Source.Overlays.{IsSpread, AllSpread}
use niceyaml.Revision.{Revision}
use niceyaml.Viewport.{Env, Model, SearchMatch, max_height}
use niceyaml.Viewport.View.{render_visible, split_lines}
use niceyaml.Viewport.Revisions.{navigate_search, search_next, search_previous, moved_index}
use niceyaml.Viewport.Matches.{IsSearching, at_step, navigate-step}
use niceyaml.Viewport.Matches.Centered.{
  IsOwned-length, ranges, centered, centered-visible, moved_index-next, moved_index-previous,
}

IsSpread-get :
    (n : ℕ) (ms : List SearchMatch) (j : ℕ) (found : SearchMatch)
    → AllSpread n (ranges ms)
    → get_elem? ms j ≡ some found
    → IsSpread n found.rng
IsSpread-get n [] j found h e = cc
IsSpread-get n (m ∷ ms) zero found h e =
    subst (λ v. IsSpread n (SearchMatch.rng v)) (some_injective e) h.0
IsSpread-get n (m ∷ ms) (suc j) found h e = IsSpread-get n ms j found h.1 e

first_line : (y end : ℕ) → y < end → ltb_ℤ (pos y) (pos end) ≡ true
first_line y end less = ground arith

-- The match begins on one of the `height` lines from the offset.
abbrev IsVisible : ℤ → ℕ → ℕ → SearchMatch → Type 0
IsVisible offset count height found =
    (y line : ℕ) × (offset ≡ pos y)
    × (found.rng.start.line ≡ pos line)
    × (y ≤ line)
    × (line < y + height)
    × (line < count)
    × (y + height < half_range)

module _ {E : Env} where
  step-IsSearching :
      (m : Model E) (count height i j y : ℕ) (s : Source) (heap : List (Revision Source))
      → IsSearching m count height i
      → j < length m.search_matches
      → length s.lines ≡ count
      → length heap ≡ length m.heap
      → IsSearching (at_step m j s heap y) count height j
  unfolding max_height
  step-IsSearching m count height i j y s heap w less size size' = record {
    source = s;
    shown = refl;
    counted = size;
    owned = IsOwned-length m.heap heap m.left_owner size' w.owned;
    one_pane = w.one_pane;
    spread = w.spread;
    at_match = refl;
    less = less;
    few = w.few;
    fits = w.fits;
    rows = w.rows;
    small = w.small;
  }

  -- What a step from one match to another leaves.
  abbrev Steps : Model E → Outcome (Model E) → ℕ → ℕ → ℕ → Type 0
  Steps m run count height j =
      (m' : Model E) × (run ≡ ok m')
      × IsSearching m' count height j
      × (m'.search_matches ≡ m.search_matches)
      × (m'.printer ≡ m.printer)
      × ((found : SearchMatch) × (get_elem? m.search_matches j ≡ some found)
          × (0 < height → IsVisible m'.y_offset count height found))

  navigate-Steps :
      (m : Model E) (count height i j : ℕ) (delta : ℤ)
      → IsSearching m count height i
      → count + height < half_range
      → moved_index (pos i) delta (length m.search_matches) ≡ pos j
      → j < length m.search_matches
      → Steps m (navigate_search m delta) count height j
  navigate-Steps m count height i j delta w small next inside =
      let (found, e) = get_elem?_total m.search_matches j inside in
      let (line, _, on, _, le, less) = IsSpread-get count m.search_matches j found w.spread e in
      let (s, heap, run, size, size') =
        navigate-step m count height i j line delta found w next inside e on (omega arith) in
      (
        at_step m j s heap (centered count height line),
        run,
        step-IsSearching m count height i j (centered count height line) s heap w inside size size',
        refl,
        refl,
        (
          found,
          e,
          λ tall.
              let y = centered count height line in
              let (below, above) = centered-visible count height line (omega arith) tall in
              (y, line, refl, on, omega arith, omega arith, omega arith, omega arith),
        ),
      )

  search-Steps :
      (m : Model E) (count height i : ℕ)
      → IsSearching m count height i
      → count + height < half_range
      → Steps m (search_next m) count height ((i + 1) % length m.search_matches)
        × Steps m
            (search_previous m)
            count
            height
            ((i + (length m.search_matches - 1)) % length m.search_matches)
  unfolding search_next search_previous
  search-Steps m count height i w small =
      let n = length m.search_matches in
      (
        navigate-Steps m count height i ((i + 1) % n) (pos 1) w small
            (moved_index-next i n w.less w.few) (mod-lt (i + 1) (omega (arith, w.less))),
        navigate-Steps m count height i ((i + (n - 1)) % n) (negsuc 0) w small
            (moved_index-previous i n w.less w.few) (mod-lt (i + (n - 1)) (omega (arith, w.less))),
      )

  -- What `renderVisible` prints: a span of the lines of the source, and the match begins on one of them.
  abbrev pub IsPrinted : Model E → Env.Printer E → SearchMatch → Type 0
  IsPrinted m p found =
      (s : Source) × (line end : ℕ) × (m.left ≡ some s)
      × (render_visible m ≡ ok (split_lines (E.print p s (new_span m.y_offset (pos end) ∷ []))))
      × (found.rng.start.line ≡ pos line)
      × (m.y_offset ≤ℤ pos line)
      × (line < end)

  -- What a step to the match `j` leaves.
  abbrev pub Selects : Model E → Env.Printer E → Outcome (Model E) → ℕ → Type 0
  Selects m p run j =
      (m' : Model E) × (found : SearchMatch) × (run ≡ ok m')
      × (m'.search_index ≡ pos j)
      × (m'.search_matches ≡ m.search_matches)
      × (get_elem? m.search_matches j ≡ some found)
      × IsPrinted m' p found

  render_visible-printed :
      (m : Model E) (p : Env.Printer E) (s : Source) (y height line : ℕ)
      → m.left ≡ some s
      → m.printer ≡ some p
      → m.y_offset ≡ pos y
      → max_height m ≡ pos height
      → y + height < half_range
      → y ≤ line
      → line < y + height
      → line < length s.lines
      → (end : ℕ) × (line < end)
        × (render_visible m ≡ ok (split_lines (E.print p s (new_span m.y_offset (pos end) ∷ []))))
  unfolding render_visible
  render_visible-printed m p s y height line shown printer at_y rows small below above inside =
      let end = min (y + height) (length s.lines) in
      let sum : add64 m.y_offset (max_height m) ≡ pos (y + height) =
        ap (λ z. add64 z (max_height m)) at_y
        ∙ ap (add64 (pos y)) rows
        ∙ add64-pos y height small in
      let stop : min_ℤ (add64 m.y_offset (max_height m)) (pos (source_len s)) ≡ pos end =
        ap (λ z. min_ℤ z (pos (source_len s))) sum ∙ min_ℤ-pos (y + height) (length s.lines) in
      let some_line : ltb_ℤ m.y_offset (pos end) ≡ true =
        ap (λ z. ltb_ℤ z (pos end)) at_y ∙ first_line y end (omega arith) in
      (end, omega arith, rw (render_visible, shown, stop, some_line, printer) refl)

  Steps-Selects :
      (m : Model E) (p : Env.Printer E) (run : Outcome (Model E)) (count height j : ℕ)
      → m.printer ≡ some p
      → 0 < height
      → Steps m run count height j
      → Selects m p run j
  Steps-Selects m p run count height j printer tall (m', done, w, same, kept, (found, e, seen)) =
      let (y, line, at_y, on, below, above, inside, small) = seen tall in
      let (end, less, printed) =
        render_visible-printed m' p w.source y height line w.shown (kept ∙ printer) at_y w.rows
          small below above (omega (arith, w.counted)) in
      let le : m'.y_offset ≤ℤ pos line = subst (λ z. z ≤ℤ pos line) (sym at_y) (omega arith) in
      (m', found, done, w.at_match, same, e, (w.source, line, end, w.shown, printed, on, le, less))

  -- SearchNext and SearchPrevious return from a viewport that searches in one pane, and select the
  -- next match and the previous one, round the list of matches. The match selected then begins on
  -- one of the lines of the source that renderVisible has the printer print; where a printer is set,
  -- the viewport has rows, and the numbers of lines and rows together stay below 2 ^ 63.
  pub search-IsPrinted :
      (m : Model E) (p : Env.Printer E) (count height i : ℕ)
      → IsSearching m count height i
      → m.printer ≡ some p
      → 0 < height
      → count + height < half_range
      → Selects m p (search_next m) ((i + 1) % length m.search_matches)
        × Selects m p
            (search_previous m)
            ((i + (length m.search_matches - 1)) % length m.search_matches)
  search-IsPrinted m p count height i w printer tall small =
      let n = length m.search_matches in
      let (next, previous) = search-Steps m count height i w small in
      (
        Steps-Selects m p (search_next m) count height ((i + 1) % n) printer tall next,
        Steps-Selects m p (search_previous m) count height ((i + (n - 1)) % n) printer tall
            previous,
      )

  -- `SearchNext` as often as is said.
  abbrev pub next_times : ℕ → Model E → Outcome (Model E)
  next_times zero m = ok m
  next_times (suc k) m = search_next m >>= next_times k

  next_times-run :
      (k : ℕ) (m : Model E) (count height i : ℕ)
      → IsSearching m count height i
      → count + height < half_range
      → (m' : Model E) × (next_times k m ≡ ok m')
        × IsSearching m' count height ((i + k) % length m.search_matches)
        × (m'.search_matches ≡ m.search_matches)
  next_times-run zero m count height i w small =
      (m, refl, subst (IsSearching m count height) (sym here) w, refl)
    where
      here : (i + 0) % length m.search_matches ≡ i
      here = ap (λ v. v % length m.search_matches) (omega arith) ∙ mod-eq_of_lt w.less
  next_times-run (suc k) m count height i w small =
      let n = length m.search_matches in
      let (m₁, run, w₁, same, _, _) = (search-Steps m count height i w small).0 in
      let (m₂, run', w₂, same') = next_times-run k m₁ count height ((i + 1) % n) w₁ small in
      let index : ((i + 1) % n + k) % length m₁.search_matches ≡ (i + suc k) % n =
        ap (λ ms. ((i + 1) % n + k) % length {A = SearchMatch} ms) same
        ∙ mod-add-mod (i + 1) n k
        ∙ ap (λ v. v % n) (omega arith) in
      (m₂, rw run run', subst (IsSearching m₂ count height) index w₂, same' ∙ same)

  -- Every match is reached: from any match of a viewport that searches in one pane, SearchNext
  -- pressed some number of times, fewer than there are matches, returns and selects the match at any
  -- index, where the numbers of lines and rows together stay below 2 ^ 63.
  pub next_times-reaches :
      (m : Model E) (count height i j : ℕ)
      → IsSearching m count height i
      → count + height < half_range
      → j < length m.search_matches
      → (k : ℕ) × (m' : Model E) × (k < length m.search_matches)
        × (next_times k m ≡ ok m')
        × (m'.search_index ≡ pos j)
        × (m'.search_matches ≡ m.search_matches)
  next_times-reaches m count height i j w small less =
      let n = length m.search_matches in
      let k = (j + (n - i)) % n in
      let (m', run, w', same) = next_times-run k m count height i w small in
      let turn : (i + k) % n ≡ j =
        ap (λ v. v % n) (omega arith)
        ∙ mod-add-mod (j + (n - i)) n i
        ∙ ap (λ v. v % n) (omega (arith, w.less))
        ∙ mul-add-mod_self_left n 1 j
        ∙ mod-eq_of_lt less in
      (k, m', mod-lt (j + (n - i)) (omega arith), run, w'.at_match ∙ ap pos turn, same)
