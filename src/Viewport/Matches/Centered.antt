-- ===== src/Viewport/Matches/Centered.antt =====
-- Indices of matches, the line in the middle, and the overlays of matches.
use niceyaml.Prelude.{
  ℕ, zero, suc, ◌+◌, ◌-◌, ◌/◌, ◌%◌, ◌≤◌, ◌<◌, ◌≡◌, refl, sym, ap, ◌∙◌, subst, true, false, not,
  ◌&&◌, List, [], ◌∷◌, Option, none, some, ok, min, arith, length, get_elem?_total, lt→ltb, map,
  set, length-set, length-map, if◌then◌else◌,
}
use native.Mathlib.Nat.{mul-add-mod_self_left}
use niceyaml.Prelude.Int.{
  ℤ, pos, negsuc, sub_ℕ, eqb_ℤ, ltb_ℤ, sub64, add64-pos, sub64-pos, half_range, add64-pred,
  sub_ℕ-add64,
}
use niceyaml.Position.{Range}
use niceyaml.Line.{clear_line, clear_overlays}
use niceyaml.Revision.{Revision}
use niceyaml.Source.{Source, clear_source_overlays}
use niceyaml.Source.Overlays.{AllSpread, clear_source_overlays-add}
use niceyaml.Viewport.{SearchMatch, ViewMode, full, hunks, side_by_side, clamp_to, half}
use niceyaml.Viewport.Scroll.{pos_injective}
use niceyaml.Viewport.Render.Overlaid.{
  overlay_matches, stored, generic_highlight, generic_highlight_dim, has_panes,
}
use niceyaml.Viewport.Revisions.{moved_index, is_nil}

same_length :
    (s' s : Source)
    → clear_source_overlays s' ≡ clear_source_overlays s
    → length s'.lines ≡ length s.lines
unfolding clear_source_overlays clear_overlays
same_length s' s e =
    sym (length-map s'.lines clear_line)
    ∙ ap (λ v. length (Source.lines v)) e
    ∙ length-map s.lines clear_line

-- The line that `scrollToCurrentMatch` shows first, for a match on `line`.
abbrev pub centered : ℕ → ℕ → ℕ → ℕ
centered count height line = min (count - height) (line - (height - 1) / 2)

pub centered-visible :
    (count height line : ℕ)
    → line < count
    → 0 < height
    → (centered count height line ≤ line) × (line < centered count height line + height)
centered-visible count height line h p = (omega arith, omega arith)

half-height :
    (height : ℕ) → height < half_range → half (sub64 (pos height) (pos 1)) ≡ pos ((height - 1) / 2)
half-height height small = ap half (sub64-pos height 1 small (omega arith)) ∙ rounded height
  where
    rounded : (h : ℕ) → half (sub_ℕ h 1) ≡ pos ((h - 1) / 2)
    rounded zero = refl
    rounded (suc h) = ground arith

-- The clamp of `SetYOffset` on the line to center.
pub clamp-centered :
    (count height line : ℕ)
    → count < half_range
    → height < half_range
    → line < count
    → clamp_to (sub64 (pos line) (half (sub64 (pos height) (pos 1)))) (pos 0) (pos (count - height))
      ≡ pos (centered count height line)
clamp-centered count height line small small' h =
    rw (half-height height small', sub64-pos line ((height - 1) / 2) (omega arith) (omega arith))
      (clamped ((height - 1) / 2) (count - height))
  where
    clamped :
        (back top : ℕ) → clamp_to (sub_ℕ line back) (pos 0) (pos top) ≡ pos (min top (line - back))
    clamped back top = ground arith

-- The next index round a list of matches.
pub moved_index-next :
    (i n : ℕ) → i < n → n + n < half_range → moved_index (pos i) (pos 1) n ≡ pos ((i + 1) % n)
unfolding moved_index
moved_index-next i n h small =
    rw (add64-pos i 1 (omega arith), add64-pos (i + 1) n (omega arith))
      (ap pos (ap (λ k. k % n) (omega arith) ∙ mul-add-mod_self_left n 1 (i + 1)))

-- The previous one.
pub moved_index-previous :
    (i n : ℕ)
    → i < n
    → n + n < half_range
    → moved_index (pos i) (negsuc 0) n ≡ pos ((i + (n - 1)) % n)
unfolding moved_index
moved_index-previous i n h small =
    rw (add64-pred i (omega arith), sub_ℕ-add64 i 1 n (omega arith) (omega arith))
      (ap (λ k. pos (k % n)) (omega arith))

abbrev pub ranges : List SearchMatch → List Range
ranges = map SearchMatch.rng

pub overlay_matches-total :
    (index : ℤ) (k : ℕ) (ms : List SearchMatch) (s : Source)
    → AllSpread (length s.lines) (ranges ms)
    → length s.lines < half_range
    → (s' : Source) × (overlay_matches index k ms s ≡ ok s') × (length s'.lines ≡ length s.lines)
unfolding overlay_matches
overlay_matches-total index k [] s h small = (s, refl, refl)
overlay_matches-total index k (m ∷ ms) s h small =
    let kind = if eqb_ℤ (pos k) index then generic_highlight else generic_highlight_dim in
    let (s₁, run, same) = clear_source_overlays-add kind s (m.rng ∷ []) (h.0, tt) small in
    let size = same_length s₁ s same in
    let (s₂, run', size') =
      overlay_matches-total index (k + 1) ms s₁
        (subst (λ n. AllSpread n (ranges ms)) (sym size) h.1) (omega arith) in
    (s₂, rw (overlay_matches, run) run', size' ∙ size)

-- The source on display is a revision's, whose address is in the heap, or made.
abbrev pub IsOwned : List (Revision Source) → Option ℕ → Type 0
IsOwned heap none = Unit
IsOwned heap (some a) = a < length heap

pub stored-total :
    (heap : List (Revision Source)) (owner : Option ℕ) (s : Source)
    → IsOwned heap owner
    → (heap' : List (Revision Source)) × (stored heap owner s ≡ ok heap')
      × (length heap' ≡ length heap)
unfolding stored
stored-total heap none s h = (heap, refl, refl)
stored-total heap (some a) s h =
    let (node, found) = get_elem?_total heap a h in
    (
      set heap a (record node { head = s }),
      rw (found, lt→ltb a (length heap) h) refl,
      length-set heap a _,
    )

pub IsOwned-length :
    (heap heap' : List (Revision Source)) (owner : Option ℕ)
    → length heap' ≡ length heap
    → IsOwned heap owner
    → IsOwned heap' owner
IsOwned-length heap heap' none e h = tt
IsOwned-length heap heap' (some a) e h = omega arith

pub one_side : (v : ViewMode) (o : Option Source) → o ≡ none → has_panes v && not (is_nil o) ≡ false
one_side full o e = refl
one_side hunks o e = refl
one_side side_by_side none e = refl
one_side side_by_side (some s) e = cc

pub selected_index :
    (z : ℤ) (i n : ℕ)
    → z ≡ pos i
    → i < n
    → (elim z [ pos k ↦ if ltb_ℤ (pos k) (pos n) then some k else none | negsuc _ ↦ none ]) ≡ some i
selected_index (pos k) i n e less =
    let same = pos_injective e in
    let inside : ltb_ℤ (pos k) (pos n) ≡ true = ground arith in rw inside (ap some same)
selected_index (negsuc k) i n e less = cc

pub cons_of :
    (ms : List SearchMatch)
    → 0 < length ms
    → (f : SearchMatch) × (fs : List SearchMatch) × (ms ≡ f ∷ fs)
cons_of [] h = absurd (omega arith)
cons_of (f ∷ fs) h = (f, fs, refl)
