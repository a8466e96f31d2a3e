-- ===== src/Source/Overlays.antt =====
-- Overlays on a source: adding them succeeds on its lines and changes nothing else.
use niceyaml.Prelude.{
  ℕ, zero, suc, ◌+◌, ◌-◌, ◌≤◌, ◌<◌, ◌≡◌, ◌⊎◌, inl, inr, refl, sym, ap, ◌∙◌, subst, true, false,
  List, [], ◌∷◌, map, Outcome, ok, set, length, get_elem?, get_elem?_total, length-map, lt→ltb,
  arith, Bool-cases, some, some_injective, ◌==◌,
}
use niceyaml.Prelude.Int.{pos, eqb_ℤ, add64, sub64, add64-pos, sub64-pos, half_range}
use niceyaml.Text.{Text}
use niceyaml.Position.{Position, Range, slice_at, slices, slice_lines}
use niceyaml.Line.{
  Line, update_at, add_overlay, overlay_of, overlay_lines, add_overlay_range, overlay_ranges,
  add_overlays, clear_line, clear_overlays,
}
use niceyaml.Source.{Source, add_source_overlay, clear_source_overlays}

-- The lines are those of `ls`, but for their overlays.
abbrev pub SameBare : List Line → List Line → Type 0
SameBare ls' ls = map clear_line ls' ≡ map clear_line ls

-- The run returns such lines.
abbrev pub Overlays : Outcome (List Line) → List Line → Type 0
Overlays o ls = (ls' : List Line) × (o ≡ ok ls') × SameBare ls' ls

SameBare-length : (ls' ls : List Line) → SameBare ls' ls → length ls' ≡ length ls
SameBare-length ls' ls h = sym (length-map ls' clear_line) ∙ ap length h ∙ length-map ls clear_line

SameBare-set :
    (ls : List Line) (i : ℕ) (l l' : Line)
    → get_elem? ls i ≡ some l
    → clear_line l' ≡ clear_line l
    → SameBare (set ls i l') ls
SameBare-set [] i l l' h e = refl
SameBare-set (k ∷ ls) zero l l' h e =
    ap (λ v. v ∷ map clear_line ls) (e ∙ ap clear_line (some_injective (sym h)))
SameBare-set (k ∷ ls) (suc i) l l' h e = ap (λ v. clear_line k ∷ v) (SameBare-set ls i l l' h e)

update_at-Overlays :
    (ls : List Line) (i : ℕ) (f : Line → Line)
    → i < length ls
    → ((l : Line) → clear_line (f l) ≡ clear_line l)
    → Overlays (update_at (pos i) f ls) ls
unfolding update_at
update_at-Overlays ls i f less e =
    let (l, found) = get_elem?_total ls i less in
    (
      set ls i (f l),
      rw (found, lt→ltb i (length ls) less) refl,
      SameBare-set ls i l (f l) found (e l),
    )

-- Each range begins on one of `n` lines.
abbrev StartsOn : ℕ → List Range → Type 0
StartsOn n [] = Unit
StartsOn n (r ∷ rs) = ((i : ℕ) × (r.start.line ≡ pos i) × (i < n)) × StartsOn n rs

overlay_lines-Overlays :
    (kind : Text) (rs : List Range) (ls : List Line)
    → StartsOn (length ls) rs
    → Overlays (overlay_lines kind rs ls) ls
unfolding overlay_lines add_overlay
overlay_lines-Overlays kind [] ls h = (ls, refl, refl)
overlay_lines-Overlays kind (r ∷ rs) ls ((i, e, less), h) =
    let (ls₁, run, same) =
      update_at-Overlays ls i (λ l. add_overlay l (overlay_of kind r ∷ [])) less (λ l. refl) in
    let more = subst (λ n. StartsOn n rs) (sym (SameBare-length ls₁ ls same)) h in
    let (ls₂, run', same') = overlay_lines-Overlays kind rs ls₁ more in
    (ls₂, rw (overlay_lines, e, run) run', same' ∙ same)

slices-StartsOn :
    (n a : ℕ) (r : Range) (total i count : ℕ)
    → r.start.line ≡ pos a
    → a + i + count ≤ n
    → n < half_range
    → StartsOn n (slices r total i count)
unfolding slices slice_at
slices-StartsOn n a r total i zero e h small = tt
slices-StartsOn n a r total i (suc count) e h small = (
  (a + i, first (Bool-cases (i == 0)) (Bool-cases (i + 1 == total)), omega arith),
  slices-StartsOn n a r total (i + 1) count e (omega arith) small,
)
  where
    line : add64 r.start.line (pos i) ≡ pos (a + i)
    line = rw e (add64-pos a i (omega arith))

    first :
        ((i == 0) ≡ true) ⊎ ((i == 0) ≡ false)
        → ((i + 1 == total) ≡ true) ⊎ ((i + 1 == total) ≡ false)
        → Position.line (Range.start (slice_at r total i)) ≡ pos (a + i)
    first (inl p) q = rw p line
    first (inr p) (inl q) = rw (p, q) line
    first (inr p) (inr q) = rw (p, q) line

-- The range begins and ends on one of `n` lines, and does not end before it begins.
abbrev pub IsSpread : ℕ → Range → Type 0
IsSpread n r = (a b : ℕ) × (r.start.line ≡ pos a) × (r.end.line ≡ pos b) × (a ≤ b) × (b < n)

abbrev pub AllSpread : ℕ → List Range → Type 0
AllSpread n [] = Unit
AllSpread n (r ∷ rs) = IsSpread n r × AllSpread n rs

slice_lines-StartsOn :
    (n : ℕ) (r : Range)
    → IsSpread n r
    → n < half_range
    → (rs : List Range) × (slice_lines r ≡ ok rs) × StartsOn n rs
unfolding slice_lines
slice_lines-StartsOn n r (a, b, e, e', le, less) small =
    elim (Bool-cases (eqb_ℤ r.start.line r.end.line)) [
      | inl one ↦ (r ∷ [], rw one refl, ((a, e, omega arith), tt))
      | inr many ↦ (
        slices r (b - a + 1) 0 (b - a + 1),
        rw (slice_lines, many) (rw line_count refl),
        slices-StartsOn n a r (b - a + 1) 0 (b - a + 1) e (omega arith) small,
      )
    ]
  where
    line_count : add64 (sub64 r.end.line r.start.line) (pos 1) ≡ pos (b - a + 1)
    line_count =
        let difference : sub64 (pos b) (pos a) ≡ pos (b - a) =
          sub64-pos b a (omega arith) (omega arith) ∙ ground arith in
        rw (e, e', difference) (add64-pos (b - a) 1 (omega arith))

overlay_ranges-Overlays :
    (kind : Text) (rs : List Range) (ls : List Line)
    → AllSpread (length ls) rs
    → length ls < half_range
    → Overlays (overlay_ranges kind rs ls) ls
unfolding overlay_ranges add_overlay_range
overlay_ranges-Overlays kind [] ls h small = (ls, refl, refl)
overlay_ranges-Overlays kind (r ∷ rs) ls h small =
    let (parts, cut, on) = slice_lines-StartsOn (length ls) r h.0 small in
    let (ls₁, run, same) = overlay_lines-Overlays kind parts ls on in
    let size = SameBare-length ls₁ ls same in
    let (ls₂, run', same') =
      overlay_ranges-Overlays kind rs ls₁ (subst (λ n. AllSpread n rs) (sym size) h.1)
        (omega arith) in
    (ls₂, rw (overlay_ranges, add_overlay_range, cut, run) run', same' ∙ same)

add_overlays-Overlays :
    (kind : Text) (rs : List Range) (ls : List Line)
    → AllSpread (length ls) rs
    → length ls < half_range
    → Overlays (add_overlays kind ls rs) ls
unfolding add_overlays
add_overlays-Overlays kind rs [] h small = ([], refl, refl)
add_overlays-Overlays kind rs (l ∷ ls) h small = overlay_ranges-Overlays kind rs (l ∷ ls) h small

-- AddOverlay on a source returns where every range begins and ends on lines of the source, not
-- before its beginning, and the source has fewer than 2 ^ 63 lines. It changes the overlays only:
-- ClearOverlays then gives what it gives on the source before.
pub clear_source_overlays-add :
    (kind : Text) (s : Source) (rs : List Range)
    → AllSpread (length s.lines) rs
    → length s.lines < half_range
    → (s' : Source) × (add_source_overlay kind s rs ≡ ok s')
      × (clear_source_overlays s' ≡ clear_source_overlays s)
unfolding add_source_overlay add_overlays clear_source_overlays clear_overlays
clear_source_overlays-add kind s rs h small =
    let (ls', run, same) = add_overlays-Overlays kind rs s.lines h small in
    (
      record s { lines = ls' },
      rw run refl,
      ap (λ ls. record { name = s.name; file_path = s.file_path; lines = ls }) same,
    )
