-- ===== src/Differ/Headers.antt =====
-- `DiffResult.Hunks`: the header of a hunk stands on its first line, and no line is lost.
use native.Mathlib.Nat.{le_refl}
use niceyaml.Prelude.{
  ℕ, ◌+◌, ◌-◌, ◌≤◌, ◌<◌, ◌≡◌, ◌≢◌, refl, sym, ap, subst, ◌∙◌, ◌⊎◌, inl, inr, List, [], ◌∷◌, some,
  ok, ◌>>=◌, length, get_elem?, get_elem?_total, set, length-set, length-map, get_elem?-set_self,
  get_elem?-set_ne, take, drop, arith, lt→ltb,
}
use niceyaml.Prelude.Int.{ℤ, pos, negsuc, ◌<ℤ◌, ◌≤ℤ◌, half_range, max_ℤ, pos_part}
use niceyaml.Text.{Text, text_eq}
use niceyaml.Position.{Span, new_span, new_prefix_sums}
use niceyaml.Position.Coverage.{InOrder}
use niceyaml.Line.{Line, add_annotation, update_at}
use niceyaml.Differ.{
  LineOp, to_line, to_lines, annotated, DiffResult, diff_result, before_delta, after_delta,
  format_hunk_header, header_annotation, annotate_hunks, select_hunk_spans, hunks,
}
use niceyaml.Differ.Sides.{old_side, new_side}
use niceyaml.Differ.Sums.{header_text, format_hunk_header-counts}
use niceyaml.Differ.Hunks.{
  AllUnchanged, HasChange, select_hunk_spans-changes, select_hunk_spans-InOrder,
}

-- The header of the hunk of `k` operations from `a` on.
abbrev pub header_of : List LineOp → ℕ → ℕ → Text
header_of ops a k =
    header_text (length (old_side (take a ops))) (length (old_side (take k (drop a ops))))
      (length (new_side (take a ops))) (length (new_side (take k (drop a ops))))

abbrev pub with_header : Text → Line → Line
with_header header l = add_annotation l (header_annotation header ∷ [])

-- Of two lists of lines, the second has at the start of each span the line of the first with the
-- header of the span.
abbrev pub HeadersAt : List LineOp → List Span → List Line → List Line → Type 0
HeadersAt ops [] lines lines' = Unit
HeadersAt ops (s ∷ spans) lines lines' =
    ((a k : ℕ) × (l : Line) × (s ≡ new_span (pos a) (pos (a + k)))
      × (get_elem? lines a ≡ some l)
      × (get_elem? lines' a ≡ some (with_header (header_of ops a k) l)))
    × HeadersAt ops spans lines lines'

-- No span begins at `j`.
abbrev pub NoneAt : ℕ → List Span → Type 0
NoneAt j [] = Unit
NoneAt j (s ∷ spans) = (s.start ≢ pos j) × NoneAt j spans

-- A span between bounds, as an index and a length.
span_parts :
    (x y : ℤ) (lower : ℤ) (n : ℕ)
    → negsuc 0 ≤ℤ lower
    → lower <ℤ x
    → x <ℤ y
    → y ≤ℤ pos n
    → (a k : ℕ) × (new_span x y ≡ new_span (pos a) (pos (a + k))) × (a + k ≤ n) × (0 < k)
span_parts (pos a) (pos b) lower n p q r t =
    (a, b - a, ap (λ m. new_span (pos a) (pos m)) (omega arith), omega arith, omega arith)
span_parts (pos a) (negsuc b) lower n p q r t = absurd (omega arith)
span_parts (negsuc a) y lower n p q r t = absurd (omega arith)

update_at-run :
    (f : Line → Line) (ls : List Line) (a : ℕ) (l : Line)
    → get_elem? ls a ≡ some l
    → a < length ls
    → update_at (pos a) f ls ≡ ok (set ls a (f l))
unfolding update_at
update_at-run f ls a l e h = rw (update_at, e, lt→ltb a (length ls) h) refl

InOrder-NoneAt :
    (a : ℕ) (lower upper : ℤ) (spans : List Span)
    → InOrder lower upper spans
    → pos a <ℤ lower
    → NoneAt a spans
InOrder-NoneAt a lower upper [] o h = tt
InOrder-NoneAt a lower upper (s ∷ spans) (p, q, r, o) h =
    (ground arith, InOrder-NoneAt a s.end upper spans o (omega arith))

HeadersAt-set :
    (ops : List LineOp) (a : ℕ) (v : Line) (spans : List Span) (lines lines' : List Line)
    → NoneAt a spans
    → HeadersAt ops spans (set lines a v) lines'
    → HeadersAt ops spans lines lines'
HeadersAt-set ops a v [] lines lines' none h = tt
HeadersAt-set ops a v (s ∷ spans) lines lines' (ne, none) ((b, k, l, e, f, g), h) = (
  (
    b,
    k,
    l,
    e,
    sym (get_elem?-set_ne lines v (λ same. ne (ap Span.start e ∙ ap pos (sym same)))) ∙ f,
    g,
  ),
  HeadersAt-set ops a v spans lines lines' none h,
)

-- What the loop of `Hunks` makes of `lines`.
pub record Annotated (r : DiffResult) (spans : List Span) (lines : List Line) : Type 0 where
  pub result : List Line
  pub runs : annotate_hunks r spans lines ≡ ok result
  pub size : length result ≡ length lines
  pub headers : HeadersAt r.ops spans lines result
  pub others : (j : ℕ) → NoneAt j spans → get_elem? result j ≡ get_elem? lines j

annotate_hunks-cons :
    (r : DiffResult) (s : Span) (spans : List Span) (lines lines' : List Line) {result : List Line}
    (header : Text)
    → format_hunk_header s r.before_sums r.after_sums ≡ ok header
    → update_at s.start (with_header header) lines ≡ ok lines'
    → annotate_hunks r spans lines' ≡ ok result
    → annotate_hunks r (s ∷ spans) lines ≡ ok result
unfolding annotate_hunks
annotate_hunks-cons r s spans lines lines' header p q t = rw (annotate_hunks, p) (rw q t)

module _ (before_name after_name : Text) (ops : List LineOp)
    (fits : length ops + 1 < half_range) where
  annotate_hunks-Annotated :
      (spans : List Span) (lower : ℤ) (lines : List Line)
      → negsuc 0 ≤ℤ lower
      → InOrder lower (pos (length ops)) spans
      → length lines ≡ length ops
      → Annotated (diff_result before_name after_name ops) spans lines
  unfolding annotate_hunks diff_result
  annotate_hunks-Annotated [] lower lines p o h = record {
    result = lines;
    runs = refl;
    size = refl;
    headers = tt;
    others = λ j n. refl;
  }
  annotate_hunks-Annotated (s ∷ spans) lower lines p (q, r, t, o) h =
      let (a, k, e, bound, some_lines) = span_parts s.start s.end lower (length ops) p q r t in
      let (l, at_a) = get_elem?_total lines a (omega arith) in
      let line : Line = with_header (header_of ops a k) l in
      let start : s.start ≡ pos a = ap Span.start e in
      let rest =
        annotate_hunks-Annotated spans s.end (set lines a line) (omega arith) o
          (length-set lines a line ∙ h) in
      let none : NoneAt a spans =
        InOrder-NoneAt a s.end (pos (length ops)) spans o (rw start at r) in
      record {
        result = rest.result;
        runs =
            annotate_hunks-cons (diff_result before_name after_name ops) s spans lines
              (set lines a line) (header_of ops a k)
              (ap
                  (λ v.
                    format_hunk_header v (new_prefix_sums (length ops) (before_delta ops))
                      (new_prefix_sums (length ops) (after_delta ops)))
                  e
                ∙ format_hunk_header-counts ops a k fits bound)
              (ap (λ v. update_at v (with_header (header_of ops a k)) lines) start
                ∙ update_at-run (with_header (header_of ops a k)) lines a l at_a (omega arith))
              rest.runs;
        size = rest.size ∙ length-set lines a line;
        headers = (
          (a, k, l, e, at_a, rest.others a none ∙ get_elem?-set_self lines a line (omega arith)),
          HeadersAt-set ops a line spans lines rest.result none rest.headers,
        );
        others = λ j (ne, n).
            rest.others j n ∙ get_elem?-set_ne lines line (λ same. ne (start ∙ ap pos same));
      }

-- What `Hunks` returns for the spans: the lines of the unified view, with the header of each span on
-- the line where the span begins.
pub record Hunked (r : DiffResult) (context : ℤ) (spans : List Span) : Type 0 where
  pub lines : List Line
  pub runs : hunks r context ≡ ok (lines, spans)
  pub size : length lines ≡ length r.ops
  pub headers : HeadersAt r.ops spans (to_lines r.ops) lines
  pub others : (j : ℕ) → NoneAt j spans → get_elem? lines j ≡ get_elem? (to_lines r.ops) j

max_zero : (context : ℤ) → max_ℤ (pos 0) context ≡ pos (pos_part context)
max_zero (pos n) = ground arith
max_zero (negsuc n) = ground arith

hunks-annotated :
    (before_name after_name : Text) (op : LineOp) (ops : List LineOp) (context : ℤ)
    → hunks (diff_result before_name after_name (op ∷ ops)) context
      ≡ annotated
          (diff_result before_name after_name (op ∷ ops))
          (select_hunk_spans (op ∷ ops) (pos (pos_part context)))
unfolding hunks diff_result
hunks-annotated before_name after_name op ops context = rw (hunks, max_zero context) refl

hunks-nil :
    (before_name after_name : Text) (context : ℤ)
    → (select_hunk_spans [] (pos (pos_part context)) ≡ [])
      × (hunks (diff_result before_name after_name []) context ≡ ok ([], []))
unfolding hunks diff_result select_hunk_spans
hunks-nil before_name after_name context = (refl, refl)

length-to_lines : (ops : List LineOp) → length (to_lines ops) ≡ length ops
unfolding to_lines
length-to_lines ops = length-map ops to_line

-- Hunks never panics where the number of operations and twice the context fit in an int; a negative
-- context counts as none. Where no operation is a change it returns no lines and no spans; otherwise
-- each span's header is added as an annotation to the line where the span begins, and the other
-- lines are those of the unified view.
pub hunks-Hunked :
    (before_name after_name : Text) (ops : List LineOp) (context : ℤ)
    → length ops + (pos_part context + pos_part context + 1) < half_range
    → (AllUnchanged ops × (hunks (diff_result before_name after_name ops) context ≡ ok ([], [])))
      ⊎ (HasChange ops
          × Hunked
              (diff_result before_name after_name ops)
              context
              (select_hunk_spans ops (pos (pos_part context))))
unfolding diff_result
hunks-Hunked before_name after_name [] context fits =
    inl (tt, (hunks-nil before_name after_name context).1)
hunks-Hunked before_name after_name (op ∷ ops) context fits =
    elim (select_hunk_spans-changes (pos_part context) (op ∷ ops) fits) [
      | inl (same, e) ↦
          inl (same, hunks-annotated before_name after_name op ops context ∙ ap (annotated r) e)
      | inr (change, s, spans, e) ↦ inr (change, done s spans e)
    ]
  where
    r : DiffResult
    r = diff_result before_name after_name (op ∷ ops)

    done :
        (s : Span) (spans : List Span)
        → select_hunk_spans (op ∷ ops) (pos (pos_part context)) ≡ s ∷ spans
        → Hunked r context (select_hunk_spans (op ∷ ops) (pos (pos_part context)))
    done s spans e =
        let ordered : InOrder (negsuc 0) (pos (length (op ∷ ops))) (s ∷ spans) =
          rw e at (select_hunk_spans-InOrder (pos_part context) (op ∷ ops) fits) in
        let made =
          annotate_hunks-Annotated before_name after_name (op ∷ ops) (omega arith) (s ∷ spans)
            (negsuc 0) (to_lines (op ∷ ops)) (le_refl 1) ordered (length-to_lines (op ∷ ops)) in
        subst (Hunked r context) (sym e) (record {
          lines = made.result;
          runs =
              hunks-annotated before_name after_name op ops context
              ∙ ap (annotated r) e
              ∙ ap (λ o. o >>= (λ lines. ok (lines, s ∷ spans))) made.runs;
          size = made.size ∙ length-to_lines (op ∷ ops);
          headers = made.headers;
          others = made.others;
        })
