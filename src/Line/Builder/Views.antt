-- ===== src/Line/Builder/Views.antt =====
-- What the segments of lines show of the tokens, and the steps that add a part.
use niceyaml.Prelude.{
  ◌<◌, ◌≡◌, refl, sym, ap, ◌∙◌, Bool, true, List, [], ◌∷◌, ◌++◌, map, Option, none, some, arith,
  append-nil, append_assoc, length,
}
use niceyaml.Text.{Text}
use niceyaml.Text.Split.{concat}
use niceyaml.Tokens.{Token, TokenRef, Segment, append, new_segment}
use niceyaml.Line.{Line}
use niceyaml.Line.State.{Builder}
use niceyaml.Line.Part.{
  PartContext, append_to_last, attach_duplicate, duplicate_token, track_indent, append_part,
  part_token,
}

abbrev pub all_segments : List Line → List Segment
all_segments ls = concat (map Line.segments ls)

abbrev pub origin_of : Option Token → Text
origin_of none = []
origin_of (some t) = t.origin

-- A segment's pointer and text.
abbrev pub View : Type 0
View = Option TokenRef × Text

abbrev view : Segment → View
view s = (s.source, origin_of s.part)

abbrev pub views : List Segment → List View
views = map view

-- All that has been built so far.
abbrev pub built_views : Builder → List View
built_views b = views (all_segments b.lines) ++ views b.current_line_segments

-- After a newline no segment is waiting.
abbrev pub IsClean : Builder → Type 0
IsClean b = b.prev_token_ended_with_newline ≡ true → b.current_line_segments ≡ []

views-append : (xs ys : List Segment) → views (xs ++ ys) ≡ views xs ++ views ys
views-append [] ys = refl
views-append (x ∷ xs) ys = ap (◌∷◌ (view x)) (views-append xs ys)

pub lines-append :
    (ls : List Line) (l : Line)
    → views (all_segments (ls ++ l ∷ [])) ≡ views (all_segments ls) ++ views l.segments
lines-append [] l = rw append-nil refl
lines-append (k ∷ ls) l =
    views-append k.segments (all_segments (ls ++ l ∷ []))
    ∙ ap (◌++◌ (views k.segments)) (lines-append ls l)
    ∙ sym (append_assoc (views k.segments) (views (all_segments ls)) (views l.segments))
    ∙ ap (λ t. t ++ views l.segments) (sym (views-append k.segments (all_segments ls)))

append-views :
    (xs : List Segment) (tk : TokenRef) (t : Token)
    → views (append xs (some tk) (some t)) ≡ views xs ++ (some tk, t.origin) ∷ []
unfolding append new_segment
append-views xs tk t = views-append xs (new_segment (some tk) (some t) ∷ [])

append_to_last-views :
    (f : Line → Token) (p : Text) (tk : TokenRef) (ls : List Line)
    → ((l : Line) → (f l).origin ≡ p)
    → 0 < length ls
    → views (all_segments (append_to_last f tk ls)) ≡ views (all_segments ls) ++ (some tk, p) ∷ []
unfolding append_to_last
append_to_last-views f p tk [] h has = elim has [ ]
append_to_last-views f p tk (l ∷ []) h has =
    rw (append-nil, append-nil)
      (append-views l.segments tk (f l) ∙ ap (λ o. views l.segments ++ (some tk, o) ∷ []) (h l))
append_to_last-views f p tk (l ∷ k ∷ ls) h has =
    views-append l.segments (all_segments (append_to_last f tk (k ∷ ls)))
    ∙ ap (◌++◌ (views l.segments)) (append_to_last-views f p tk (k ∷ ls) h (omega arith))
    ∙ sym (append_assoc (views l.segments) (views (all_segments (k ∷ ls))) ((some tk, p) ∷ []))
    ∙ ap (λ t. t ++ (some tk, p) ∷ []) (sym (views-append l.segments (all_segments (k ∷ ls))))

-- With no segment waiting, what goes behind the lines goes behind all.
behind_lines :
    (cur : List Segment) (v : View) (xs ys : List View)
    → cur ≡ []
    → ys ≡ xs ++ v ∷ []
    → ys ++ views cur ≡ (xs ++ views cur) ++ v ∷ []
behind_lines cur v xs ys empty h = rw (empty, h) (rw (append-nil, append-nil) refl)

-- The branch for a duplicate newline, where no segment waits.
pub attach_duplicate-views :
    (b : Builder) (ctx : PartContext)
    → 0 < length b.lines
    → b.current_line_segments ≡ []
    → built_views (attach_duplicate b ctx) ≡ built_views b ++ (some ctx.tk, ctx.part) ∷ []
unfolding attach_duplicate duplicate_token
attach_duplicate-views b ctx has_line clean =
    behind_lines b.current_line_segments (some ctx.tk, ctx.part) (views (all_segments b.lines)) _
      clean
      (append_to_last-views (duplicate_token b ctx) ctx.part ctx.tk b.lines (λ l. refl) has_line)

pub track_indent-keeps :
    (b : Builder) (ctx : PartContext)
    → ((track_indent b ctx).lines ≡ b.lines)
      × ((track_indent b ctx).current_line_segments ≡ b.current_line_segments)
unfolding track_indent
track_indent-keeps b ctx = ground arith

part_token-origin :
    (b : Builder) (ctx : PartContext) (f : Bool) → (part_token b ctx f).origin ≡ ctx.part
unfolding part_token
part_token-origin b ctx f = refl

pub append_part-views :
    (b : Builder) (ctx : PartContext) (f : Bool)
    → built_views (append_part b ctx f) ≡ built_views b ++ (some ctx.tk, ctx.part) ∷ []
unfolding append_part
append_part-views b ctx f =
    ap (◌++◌ (views (all_segments b.lines))) (
      append-views b.current_line_segments ctx.tk (part_token b ctx f)
      ∙ ap (λ o. views b.current_line_segments ++ (some ctx.tk, o) ∷ [])
          (part_token-origin b ctx f))
    ∙ sym (
        append_assoc (views (all_segments b.lines)) (views b.current_line_segments)
          ((some ctx.tk, ctx.part) ∷ []))
