-- ===== src/Line/Builder/TokensBack.antt =====
-- The tokens that `Lines.Tokens` collects from the lines of `NewLines` are those that went in.
use niceyaml.Prelude.{
  ◌≡◌, ◌≢◌, refl, sym, ap, ◌∙◌, true, false, List, [], ◌∷◌, ◌++◌, map, Option, none, some, ok,
  arith, append-nil, append_assoc, if◌then◌else◌,
}
use niceyaml.Text.{Text, newline}
use niceyaml.Text.Split.{concat, split_after-cons}
use niceyaml.Tokens.{
  Token, TokenRef, Segment, merge, source_tokens, source_tokens_from, same_ref, token_of,
}
use niceyaml.Line.{Line, tokens}
use niceyaml.Line.Scan.{split_origin_into_parts}
use niceyaml.Line.Builder.{new_lines}
use niceyaml.Line.Builder.Origin.{part_views}
use niceyaml.Line.Builder.Views.{all_segments, origin_of, View, views}
use niceyaml.Line.Builder.RoundTrip.{
  HasRoom, token_views, all_views, new_lines-views, concat-split_origin,
}

-- The texts of all segments, joined.
abbrev pub text_of : List Line → Text
text_of ls = concat (map (λ s. origin_of (Segment.part s)) (all_segments ls))

abbrev pub origins : List TokenRef → Text
origins [] = []
origins (tk ∷ tks) = tk.token.origin ++ origins tks

abbrev view_texts : List View → Text
view_texts [] = []
view_texts ((_, t) ∷ vs) = t ++ view_texts vs

view_texts-views :
    (xs : List Segment) → view_texts (views xs) ≡ concat (map (λ s. origin_of (Segment.part s)) xs)
view_texts-views [] = refl
view_texts-views (x ∷ xs) = ap (◌++◌ (origin_of x.part)) (view_texts-views xs)

view_texts-append : (vs ws : List View) → view_texts (vs ++ ws) ≡ view_texts vs ++ view_texts ws
view_texts-append [] ws = refl
view_texts-append ((s, t) ∷ vs) ws =
    ap (◌++◌ t) (view_texts-append vs ws) ∙ sym (append_assoc t (view_texts vs) (view_texts ws))

view_texts-part_views : (tk : TokenRef) (ps : List Text) → view_texts (part_views tk ps) ≡ concat ps
view_texts-part_views tk [] = refl
view_texts-part_views tk (p ∷ ps) = ap (◌++◌ p) (view_texts-part_views tk ps)

view_texts-all_views : (tks : List TokenRef) → view_texts (all_views tks) ≡ origins tks
view_texts-all_views [] = refl
view_texts-all_views (tk ∷ tks) =
    view_texts-append (token_views tk) (all_views tks)
    ∙ ap (λ t. t ++ view_texts (all_views tks))
        (view_texts-part_views tk (split_origin_into_parts tk.token.origin)
          ∙ concat-split_origin tk.token.origin)
    ∙ ap (◌++◌ tk.token.origin) (view_texts-all_views tks)

-- NewLines returns for every list of tokens whose last one has no position, or a line that is not
-- negative and no more than the lines that make takes as a capacity. The texts of the segments of
-- its lines, joined in order, are the tokens' origins joined in order.
pub new_lines-text :
    (tks : List TokenRef)
    → HasRoom tks
    → (ls : List Line) × (new_lines tks ≡ ok ls) × (text_of ls ≡ origins tks)
new_lines-text tks room =
    let (ls, runs, same) = new_lines-views tks room in
    (
      ls,
      runs,
      sym (view_texts-views (all_segments ls)) ∙ ap view_texts same ∙ view_texts-all_views tks,
    )

-- `SourceTokens` reads the pointers alone.
collect : Option TokenRef → List View → List (Option Token)
collect last [] = []
collect last ((s, _) ∷ vs) =
    let tail = collect s vs in
    let same = collect last vs in if same_ref s last then same else token_of s ∷ tail

source_tokens_from-collect :
    (last : Option TokenRef) (xs : List Segment)
    → source_tokens_from last xs ≡ collect last (views xs)
unfolding source_tokens_from collect
source_tokens_from-collect last [] = refl
source_tokens_from-collect last (x ∷ xs) =
    rw (source_tokens_from-collect last xs, source_tokens_from-collect x.source xs)

merge-concat :
    (s : List Segment) (ls : List Line) → merge s (map Line.segments ls) ≡ s ++ all_segments ls
unfolding merge
merge-concat s [] = sym (append-nil s)
merge-concat s (l ∷ ls) =
    merge-concat (s ++ l.segments) ls ∙ append_assoc s l.segments (all_segments ls)

tokens-collect : (ls : List Line) → tokens ls ≡ collect none (views (all_segments ls))
unfolding tokens source_tokens
tokens-collect ls = rw (merge-concat [] ls) (source_tokens_from-collect none (all_segments ls))

same_ref_self : (tk : TokenRef) → same_ref (some tk) (some tk) ≡ true
same_ref_self tk = ground arith

-- No pointer stands next to itself.
abbrev pub IsDistinct : List TokenRef → Type 0
IsDistinct [] = Unit
IsDistinct (tk ∷ []) = Unit
IsDistinct (tk ∷ tk' ∷ tks) = (tk'.address ≢ tk.address) × IsDistinct (tk' ∷ tks)

collect_same :
    (tk : TokenRef) (ps : List Text) (vs : List View)
    → collect (some tk) (part_views tk ps ++ vs) ≡ collect (some tk) vs
unfolding collect
collect_same tk [] vs = refl
collect_same tk (p ∷ ps) vs = rw (same_ref_self tk) (collect_same tk ps vs)

split_origin-cons :
    (s : Text) → (p : Text) × (ps : List Text) × (split_origin_into_parts s ≡ p ∷ ps)
unfolding split_origin_into_parts
split_origin-cons [] = ([], [], refl)
split_origin-cons (c ∷ s) = let (q, qs, e) = split_after-cons newline c s in (c ∷ q, qs, e)

collect_token :
    (last : Option TokenRef) (tk : TokenRef) (vs : List View)
    → same_ref (some tk) last ≡ false
    → collect last (token_views tk ++ vs) ≡ some tk.token ∷ collect (some tk) vs
unfolding collect
collect_token last tk vs h =
    let (p, ps, e) = split_origin-cons tk.token.origin in
    rw (e, h) (ap (◌∷◌ (some tk.token)) (collect_same tk ps vs))

abbrev pub token_values : List TokenRef → List (Option Token)
token_values = map (λ tk. some (TokenRef.token tk))

collect_nil : (last : Option TokenRef) → collect last [] ≡ []
unfolding collect
collect_nil last = refl

collect-all_views :
    (last : TokenRef) (tks : List TokenRef)
    → IsDistinct (last ∷ tks)
    → collect (some last) (all_views tks) ≡ token_values tks
collect-all_views last [] d = collect_nil (some last)
collect-all_views last (tk ∷ tks) (ne, d) =
    collect_token (some last) tk (all_views tks) (ground arith)
    ∙ ap (◌∷◌ (some tk.token)) (collect-all_views tk tks d)

-- Where no token stands twice in a row, and the last one has no position, or a line that is not
-- negative and no more than the lines that make takes as a capacity, NewLines returns and
-- Lines.Tokens gives back the values of the tokens that NewLines was given, each once and in order,
-- however many lines a token was cut into.
pub tokens-new_lines :
    (tks : List TokenRef)
    → HasRoom tks
    → IsDistinct tks
    → (ls : List Line) × (new_lines tks ≡ ok ls) × (tokens ls ≡ token_values tks)
tokens-new_lines tks room d =
    let (ls, runs, same) = new_lines-views tks room in
    (ls, runs, tokens-collect ls ∙ ap (collect none) same ∙ collected tks d)
  where
    collected :
        (tks : List TokenRef) → IsDistinct tks → collect none (all_views tks) ≡ token_values tks
    collected [] d = collect_nil none
    collected (tk ∷ tks) d =
        collect_token none tk (all_views tks) refl
        ∙ ap (◌∷◌ (some tk.token)) (collect-all_views tk tks d)
