-- ===== src/Line/Builder/RoundTrip.antt =====
-- `NewLines` against `Lines.Tokens`: nothing of the text is lost, and the tokens come back.
use niceyaml.Prelude.{
  ℕ, ◌≤◌, ◌⊎◌, Bool, leb, panic, none, some, arith, ◌≡◌, refl, sym, ap, ◌∙◌, true, false, List, [],
  ◌∷◌, ◌++◌, Outcome, ok, append-nil, append_assoc, ◌==◌, if◌then◌else◌, Bool-cases, inl, inr,
}
use niceyaml.Prelude.Int.{ℤ, pos}
use niceyaml.Text.{Text, newline, ends_with}
use niceyaml.Text.Split.{
  concat, split_after, concat-split_after, split_after-cons, split_after-nil, split_after-hit,
  split_after-miss,
}
use niceyaml.Tokens.{Token, TokenRef, TokenPosition, Segment}
use niceyaml.Line.{Line}
use niceyaml.Line.State.{Builder, handle_gap, is_none, new_line}
use niceyaml.Line.Builder.{
  process_parts, add_token, add_tokens, build, max_lines, make_lines, allocate_lines, last_token,
  started_builder, new_lines_builder, new_lines,
}
use niceyaml.Line.Scan.{split_origin_into_parts}
use niceyaml.Line.Builder.Origin.{
  last_ends, part_views, AllProcessed, process_parts-AllProcessed, Kept, handle_gap-Kept,
}
use niceyaml.Line.Builder.Views.{all_segments, View, views, built_views, IsClean, lines-append}

pub concat-split_origin : (s : Text) → concat (split_origin_into_parts s) ≡ s
unfolding split_origin_into_parts
concat-split_origin [] = refl
concat-split_origin (c ∷ s) = concat-split_after newline (c ∷ s)

last_ends-split_after :
    (d : ℕ) (s : Text) → last_ends (split_after newline (d ∷ s)) ≡ ends_with newline (d ∷ s)
last_ends-split_after d [] = elim (Bool-cases (d == newline)) [
  | inl eq ↦ rw (split_after-hit newline d [] eq, split_after-nil)
  | inr ne ↦ rw (split_after-miss newline d [] ne, split_after-nil)
]
last_ends-split_after d (c ∷ s) =
    let (q, qs, e) = split_after-cons newline c s in
    let ih : last_ends ((c ∷ q) ∷ qs) ≡ ends_with newline (c ∷ s) =
      ap last_ends (sym e) ∙ last_ends-split_after c s in
    elim (Bool-cases (d == newline)) [
      | inl eq ↦ rw (split_after-hit newline d (c ∷ s) eq, e) ih
      | inr ne ↦ rw (split_after-miss newline d (c ∷ s) ne, e) (attach_last d c q qs ∙ ih)
    ]
  where
    attach_last :
        (d c : ℕ) (q : Text) (qs : List Text)
        → last_ends ((d ∷ c ∷ q) ∷ qs) ≡ last_ends ((c ∷ q) ∷ qs)
    attach_last d c q [] = refl
    attach_last d c q (p ∷ qs) = refl

last_ends-split_origin : (s : Text) → last_ends (split_origin_into_parts s) ≡ ends_with newline s
unfolding split_origin_into_parts
last_ends-split_origin [] = refl
last_ends-split_origin (c ∷ s) = last_ends-split_after c s

-- What one token adds.
abbrev pub token_views : TokenRef → List View
token_views tk = part_views tk (split_origin_into_parts tk.token.origin)

abbrev pub all_views : List TokenRef → List View
all_views [] = []
all_views (tk ∷ tks) = token_views tk ++ all_views tks

-- A state between tokens.
record Ready (b : Builder) : Type 0 where
  clean : IsClean b
  open_still : b.built ≡ false

record Added (run : Outcome Builder) (b : Builder) (added : List View) : Type 0 where
  state : Builder
  runs : run ≡ ok state
  appended : built_views state ≡ built_views b ++ added
  ready : Ready state

add_token-Added :
    (b : Builder) (tk : TokenRef) → Ready b → Added (add_token b tk) b (token_views tk)
unfolding add_token
add_token-Added b tk r =
    let parts : List Text = split_origin_into_parts tk.token.origin in
    let g : Kept b (handle_gap tk.token b) = handle_gap-Kept tk.token b in
    let p : AllProcessed (handle_gap tk.token b) tk parts
        (process_parts tk parts 0 parts (handle_gap tk.token b) true) =
      process_parts-AllProcessed tk parts 0 parts (handle_gap tk.token b) true
        (λ _. g.clean r.clean) in
    record {
      state = record (process_parts tk parts 0 parts (handle_gap tk.token b) true) {
        prev_token_ended_with_newline = ends_with newline tk.token.origin;
      };
      runs = rw (r.open_still);
      appended = p.appended ∙ ap (λ t. t ++ token_views tk) g.kept;
      ready = record {
        clean = λ h. p.clean (last_ends-split_origin tk.token.origin ∙ h);
        open_still = p.built_kept ∙ g.built_kept ∙ r.open_still;
      };
    }

add_tokens-Added :
    (b : Builder) (tks : List TokenRef) → Ready b → Added (add_tokens b tks) b (all_views tks)
unfolding add_tokens
add_tokens-Added b [] r = record {
  state = b;
  runs = refl;
  appended = sym (append-nil (built_views b));
  ready = r;
}
add_tokens-Added b (tk ∷ tks) r =
    let a : Added (add_token b tk) b (token_views tk) = add_token-Added b tk r in
    let s : Added (add_tokens a.state tks) a.state (all_views tks) =
      add_tokens-Added a.state tks a.ready in
    record {
      state = s.state;
      runs = rw (a.runs) s.runs;
      appended =
          s.appended
          ∙ ap (λ t. t ++ all_views tks) a.appended
          ∙ append_assoc (built_views b) (token_views tk) (all_views tks);
      ready = s.ready;
    }

build-views : (b : Builder) → views (all_segments (build b)) ≡ built_views b
unfolding build
build-views b = finished b.current_line_segments b.lines b.current_line
  where
    finished :
        (xs : List Segment) (ls : List Line) (n : ℤ)
        → views (all_segments (if is_none xs then ls else ls ++ new_line xs n ∷ []))
          ≡ views (all_segments ls) ++ views xs
    finished [] ls n = sym (append-nil _)
    finished (x ∷ xs) ls n = lines-append ls (new_line (x ∷ xs) n)

started_builder-Ready : (t : Token) → Ready (started_builder t)
unfolding started_builder
started_builder-Ready t = record { clean = λ h. refl; open_still = refl }

started_builder-views : (t : Token) → built_views (started_builder t) ≡ []
unfolding started_builder
started_builder-views t = refl

-- The last token has no position, or one whose line the builder can allocate room for.
abbrev pub HasRoom : List TokenRef → Type 0
HasRoom [] = Unit
HasRoom (tk ∷ []) =
    (tk.token.position ≡ none)
    ⊎ ((p : TokenPosition) × (n : ℕ) × (tk.token.position ≡ some p)
        × (p.line ≡ pos n)
        × (n ≤ max_lines))
HasRoom (tk ∷ tk' ∷ tks) = HasRoom (tk' ∷ tks)

allocate_lines-HasRoom :
    (tk : TokenRef) (tks : List TokenRef)
    → HasRoom (tk ∷ tks)
    → allocate_lines (Token.position (last_token tk tks)) ≡ ok []
allocate_lines-HasRoom tk [] (inl e) = rw e refl
allocate_lines-HasRoom tk [] (inr (p, n, e, line, few)) =
    rw e (ap make_lines line ∙ made (leb n max_lines) (ground arith))
  where
    made :
        (b : Bool) → b ≡ true → ◌≡◌ {A = Outcome (List Line)} (if b then ok [] else panic) (ok [])
    made true h = refl
    made false h = cc
allocate_lines-HasRoom tk (tk' ∷ tks) room = allocate_lines-HasRoom tk' tks room

new_lines_builder-run :
    (tk : TokenRef) (tks : List TokenRef)
    → HasRoom (tk ∷ tks)
    → new_lines_builder tk tks ≡ ok (started_builder tk.token)
unfolding new_lines_builder started_builder
new_lines_builder-run tk tks room = rw (allocate_lines-HasRoom tk tks room) refl

-- `NewLines` returns, and its segments are the parts of the tokens in order.
pub new_lines-views :
    (tks : List TokenRef)
    → HasRoom tks
    → (ls : List Line) × (new_lines tks ≡ ok ls) × (views (all_segments ls) ≡ all_views tks)
unfolding new_lines
new_lines-views [] room = ([], refl, refl)
new_lines-views (tk ∷ tks) room =
    let a : Added (add_tokens (started_builder tk.token) (tk ∷ tks)) (started_builder tk.token)
        (all_views (tk ∷ tks)) =
      add_tokens-Added (started_builder tk.token) (tk ∷ tks) (started_builder-Ready tk.token) in
    (
      build a.state,
      rw (new_lines_builder-run tk tks room) (rw (a.runs) refl),
      build-views a.state
          ∙ a.appended
          ∙ ap (λ t. t ++ all_views (tk ∷ tks)) (started_builder-views tk.token),
    )
