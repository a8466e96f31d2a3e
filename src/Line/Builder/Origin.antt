-- ===== src/Line/Builder/Origin.antt =====
-- What the builder does to the text: the segments of all lines, in order, are the parts of the
-- tokens' origins, and each keeps a pointer to its token.
use niceyaml.Prelude.{
  ℕ, ◌+◌, ◌<◌, ◌≡◌, refl, sym, ap, ap₂, ◌∙◌, Bool, true, false, ◌||◌, ◌&&◌, not, List, [], ◌∷◌,
  ◌++◌, map, Option, some, arith, append-nil, append_assoc, length, ◌==◌, if◌then◌else◌, Bool-cases,
  inl, inr,
}
use niceyaml.Text.{Text, newline, ends_with, count}
use niceyaml.Tokens.{Token, TokenRef, TokenPosition}
use niceyaml.Prelude.Int.{ℤ, pos, ltb_ℤ, add64}
use niceyaml.Line.Builder.{part_context, process_parts}
use niceyaml.Line.State.{Builder, finish_line, flush_gap, sync_gap, handle_gap, is_none}
use niceyaml.Line.Part.{
  PartContext, attach_duplicate, track_indent, append_part, is_duplicate_newline, process_part,
}
use niceyaml.Line.Builder.Views.{
  all_segments, View, views, built_views, IsClean, lines-append, attach_duplicate-views,
  track_indent-keeps, append_part-views,
}

finish_line-views : (b : Builder) → built_views (finish_line b) ≡ built_views b
unfolding finish_line
finish_line-views b = append-nil _ ∙ lines-append b.lines _

finish_if-views :
    (b : Builder) (e : Bool) → built_views (if e then finish_line b else b) ≡ built_views b
finish_if-views b true = finish_line-views b
finish_if-views b false = refl

-- What processing one part leaves behind.
record Processed (b : Builder) (ctx : PartContext) (b' : Builder) : Type 0 where
  appended : built_views b' ≡ built_views b ++ (some ctx.tk, ctx.part) ∷ []
  clean : ends_with newline ctx.part ≡ true → b'.current_line_segments ≡ []
  built_kept : b'.built ≡ b.built

duplicate_conditions :
    (b : Builder) (ctx : PartContext)
    → is_duplicate_newline b ctx ≡ true
    → ((ctx.part_index == 0) ≡ true)
      × (b.prev_token_ended_with_newline ≡ true)
      × (0 < length b.lines)
unfolding is_duplicate_newline
duplicate_conditions b ctx h = ground arith

attach_duplicate-keeps :
    (b : Builder) (ctx : PartContext)
    → ((attach_duplicate b ctx).current_line_segments ≡ b.current_line_segments)
      × ((attach_duplicate b ctx).built ≡ b.built)
unfolding attach_duplicate
attach_duplicate-keeps b ctx = (refl, refl)

append_part-built :
    (b : Builder) (ctx : PartContext) (f : Bool)
    → (append_part (track_indent b ctx) ctx f).built ≡ b.built
unfolding append_part track_indent
append_part-built b ctx f = ground arith

finish_if-clean :
    (b : Builder) (e : Bool)
    → e ≡ true
    → (if e then finish_line b else b).current_line_segments ≡ []
unfolding finish_line
finish_if-clean b true h = refl
finish_if-clean b false h = cc

finish_if-built : (b : Builder) (e : Bool) → (if e then finish_line b else b).built ≡ b.built
unfolding finish_line
finish_if-built b true = refl
finish_if-built b false = refl

track_indent-views :
    (b : Builder) (ctx : PartContext) → built_views (track_indent b ctx) ≡ built_views b
track_indent-views b ctx =
    let (lines, waiting) = track_indent-keeps b ctx in
    ap₂ (λ ls xs. views (all_segments ls) ++ views xs) lines waiting

process_part-Processed :
    (b : Builder) (ctx : PartContext) (f : Bool)
    → ((ctx.part_index == 0) ≡ true → IsClean b)
    → Processed b ctx (process_part b ctx f).0
unfolding process_part
process_part-Processed b ctx f clean = elim (Bool-cases (is_duplicate_newline b ctx)) [
  | inl dup ↦
      let (first, ended, has_line) = duplicate_conditions b ctx dup in
      let (waiting, unbuilt) = attach_duplicate-keeps b ctx in
      rw dup (record {
        appended = attach_duplicate-views b ctx has_line (clean first ended);
        clean = λ _. waiting ∙ clean first ended;
        built_kept = unbuilt;
      })
  | inr fresh ↦
      let appended : Builder = append_part (track_indent b ctx) ctx f in
      rw fresh (record {
        appended =
            finish_if-views appended (ends_with newline ctx.part)
            ∙ append_part-views (track_indent b ctx) ctx f
            ∙ ap (λ t. t ++ (some ctx.tk, ctx.part) ∷ []) (track_indent-views b ctx);
        clean = finish_if-clean appended (ends_with newline ctx.part);
        built_kept =
            finish_if-built appended (ends_with newline ctx.part) ∙ append_part-built b ctx f;
      })
]

-- The last part ends with a newline.
abbrev pub last_ends : List Text → Bool
last_ends [] = false
last_ends (p ∷ []) = ends_with newline p
last_ends (p ∷ q ∷ ps) = last_ends (q ∷ ps)

abbrev pub part_views : TokenRef → List Text → List View
part_views tk = map (λ p. (some tk, p))

pub record AllProcessed (b : Builder) (tk : TokenRef) (parts : List Text) (b' : Builder)
    : Type 0 where
  pub appended : built_views b' ≡ built_views b ++ part_views tk parts
  pub clean : last_ends parts ≡ true → b'.current_line_segments ≡ []
  pub built_kept : b'.built ≡ b.built

not_first : (i : ℕ) {P : Type 0} → ((i + 1) == 0) ≡ true → P
not_first i h = absurd (ground arith)

pub process_parts-AllProcessed :
    (tk : TokenRef) (parts : List Text) (i : ℕ) (rest : List Text) (b : Builder) (f : Bool)
    → ((i == 0) ≡ true → IsClean b)
    → AllProcessed b tk rest (process_parts tk parts i rest b f)
unfolding process_parts
process_parts-AllProcessed tk parts i [] b f clean = record {
  appended = sym (append-nil (built_views b));
  clean = λ h. cc;
  built_kept = refl;
}
process_parts-AllProcessed tk parts i (part ∷ []) b f clean =
    let p : Processed b (part_context tk parts i part)
        (process_part b (part_context tk parts i part) f).0 =
      process_part-Processed b (part_context tk parts i part) f clean in
    record { appended = p.appended; clean = p.clean; built_kept = p.built_kept }
process_parts-AllProcessed tk parts i (part ∷ q ∷ rest) b f clean =
    let step : Builder × Bool = process_part b (part_context tk parts i part) f in
    let p : Processed b (part_context tk parts i part) step.0 =
      process_part-Processed b (part_context tk parts i part) f clean in
    let r : AllProcessed step.0 tk (q ∷ rest)
        (process_parts tk parts (i + 1) (q ∷ rest) step.0 step.1) =
      process_parts-AllProcessed tk parts (i + 1) (q ∷ rest) step.0 step.1 (not_first i) in
    record {
      appended =
          r.appended
          ∙ ap (λ t. t ++ part_views tk (q ∷ rest)) p.appended
          ∙ append_assoc (built_views b) ((some tk, part) ∷ []) (part_views tk (q ∷ rest));
      clean = r.clean;
      built_kept = r.built_kept ∙ p.built_kept;
    }

-- `handleGap` moves segments to a line at most.
pub record Kept (b b' : Builder) : Type 0 where
  pub kept : built_views b' ≡ built_views b
  pub clean : IsClean b → IsClean b'
  pub built_kept : b'.built ≡ b.built

flush_gap-Kept : (line : ℤ) (b : Builder) → Kept b (flush_gap line b)
unfolding flush_gap
flush_gap-Kept line b =
    elim (Bool-cases
      (ltb_ℤ (add64 b.current_line (pos 1)) line && not (is_none b.current_line_segments))) [
        | inl gap ↦ rw gap (record {
          kept = append-nil _ ∙ lines-append b.lines _;
          clean = λ c h. refl;
          built_kept = refl;
        })
        | inr no_gap ↦ rw no_gap (record { kept = refl; clean = λ c. c; built_kept = refl })
      ]

sync_gap-keeps :
    (position : Option TokenPosition) (line : ℤ) (b : Builder)
    → ((sync_gap position line b).lines ≡ b.lines)
      × ((sync_gap position line b).current_line_segments ≡ b.current_line_segments)
      × ((sync_gap position line b).prev_token_ended_with_newline ≡ b.prev_token_ended_with_newline)
      × ((sync_gap position line b).built ≡ b.built)
unfolding sync_gap
sync_gap-keeps position line b = ground arith

sync_gap-Kept :
    (position : Option TokenPosition) (line : ℤ) (b : Builder) → Kept b (sync_gap position line b)
sync_gap-Kept position line b =
    let (lines, waiting, ended, unbuilt) = sync_gap-keeps position line b in
    record {
      kept = ap₂ (λ ls xs. views (all_segments ls) ++ views xs) lines waiting;
      clean = λ c h. waiting ∙ c (sym ended ∙ h);
      built_kept = unbuilt;
    }

Kept-trans : {b b' b'' : Builder} → Kept b b' → Kept b' b'' → Kept b b''
Kept-trans p q = record {
  kept = q.kept ∙ p.kept;
  clean = λ c. q.clean (p.clean c);
  built_kept = q.built_kept ∙ p.built_kept;
}

pub handle_gap-Kept : (t : Token) (b : Builder) → Kept b (handle_gap t b)
unfolding handle_gap
handle_gap-Kept t b =
    elim (Bool-cases (
      count newline t.origin == 0 || (count newline t.origin == 1 && ends_with newline t.origin))) [
        | inl simple ↦ rw simple (Kept-trans (flush_gap-Kept _ b) (sync_gap-Kept t.position _ _))
        | inr other ↦ rw other (record { kept = refl; clean = λ c. c; built_kept = refl })
      ]
