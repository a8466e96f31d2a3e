-- ===== src/Differ/Sides.antt =====
-- The two sides of the line operations: what `computeOps` and `Unified` keep of both files.
use niceyaml.Prelude.{
  drop-get_elem?, drop-length, none, ℕ, suc, ◌≡◌, refl, sym, ap, ◌∙◌, List, [], ◌∷◌, map, some,
  zero, some_injective, bind_ok, ok, panic, ◌++◌, ◌>>=◌, ok_injective, get_elem?, get_elem?_total,
  drop, length,
}
use niceyaml.Text.{Text, text_eq}
use niceyaml.Diff.{inserted, deleted, OpKind, op_equal, op_delete, op_insert, flag, Op}
use niceyaml.Diff.Script.{Applies, done, equal, delete, insert}
use niceyaml.Diff.Hirschberg.{Hirschberg, init}
use niceyaml.Diff.Hirschberg.Correct.{IsSized, diff-Transforms, init-IsSized}
use niceyaml.Line.{Line, content, stripped, content_of, clone, clone_segments, clone_segment}
use niceyaml.Tokens.{Segment, new_segment}
use niceyaml.Differ.{
  LineOp, line_op, contents, to_line_op, to_line_ops, compute_ops, to_line, to_lines,
}

-- The lines of the operations that are not insertions, and of those that are not deletions.
abbrev pub old_side : List LineOp → List Line
old_side [] = []
old_side (op ∷ ops) =
    let rest = old_side ops in elim op.kind [ op_insert ↦ rest | _ ↦ op.line ∷ rest ]

abbrev pub new_side : List LineOp → List Line
new_side [] = []
new_side (op ∷ ops) =
    let rest = new_side ops in elim op.kind [ op_delete ↦ rest | _ ↦ op.line ∷ rest ]

contents-inverse :
    (l : Line) (ls : List Line) (texts : List Text)
    → contents (l ∷ ls) ≡ ok texts
    → (t : Text) × (rest : List Text) × (content l ≡ ok t)
      × (contents ls ≡ ok rest)
      × (texts ≡ t ∷ rest)
unfolding contents
contents-inverse l ls texts h =
    let (t, e, h') = bind_ok (content l) (λ t. contents ls >>= (λ rest. ok (t ∷ rest))) h in
    let (rest, e', h'') = bind_ok (contents ls) (λ rest. ok (t ∷ rest)) h' in
    (t, rest, e, e', sym (ok_injective h''))

contents-cons :
    (l : Line) (ls : List Line) {t : Text} {texts : List Text}
    → content l ≡ ok t
    → contents ls ≡ ok texts
    → contents (l ∷ ls) ≡ ok (t ∷ texts)
unfolding contents
contents-cons l ls p q = rw (contents, p, q) refl

contents-nil : contents [] ≡ ok []
unfolding contents
contents-nil = refl

-- The line behind a content.
contents-get_elem? :
    (ls : List Line) (texts : List Text) (i : ℕ) {t : Text}
    → contents ls ≡ ok texts
    → get_elem? texts i ≡ some t
    → (l : Line) × (get_elem? ls i ≡ some l) × (content l ≡ ok t)
contents-get_elem? [] texts i {t} c h =
    let none_some : none ≡ some t =
      sym (ap (λ ts. get_elem? ts i) (ok_injective (sym c ∙ contents-nil))) ∙ h in
    cc
contents-get_elem? (l ∷ ls) texts zero c h =
    let (t, rest, e, _, same) = contents-inverse l ls texts c in
    (l, refl, e ∙ ap ok (some_injective (sym (ap (λ ts. get_elem? ts 0) same) ∙ h)))
contents-get_elem? (l ∷ ls) texts (suc i) c h =
    let (t, rest, _, e, same) = contents-inverse l ls texts c in
    contents-get_elem? ls rest i e (sym (ap (λ ts. get_elem? ts (suc i)) same) ∙ h)

contents-length :
    (ls : List Line) (texts : List Text) → contents ls ≡ ok texts → length texts ≡ length ls
contents-length [] texts c = ap length (ok_injective (sym c ∙ contents-nil))
contents-length (l ∷ ls) texts c =
    let (t, rest, _, e, same) = contents-inverse l ls texts c in
    ap length same ∙ ap suc (contents-length ls rest e)

-- The line operations of a script from line `i` and line `j` on, against both sides.
pub record Sided (before after : List Line) (texts : List Text) (i j : ℕ) (ops : List Op)
    : Type 0 where
  pub line_ops : List LineOp
  pub runs : to_line_ops before after ops ≡ ok line_ops
  pub kinds : map LineOp.kind line_ops ≡ map Op.kind ops
  pub old : contents (old_side line_ops) ≡ ok (drop i texts)
  pub new : new_side line_ops ≡ drop j after

module _ (before after : List Line) (old_texts new_texts : List Text)
    (c : contents before ≡ ok old_texts) (d : contents after ≡ ok new_texts) where
  Applies-Sided :
      {ops : List Op} {i j : ℕ}
      → Applies old_texts new_texts (length old_texts) (length new_texts) ops i j
      → Sided before after old_texts i j ops
  unfolding to_line_ops
  Applies-Sided done = record {
    line_ops = [];
    runs = refl;
    kinds = refl;
    old = contents-nil ∙ ap ok (sym (drop-length old_texts));
    new = sym (ap (λ n. drop n after) (contents-length after new_texts d) ∙ drop-length after);
  }
  Applies-Sided (equal {i = i} {j = j} p q a) =
      let r = Applies-Sided a in
      let (l, e, f) = contents-get_elem? after new_texts j d q in
      record {
        line_ops = line_op op_equal l ∷ r.line_ops;
        runs = rw (to_line_ops, to_line_op, e, r.runs) refl;
        kinds = ap (λ ks. op_equal ∷ ks) r.kinds;
        old =
            contents-cons l (old_side r.line_ops) f r.old
            ∙ ap ok (sym (drop-get_elem? old_texts i p));
        new = ap (λ ls. l ∷ ls) r.new ∙ sym (drop-get_elem? after j e);
      }
  Applies-Sided (delete {i = i} h a) =
      let r = Applies-Sided a in
      let (x, p) = get_elem?_total old_texts i h in
      let (l, e, f) = contents-get_elem? before old_texts i c p in
      record {
        line_ops = line_op op_delete l ∷ r.line_ops;
        runs = rw (to_line_ops, to_line_op, e, r.runs) refl;
        kinds = ap (λ ks. op_delete ∷ ks) r.kinds;
        old =
            contents-cons l (old_side r.line_ops) f r.old
            ∙ ap ok (sym (drop-get_elem? old_texts i p));
        new = r.new;
      }
  Applies-Sided (insert {j = j} h a) =
      let r = Applies-Sided a in
      let (x, q) = get_elem?_total new_texts j h in
      let (l, e, f) = contents-get_elem? after new_texts j d q in
      record {
        line_ops = line_op op_insert l ∷ r.line_ops;
        runs = rw (to_line_ops, to_line_op, e, r.runs) refl;
        kinds = ap (λ ks. op_insert ∷ ks) r.kinds;
        old = r.old;
        new = ap (λ ls. l ∷ ls) r.new ∙ sym (drop-get_elem? after j e);
      }

  -- computeOps returns from any state with buffers of one length, where the lines hold no nil token.
  -- The operations that are not insertions have the contents of the lines of before, and those that
  -- are not deletions are the lines of after, both in order; the new state has buffers of one
  -- length.
  pub compute_ops-sides :
      (h : Hirschberg)
      → IsSized h
      → (h' : Hirschberg) × (ops : List LineOp) × (compute_ops h before after ≡ ok (h', ops))
        × IsSized h'
        × (contents (old_side ops) ≡ ok old_texts)
        × (new_side ops ≡ after)
  unfolding compute_ops
  compute_ops-sides h s =
      let (h', runs, script, s') =
        diff-Transforms old_texts new_texts (init h (length before) (length after))
          (init-IsSized h (length before) (length after) s) in
      let r = Applies-Sided script in
      (h', r.line_ops, rw (compute_ops, c, d, runs, r.runs) refl, s', r.old, r.new)

-- A clone keeps the content.
content_of-clone : (ss : List Segment) → content_of (map clone_segment ss) ≡ content_of ss
unfolding content_of new_segment
content_of-clone [] = refl
content_of-clone (s ∷ ss) =
    ap (λ o. elim s.part [ none ↦ panic | some t ↦ do text ← o; ok (stripped t.origin ++ text) ])
      (content_of-clone ss)

content-to_line : (op : LineOp) → content (to_line op) ≡ content op.line
unfolding content clone clone_segments
content-to_line op = content_of-clone op.line.segments

-- The lines of the unified view that stand in the old file, by their flags, and in the new one.
abbrev pub shown_old : List Line → List Line
shown_old [] = []
shown_old (l ∷ ls) = let rest = shown_old ls in elim l.flag [ inserted ↦ rest | _ ↦ l ∷ rest ]

abbrev pub shown_new : List Line → List Line
shown_new [] = []
shown_new (l ∷ ls) = let rest = shown_new ls in elim l.flag [ deleted ↦ rest | _ ↦ l ∷ rest ]

contents_ap :
    (l m : Line) (ls ms : List Line)
    → content l ≡ content m
    → contents ls ≡ contents ms
    → contents (l ∷ ls) ≡ contents (m ∷ ms)
unfolding contents
contents_ap l m ls ms p q = rw (contents, p, q) refl

module _ (l : Line) (ops : List LineOp) where
  shown_old_step :
      (k : OpKind)
      → contents (shown_old (to_lines ops)) ≡ contents (old_side ops)
      → contents (shown_old (to_lines (line_op k l ∷ ops)))
        ≡ contents (old_side (line_op k l ∷ ops))
  unfolding to_lines flag
  shown_old_step op_insert h = h
  shown_old_step op_delete h =
      contents_ap _ l _ (old_side ops) (content-to_line (line_op op_delete l)) h
  shown_old_step op_equal h =
      contents_ap _ l _ (old_side ops) (content-to_line (line_op op_equal l)) h

  shown_new_step :
      (k : OpKind)
      → contents (shown_new (to_lines ops)) ≡ contents (new_side ops)
      → contents (shown_new (to_lines (line_op k l ∷ ops)))
        ≡ contents (new_side (line_op k l ∷ ops))
  unfolding to_lines flag
  shown_new_step op_insert h =
      contents_ap _ l _ (new_side ops) (content-to_line (line_op op_insert l)) h
  shown_new_step op_delete h = h
  shown_new_step op_equal h =
      contents_ap _ l _ (new_side ops) (content-to_line (line_op op_equal l)) h

shown_old-to_lines :
    (ops : List LineOp) → contents (shown_old (to_lines ops)) ≡ contents (old_side ops)
unfolding to_lines
shown_old-to_lines [] = refl
shown_old-to_lines (op ∷ ops) = shown_old_step op.line ops op.kind (shown_old-to_lines ops)

shown_new-to_lines :
    (ops : List LineOp) → contents (shown_new (to_lines ops)) ≡ contents (new_side ops)
unfolding to_lines
shown_new-to_lines [] = refl
shown_new-to_lines (op ∷ ops) = shown_new_step op.line ops op.kind (shown_new-to_lines ops)

-- Where the lines hold no nil token, the unified view of a diff holds both files: its lines that are
-- not flagged as inserted have the contents of before, in order, and those that are not flagged as
-- deleted the contents of after.
pub compute_ops-unified :
    (h : Hirschberg) (before after : List Line) (old_texts new_texts : List Text)
    → IsSized h
    → contents before ≡ ok old_texts
    → contents after ≡ ok new_texts
    → (h' : Hirschberg) × (ops : List LineOp) × (compute_ops h before after ≡ ok (h', ops))
      × (contents (shown_old (to_lines ops)) ≡ ok old_texts)
      × (contents (shown_new (to_lines ops)) ≡ ok new_texts)
compute_ops-unified h before after old_texts new_texts s c d =
    let (h', ops, runs, _, old, new) = compute_ops-sides before after old_texts new_texts c d h s in
    (h', ops, runs, shown_old-to_lines ops ∙ old, shown_new-to_lines ops ∙ ap contents new ∙ d)
