-- ===== src/Differ.antt =====
-- diff.go: the line operations of two sources, and what is rendered from them: the unified lines,
-- the hunks with their headers, and the rows of a side-by-side view.
pub mod Sides
pub mod Sums
pub mod Hunks
pub mod Headers
pub mod Rows
pub mod Stats
use niceyaml.Prelude.{
  ℕ, zero, suc, ◌+◌, ◌-◌, ◌/◌, ◌%◌, Bool, true, false, not, ◌&&◌, List, [], ◌∷◌, ◌++◌, map, Option,
  none, some, Outcome, ok, panic, out_of_fuel, ◌>>=◌, at, length, get_elem?, drop, ltb, ◌==◌,
  if◌then◌else◌,
}
use niceyaml.Prelude.Int.{ℤ, pos, negsuc, ltb_ℤ, eqb_ℤ, max_ℤ, add64}
use niceyaml.Text.{Text, text_eq}
use niceyaml.Position.{Span, group_indices, expand, clamp, new_prefix_sums, sum_at, sum_range}
use niceyaml.Diff.{
  Flag, default, inserted, deleted, OpKind, op_equal, op_delete, op_insert, flag, Op,
}
use niceyaml.Diff.Hirschberg.{Hirschberg, init, diff}
use niceyaml.Line.{Line, no_line, content, clone, add_annotation, Annotation, above, update_at}

-- The struct `lineOp`.
pub record LineOp : Type 0 where
  pub line : Line
  pub kind : OpKind

abbrev pub line_op : OpKind → Line → LineOp
line_op kind line = record { line = line; kind = kind }

-- The loops of `computeOps` over the contents.
unfoldable pub contents : List Line → Outcome (List Text)
unfolding content
contents [] = ok []
contents (l ∷ ls) = do text ← content l; rest ← contents ls; ok (text ∷ rest)

-- The body of the loop of `computeOps` for one operation.
unfoldable pub to_line_op : List Line → List Line → Op → Outcome LineOp
to_line_op before after op = elim op.kind [
  | op_equal ↦ do line ← at after op.index; ok (line_op op_equal line)
  | op_delete ↦ do line ← at before op.index; ok (line_op op_delete line)
  | op_insert ↦ do line ← at after op.index; ok (line_op op_insert line)
]

unfoldable pub to_line_ops : List Line → List Line → List Op → Outcome (List LineOp)
unfolding to_line_op
to_line_ops before after [] = ok []
to_line_ops before after (op ∷ ops) = do
  line ← to_line_op before after op
  rest ← to_line_ops before after ops
  ok (line ∷ rest)

-- `Differ.computeOps` with the default algorithm, whose new state it returns.
unfoldable pub compute_ops : Hirschberg → List Line → List Line → Outcome (Hirschberg × List LineOp)
unfolding init diff to_line_ops contents
compute_ops algo before after = do
  before_content ← contents before
  after_content ← contents after
  algo' ← diff before_content after_content (init algo (length before) (length after))
  ops ← to_line_ops before after algo'.ops
  ok (algo', ops)

-- `opKindDeltas`.
unfoldable pub op_kind_deltas : OpKind → ℤ × ℤ
op_kind_deltas op_equal = (pos 1, pos 1)
op_kind_deltas op_delete = (pos 1, pos 0)
op_kind_deltas op_insert = (pos 0, pos 1)

-- The closures of `Differ.Diff`; `NewPrefixSums` calls them within the bounds of the slice only.
unfoldable pub before_delta : List LineOp → ℕ → ℤ
unfolding op_kind_deltas
before_delta ops i = elim (get_elem? ops i) [ none ↦ pos 0 | some op ↦ (op_kind_deltas op.kind).0 ]

unfoldable pub after_delta : List LineOp → ℕ → ℤ
unfolding op_kind_deltas
after_delta ops i = elim (get_elem? ops i) [ none ↦ pos 0 | some op ↦ (op_kind_deltas op.kind).1 ]

-- The struct `DiffResult`; the aligned rows are computed where they are read.
pub record DiffResult : Type 0 where
  pub before_sums : List ℤ
  pub after_sums : List ℤ
  pub name : Text
  pub ops : List LineOp

-- What `Differ.Diff` makes of the operations.
unfoldable pub diff_result : Text → Text → List LineOp → DiffResult
unfolding new_prefix_sums before_delta after_delta
diff_result before_name after_name ops = record {
  before_sums = new_prefix_sums (length ops) (before_delta ops);
  after_sums = new_prefix_sums (length ops) (after_delta ops);
  name = before_name ++ 46 ∷ 46 ∷ after_name;
  ops = ops;
}

abbrev pub flagged : Flag → Line → Line
flagged f l = record l { flag = f }

abbrev pub to_line : LineOp → Line
to_line op = flagged (flag op.kind) (clone op.line)

-- `lineOps.toLines`; the lines of `DiffResult.Unified`.
unfoldable pub to_lines : List LineOp → List Line
unfolding clone flag
to_lines = map to_line

-- The loop of `DiffResult.Stats`.
unfoldable pub stats_loop : List LineOp → ℕ → ℕ → ℕ × ℕ
stats_loop [] added removed = (added, removed)
stats_loop (op ∷ ops) added removed =
    let inserting = stats_loop ops (suc added) removed in
    let deleting = stats_loop ops added (suc removed) in
    let neither = stats_loop ops added removed in
    elim op.kind [ op_insert ↦ inserting | op_delete ↦ deleting | op_equal ↦ neither ]

-- `DiffResult.Stats`.
unfoldable pub stats : List LineOp → ℕ × ℕ
unfolding stats_loop
stats ops = stats_loop ops 0 0

abbrev pub changes : OpKind → Bool
changes op_equal = false
changes _ = true

-- The loop of `selectHunkSpans`, from the index `i` on.
unfoldable pub change_indices : ℕ → List LineOp → List ℕ
change_indices i [] = []
change_indices i (op ∷ ops) =
    let rest = change_indices (i + 1) ops in if changes op.kind then i ∷ rest else rest

-- The end of `selectHunkSpans`.
abbrev pub spans_of : List ℕ → ℕ → ℤ → List Span
spans_of [] count context = []
spans_of (i ∷ rest) count context =
    clamp (expand (group_indices (map pos (i ∷ rest)) context) context) (pos 0) (pos count)

-- `selectHunkSpans`.
unfoldable pub select_hunk_spans : List LineOp → ℤ → List Span
unfolding change_indices group_indices expand clamp
select_hunk_spans ops context = spans_of (change_indices 0 ops) (length ops) context

-- The decimal digits of a number, with `fuel` for at least as many.
abbrev pub digits_of : ℕ → ℕ → Text
digits_of zero n = (48 + n % 10) ∷ []
digits_of (suc fuel) n =
    let front = digits_of fuel (n / 10) in
    if ltb n 10 then (48 + n) ∷ [] else front ++ (48 + n % 10) ∷ []

-- The verb `%d`.
unfoldable pub decimal : ℤ → Text
decimal (pos n) = digits_of n n
decimal (negsuc n) = 45 ∷ digits_of n (suc n)

-- One of the two parts of a header, behind its sign.
unfoldable pub header_part : ℕ → ℤ → ℤ → Text
unfolding decimal
header_part sign line number =
    if ltb_ℤ (pos 1) number
    then 32 ∷ sign ∷ decimal line ++ 44 ∷ decimal number
    else if eqb_ℤ line (pos 1) && eqb_ℤ number (pos 0)
    then 32 ∷ sign ∷ 48 ∷ 44 ∷ 48 ∷ []
    else 32 ∷ sign ∷ decimal line

-- `formatHunkHeader`.
unfoldable pub format_hunk_header : Span → List ℤ → List ℤ → Outcome Text
unfolding header_part sum_at sum_range add64
format_hunk_header span before_sums after_sums = do
  before_start ← sum_at before_sums span.start
  after_start ← sum_at after_sums span.start
  from_count ← sum_range before_sums span
  to_count ← sum_range after_sums span
  ok (
      64 ∷ 64 ∷ header_part 45 (add64 before_start (pos 1)) from_count
      ++ header_part 43 (add64 after_start (pos 1)) to_count
      ++ 32 ∷ 64 ∷ 64 ∷ [])

abbrev pub header_annotation : Text → Annotation
header_annotation header = record { content = header; position = above; col = pos 0 }

-- The loop of `DiffResult.Hunks` over the spans.
unfoldable pub annotate_hunks : DiffResult → List Span → List Line → Outcome (List Line)
unfolding format_hunk_header update_at add_annotation
annotate_hunks r [] lines = ok lines
annotate_hunks r (span ∷ spans) lines = do
  header ← format_hunk_header span r.before_sums r.after_sums
  lines' ← update_at span.start (λ l. add_annotation l (header_annotation header ∷ [])) lines
  annotate_hunks r spans lines'

abbrev pub annotated : DiffResult → List Span → Outcome (List Line × List Span)
annotated r [] = ok ([], [])
annotated r (span ∷ spans) = do
  lines ← annotate_hunks r (span ∷ spans) (to_lines r.ops)
  ok (lines, span ∷ spans)

-- `DiffResult.Hunks`: the lines of the source and the spans.
unfoldable pub hunks : DiffResult → ℤ → Outcome (List Line × List Span)
unfolding select_hunk_spans annotate_hunks to_lines
hunks r context = elim r.ops [
  | [] ↦ ok ([], [])
  | _ ∷ _ ↦ annotated r (select_hunk_spans r.ops (max_ℤ (pos 0) context))
]

-- The struct `alignedRow`.
pub record AlignedRow : Type 0 where
  pub before : Line
  pub after : Line

abbrev pub kind_beq : OpKind → OpKind → Bool
kind_beq op_equal op_equal = true
kind_beq op_delete op_delete = true
kind_beq op_insert op_insert = true
kind_beq _ _ = false

-- `collectConsecutive`, of the operations from the index on.
unfoldable pub collect_consecutive : OpKind → List LineOp → List LineOp
collect_consecutive kind [] = []
collect_consecutive kind (op ∷ ops) =
    let rest = collect_consecutive kind ops in if kind_beq op.kind kind then op ∷ rest else []

abbrev pub cell : Flag → Option LineOp → Line
cell f none = no_line
cell f (some op) = flagged f (clone op.line)

-- The loop over the pairs of deletes and inserts, `count` rounds from `j`.
unfoldable pub pair_rows : List LineOp → List LineOp → ℕ → ℕ → List AlignedRow
unfolding clone
pair_rows deletes inserts j zero = []
pair_rows deletes inserts j (suc count) =
    record {
      before = cell deleted (get_elem? deletes j);
      after = cell inserted (get_elem? inserts j);
    }
    ∷ pair_rows deletes inserts (j + 1) count

abbrev pub equal_row : LineOp → AlignedRow
equal_row op = record {
  before = flagged default (clone op.line);
  after = flagged default (clone op.line);
}

abbrev pub insert_row : LineOp → AlignedRow
insert_row op = record { before = no_line; after = flagged inserted (clone op.line) }

abbrev pub longer : List LineOp → List LineOp → ℕ
longer deletes inserts =
    if ltb (length deletes) (length inserts) then length inserts else length deletes

-- The loop of `getAlignedRows` on the operations from `i` on.
unfoldable pub aligned_rows_loop : ℕ → List LineOp → Outcome (List AlignedRow)
unfolding collect_consecutive pair_rows clone
aligned_rows_loop fuel [] = ok []
aligned_rows_loop zero (op ∷ ops) = out_of_fuel
aligned_rows_loop (suc fuel) (op ∷ ops) =
    let deletes = collect_consecutive op_delete (op ∷ ops) in
    let behind = drop (length deletes) (op ∷ ops) in
    let inserts = collect_consecutive op_insert behind in
    let next = aligned_rows_loop fuel ops in
    let next_pairs = aligned_rows_loop fuel (drop (length inserts) behind) in
    elim op.kind [
      | op_equal ↦ do rows ← next; ok (equal_row op ∷ rows)
      | op_delete ↦ do
        rows ← next_pairs
        ok (pair_rows deletes inserts 0 (longer deletes inserts) ++ rows)
      | op_insert ↦ do rows ← next; ok (insert_row op ∷ rows)
    ]

-- `DiffResult.getAlignedRows`.
unfoldable pub aligned_rows : List LineOp → Outcome (List AlignedRow)
unfolding aligned_rows_loop
aligned_rows ops = aligned_rows_loop (length ops) ops

-- `DiffResult.Before` and `DiffResult.After`.
unfoldable pub before_lines : List LineOp → Outcome (List Line)
unfolding aligned_rows
before_lines ops = do rows ← aligned_rows ops; ok (map AlignedRow.before rows)

unfoldable pub after_lines : List LineOp → Outcome (List Line)
unfolding aligned_rows
after_lines ops = do rows ← aligned_rows ops; ok (map AlignedRow.after rows)
