-- ===== src/Diff/Hirschberg/Recursion.antt =====
-- `recurse` with enough fuel: it does not panic, and appends a longest script of its range.
use native.Mathlib.Nat.{le_trans}
use native.Mathlib.Numerals.{add-one}
use niceyaml.Prelude.{
  ℕ, zero, suc, ◌+◌, ◌-◌, ◌/◌, ◌≤◌, ◌<◌, ◌≡◌, ◌==◌, ==_iff, refl, ◌∙◌, List, ◌++◌, false, arith,
  append_assoc, length, get_elem?_total, Outcome, ok, Eq, Bool-cases, inl, inr, none,
}
use niceyaml.Diff.{Op}
use niceyaml.Diff.Script.{insert_at, delete_at, Applies, equals, Applies-append}
use niceyaml.Diff.Hirschberg.{
  Hirschberg, append_range, single_before_line, divide, recurse, best_mid, forward, backward,
  find_match,
}
use niceyaml.Diff.Hirschberg.Passes.{Sized, Ran, forward-Ran, backward-Ran, table_from, table_to}
use niceyaml.Diff.Hirschberg.Middle.{Picked, best_mid-Picked}
use niceyaml.Diff.Hirschberg.Optimal.{Longest}
use niceyaml.Diff.Hirschberg.Split.{column_score, score_bounds, halves_reach}
use niceyaml.Diff.Hirschberg.Emit.{
  Emitted, append_inserts, append_deletes, equals_bound, Found, find_match-Found,
  emit_single-Emitted, emit_single-Longest,
}

-- A run ends without a panic; it keeps the buffers' size, and appends a longest script.
pub record Edited {ℓ} {A : Type ℓ} (before after : List A) (run : Outcome Hirschberg)
    (h : Hirschberg) (size b_start b_end a_start a_end : ℕ) : Type ℓ where
  pub state : Hirschberg
  pub runs : run ≡ ok state
  pub sized : Sized state size
  pub script : List Op
  pub appended : state.ops ≡ h.ops ++ script
  pub applies : Applies before after b_end a_end script b_start a_start
  pub longest : Longest before after b_end a_end b_start a_start (equals script)

two_lines : (m : ℕ) → (m == 0) ≡ false → (m == 1) ≡ false → 1 < m
two_lines m p q = ground arith

module _ {ℓ} {A : Type ℓ} ⦃e : Eq A⦄ (before after : List A) where
  -- A range whose script can keep no line at all.
  Edited-base :
      {run : Outcome Hirschberg} {res : List Op} (h : Hirschberg)
      {size b_start b_end a_start a_end k : ℕ}
      → Sized h size
      → run ≡ ok (record h { ops = res })
      → Emitted before after res h.ops b_end a_end b_start a_start k
      → Longest before after b_end a_end b_start a_start k
      → Edited before after run h size b_start b_end a_start a_end
  Edited-base {res} h {k} s r m l = record {
    state = record h { ops = res };
    runs = r;
    sized = record {
      row0_size = s.row0_size;
      row1_size = s.row1_size;
      fwd_size = s.fwd_size;
      bwd_size = s.bwd_size;
    };
    script = m.script;
    appended = m.appended;
    applies = m.applies;
    longest = λ ops d. omega (arith, l ops d, m.kept);
  }

  single-Edited :
      (h : Hirschberg) (size b a_start a_end : ℕ)
      → Sized h size
      → b < length before
      → a_start ≤ a_end
      → a_end ≤ length after
      → Edited before after
          (single_before_line before after b a_start a_end h)
          h
          size
          b
          (suc b)
          a_start
          a_end
  unfolding single_before_line
  single-Edited h size b a_start a_end s p q r =
      let (x, hx) = get_elem?_total before b p in
      let f : Found before after (find_match before after x a_start (a_end - a_start)) x a_start
          a_end =
        find_match-Found before after x a_start (a_end - a_start) a_end (omega arith) r in
      Edited-base h s (rw (hx, f.runs))
        (emit_single-Emitted before after b a_start a_end x f.result h.ops hx p q r f.finds)
        (emit_single-Longest before after b a_start a_end x f.result hx f.finds)

  -- The two halves around the best column `c`.
  join-Edited :
      (size b_start b_mid b_end a_start a_end c : ℕ) (h h' : Hirschberg)
      {run run₁ run₂ : Outcome Hirschberg}
      (l : Edited before after run₁ h' size b_start b_mid a_start (a_start + c))
      (r : Edited before after run₂ l.state size b_mid b_end (a_start + c) a_end)
      → h'.ops ≡ h.ops
      → run ≡ run₂
      → b_start ≤ b_mid
      → b_mid ≤ b_end
      → b_end ≤ length before
      → a_start ≤ a_end
      → a_end ≤ length after
      → c ≤ a_end - a_start
      → ((k : ℕ)
          → k ≤ a_end - a_start
          → column_score before after b_start b_mid b_end a_start a_end k
            ≤ column_score before after b_start b_mid b_end a_start a_end c)
      → Edited before after run h size b_start b_end a_start a_end
  join-Edited size b_start b_mid b_end a_start a_end c h h' l r kept same_run p q bb o ba in_range
        best =
      record {
        state = r.state;
        runs = same_run ∙ r.runs;
        sized = r.sized;
        script = l.script ++ r.script;
        appended = rw (r.appended, l.appended, kept) (append_assoc h.ops l.script r.script);
        applies = Applies-append l.applies r.applies;
        longest = λ ops d.
            le_trans (score_bounds before after b_start b_mid b_end a_start a_end c p q best ops d)
              (halves_reach before after b_start b_mid b_end a_start a_end c l.script r.script p q o
                in_range bb ba l.longest r.longest);
      }

  module _ (rec : ℕ → ℕ → ℕ → ℕ → Hirschberg → Outcome Hirschberg) (size fuel : ℕ) where
    -- What `divide` needs of the recursive call.
    abbrev Solves : Type ℓ
    Solves =
        (b_start b_end a_start a_end : ℕ) (h : Hirschberg)
        → b_end - b_start < fuel
        → Sized h size
        → b_start ≤ b_end
        → b_end ≤ length before
        → a_start ≤ a_end
        → a_end ≤ length after
        → Edited before after (rec b_start b_end a_start a_end h) h size b_start b_end a_start a_end

    divide-Edited :
        (b_start b_end a_start a_end : ℕ) (h : Hirschberg)
        → Solves
        → 1 < b_end - b_start
        → b_end - b_start < suc fuel
        → length after < size
        → Sized h size
        → b_end ≤ length before
        → a_start ≤ a_end
        → a_end ≤ length after
        → Edited before after
            (divide before after rec b_start b_end a_start a_end h)
            h
            size
            b_start
            b_end
            a_start
            a_end
    unfolding divide
    divide-Edited b_start b_end a_start a_end h solve two enough fits s bb q ba =
        let b_mid : ℕ = b_start + (b_end - b_start) / 2 in
        let n : ℕ = a_end - a_start in
        let f : Ran (forward before after b_start b_mid a_start a_end h) h size n
            (table_from before after b_start a_start (b_mid - b_start)) =
          forward-Ran before after b_start b_mid a_start a_end size h s (omega arith) ba
            (omega arith) in
        let g : Ran (backward before after b_mid b_end a_start a_end f.state) f.state size n
            (table_to before after b_end a_end (b_end - b_mid)) =
          backward-Ran before after b_mid b_end a_start a_end size f.state f.sized bb ba
            (omega arith) in
        let c : Picked (table_from before after b_start a_start (b_mid - b_start))
            (table_to before after b_end a_end (b_end - b_mid)) n
            (best_mid f.result g.result n a_start 0 (suc n) none a_start) a_start =
          best_mid-Picked _ _ n a_start f.result g.result f.holds g.holds in
        let a_mid : ℕ = a_start + c.col in
        let l : Edited before after (rec b_start b_mid a_start a_mid g.state) g.state size b_start
            b_mid a_start a_mid =
          solve b_start b_mid a_start a_mid g.state (omega arith) g.sized (omega arith)
            (omega arith) (omega arith) (omega (arith, c.in_range)) in
        let r : Edited before after (rec b_mid b_end a_mid a_end l.state) l.state size b_mid b_end
            a_mid a_end =
          solve b_mid b_end a_mid a_end l.state (omega arith) l.sized (omega arith) bb
            (omega (arith, c.in_range)) ba in
        join-Edited size b_start b_mid b_end a_start a_end c.col h g.state l r
          (g.ops_kept ∙ f.ops_kept) (rw (f.runs, g.runs, add-one, c.runs, l.runs) refl)
          (omega arith) (omega arith) bb q ba c.in_range c.best

  pub recurse-Edited :
      (size fuel b_start b_end a_start a_end : ℕ) (h : Hirschberg)
      → length after < size
      → b_end - b_start < fuel
      → Sized h size
      → b_start ≤ b_end
      → b_end ≤ length before
      → a_start ≤ a_end
      → a_end ≤ length after
      → Edited before after
          (recurse before after fuel b_start b_end a_start a_end h)
          h
          size
          b_start
          b_end
          a_start
          a_end
  unfolding recurse
  recurse-Edited size zero b_start b_end a_start a_end h fits enough s p bb q ba = elim enough [ ]
  recurse-Edited size (suc fuel) b_start b_end a_start a_end h fits enough s p bb q ba =
      elim (Bool-cases (b_end - b_start == 0)) [
        | inl no_lines ↦
            let same : b_end ≡ b_start = omega (arith, (==_iff _ _).0 no_lines) in
            let m : Emitted before after (append_range insert_at a_start (a_end - a_start) h.ops)
                h.ops b_start a_end b_start a_start 0 =
              append_inserts before after b_start a_start (a_end - a_start) a_end h.ops
                (omega arith) ba in
            Edited-base {res = append_range insert_at a_start (a_end - a_start) h.ops} h {k = 0} s
              (rw no_lines) (rw same m) (λ ops d. omega (arith, equals_bound before after d))
        | inr lines ↦ elim (Bool-cases (a_end - a_start == 0)) [
          | inl no_cols ↦
              let same : a_end ≡ a_start = omega (arith, (==_iff _ _).0 no_cols) in
              let m : Emitted before after (append_range delete_at b_start (b_end - b_start) h.ops)
                  h.ops b_end a_start b_start a_start 0 =
                append_deletes before after b_start a_start (b_end - b_start) b_end h.ops
                  (omega arith) bb in
              Edited-base {res = append_range delete_at b_start (b_end - b_start) h.ops} h {k = 0} s
                (rw (lines, no_cols)) (rw same m)
                (λ ops d. omega (arith, equals_bound before after d))
          | inr cols ↦ elim (Bool-cases (b_end - b_start == 1)) [
            | inl one ↦
                let same : b_end ≡ suc b_start = omega (arith, (==_iff _ _).0 one) in
                rw (lines, cols, one, same)
                  (single-Edited h size b_start a_start a_end s (omega arith) q ba)
            | inr more ↦
                rw (lines, cols, more)
                  (divide-Edited (recurse before after fuel) size fuel b_start b_end a_start a_end h
                    (λ b₁ b₂ a₁ a₂ h' enough' s' p' bb' q' ba'.
                      recurse-Edited size fuel b₁ b₂ a₁ a₂ h' fits enough' s' p' bb' q' ba')
                    (two_lines (b_end - b_start) lines more) enough fits s bb q ba)
          ]
        ]
      ]
