-- ===== src/Diff/Hirschberg/Emit.antt =====
-- The base cases of `recurse`: what they append to the operations is a longest script of the range.
use native.Mathlib.Numerals.{add-one}
use mathlib.Core.Bool.{false≢true}
use native.Mathlib.Nat.{le_refl}
use niceyaml.Prelude.{
  some_injective, ℕ, zero, suc, ◌+◌, ◌-◌, ◌≤◌, ◌<◌, ◌≡◌, refl, sym, ◌∙◌, List, [], ◌∷◌, ◌++◌,
  Option, none, some, false, arith, append-nil, append_assoc, length, get_elem?, get_elem?_total,
  Outcome, ok, Eq, ◌=?◌, Bool-cases, inl, inr, ℕ_discrete, subst,
}
use niceyaml.Diff.{Op}
use niceyaml.Diff.Script.{
  insert_at, delete_at, equal_at, Applies, done, equal, delete, insert, equals, equals-append,
  Applies-append, Applies-le,
}
use niceyaml.Diff.Hirschberg.{append_range, find_match, emit_single}
use niceyaml.Diff.Hirschberg.Optimal.{Longest}

-- `res` is `ops` with a script of the range behind it.
pub record Emitted {ℓ} {A : Type ℓ} (before after : List A) (res ops : List Op)
    (i_end j_end i j k : ℕ) : Type ℓ where
  pub script : List Op
  pub appended : res ≡ ops ++ script
  pub applies : Applies before after i_end j_end script i j
  pub kept : equals script ≡ k

regroup :
    {res : List Op} (ops : List Op) (o : Op) (xs ys : List Op)
    → res ≡ ops ++ xs
    → (res ++ o ∷ []) ++ ys ≡ ops ++ (xs ++ o ∷ ys)
regroup ops o xs ys e = rw e (simp append_assoc)

module _ {ℓ} {A : Type ℓ} (before after : List A) where
  pub append_inserts :
      (i j count j_end : ℕ) (ops : List Op)
      → j + count ≡ j_end
      → j_end ≤ length after
      → Emitted before after (append_range insert_at j count ops) ops i j_end i j 0
  unfolding append_range
  append_inserts i j zero j_end ops end fits =
      let e' : j_end ≡ j = omega arith in
      rw e' (record { script = []; appended = sym (append-nil ops); applies = done; kept = refl })
  append_inserts i j (suc count) j_end ops end fits =
      let r : Emitted before after (append_range insert_at (suc j) count (ops ++ insert_at j ∷ []))
          (ops ++ insert_at j ∷ []) i j_end i (suc j) 0 =
        append_inserts i (suc j) count j_end (ops ++ insert_at j ∷ []) (omega arith) fits in
      record {
        script = insert_at j ∷ r.script;
        appended = rw add-one (r.appended ∙ append_assoc ops (insert_at j ∷ []) r.script);
        applies = insert (omega arith) r.applies;
        kept = omega (arith, r.kept);
      }

  pub append_deletes :
      (i j count i_end : ℕ) (ops : List Op)
      → i + count ≡ i_end
      → i_end ≤ length before
      → Emitted before after (append_range delete_at i count ops) ops i_end j i j 0
  unfolding append_range
  append_deletes i j zero i_end ops end fits =
      let e' : i_end ≡ i = omega arith in
      rw e' (record { script = []; appended = sym (append-nil ops); applies = done; kept = refl })
  append_deletes i j (suc count) i_end ops end fits =
      let r : Emitted before after (append_range delete_at (suc i) count (ops ++ delete_at i ∷ []))
          (ops ++ delete_at i ∷ []) i_end j (suc i) j 0 =
        append_deletes (suc i) j count i_end (ops ++ delete_at i ∷ []) (omega arith) fits in
      record {
        script = delete_at i ∷ r.script;
        appended = rw add-one (r.appended ∙ append_assoc ops (delete_at i ∷ []) r.script);
        applies = delete (omega arith) r.applies;
        kept = omega (arith, r.kept);
      }

  -- A script keeps no more lines than either range has.
  pub equals_bound :
      {i_end j_end i j : ℕ} {ops : List Op}
      → Applies before after i_end j_end ops i j
      → (equals ops + i ≤ i_end) × (equals ops + j ≤ j_end)
  equals_bound done = omega arith
  equals_bound (equal p q l) = omega (arith, equals_bound l)
  equals_bound (delete h l) = omega (arith, equals_bound l)
  equals_bound (insert h l) = omega (arith, equals_bound l)

module _ {ℓ} {A : Type ℓ} ⦃e : Eq A⦄ (before after : List A) where
  -- No line of `after[j:j_end]` equals `x`.
  abbrev pub Absent : A → ℕ → ℕ → Type ℓ
  Absent x j j_end =
      (k : ℕ) (y : A) → j ≤ k → k < j_end → get_elem? after k ≡ some y → (x =? y) ≡ false

  abbrev pub Finds : A → ℕ → ℕ → Option ℕ → Type ℓ
  Finds x j j_end none = Absent x j j_end
  Finds x j j_end (some k) = (get_elem? after k ≡ some x) × (j ≤ k) × (k < j_end)

  pub record Found (run : Outcome (Option ℕ)) (x : A) (j j_end : ℕ) : Type ℓ where
    pub result : Option ℕ
    pub runs : run ≡ ok result
    pub finds : Finds x j j_end result

  widen :
      (x : A) (j j_end : ℕ) {y : A} (r : Option ℕ)
      → get_elem? after j ≡ some y
      → (x =? y) ≡ false
      → Finds x (suc j) j_end r
      → Finds x j j_end r
  widen x j j_end {y} none hy ne f = λ k z p q hz. elim (ℕ_discrete j k) [
    | yes same ↦ rw (some_injective (sym hz ∙ subst (λ t. get_elem? after t ≡ some y) same hy)) ne
    | no other ↦ f k z (omega arith) q hz
  ]
  widen x j j_end (some k) hy ne f = (f.0, omega arith, f.2)

  pub find_match-Found :
      (x : A) (j count j_end : ℕ)
      → j + count ≡ j_end
      → j_end ≤ length after
      → Found (find_match before after x j count) x j j_end
  unfolding find_match
  find_match-Found x j zero j_end end fits = record {
    result = none;
    runs = refl;
    finds = λ k y p q hy. absurd (omega arith);
  }
  find_match-Found x j (suc count) j_end end fits =
      let (y, hy) = get_elem?_total after j (omega arith) in
      let r : Found (find_match before after x (suc j) count) x (suc j) j_end =
        find_match-Found x (suc j) count j_end (omega arith) fits in
      elim (Bool-cases (x =? y)) [
        | inl eq ↦ record {
          result = some j;
          runs = rw (hy, eq);
          finds = (rw ((e.beq_iff x y).0 eq) hy, omega arith, omega arith);
        }
        | inr ne ↦ record {
          result = r.result;
          runs = rw (hy, ne, add-one) r.runs;
          finds = widen x j j_end r.result hy ne r.finds;
        }
      ]

  -- With no equal line a script of one line keeps nothing.
  Absent-keeps :
      {b j_lo j_end i j : ℕ} {x : A} {ops : List Op}
      → get_elem? before b ≡ some x
      → Absent x j_lo j_end
      → b ≤ i
      → j_lo ≤ j
      → Applies before after (suc b) j_end ops i j
      → equals ops ≤ 0
  Absent-keeps hx none_equal p q done = omega arith
  Absent-keeps {b} {i} {j} {x} hx none_equal p q (equal {x = y} h₁ h₂ d) =
      let (h, k) = Applies-le d in
      let b_is : b ≡ i = omega arith in
      let x_is : x ≡ y =
        some_injective (sym hx ∙ subst (λ t. get_elem? before t ≡ some y) (sym b_is) h₁) in
      absurd (false≢true (sym (none_equal j y q (omega arith) h₂) ∙ (e.beq_iff x y).1 x_is))
  Absent-keeps hx none_equal p q (delete h d) =
      omega (arith, Absent-keeps hx none_equal (omega arith) q d)
  Absent-keeps hx none_equal p q (insert h d) =
      omega (arith, Absent-keeps hx none_equal p (omega arith) d)

  abbrev pub found_count : Option ℕ → ℕ
  found_count none = 0
  found_count (some _) = 1

  pub emit_single-Emitted :
      (b j j_end : ℕ) (x : A) (r : Option ℕ) (ops : List Op)
      → get_elem? before b ≡ some x
      → b < length before
      → j ≤ j_end
      → j_end ≤ length after
      → Finds x j j_end r
      → Emitted before after
          (emit_single before after b j j_end r ops)
          ops
          (suc b)
          j_end
          b
          j
          (found_count r)
  unfolding emit_single
  emit_single-Emitted b j j_end x none ops hx fits order fits' f =
      let r : Emitted before after (append_range insert_at j (j_end - j) (ops ++ delete_at b ∷ []))
          (ops ++ delete_at b ∷ []) (suc b) j_end (suc b) j 0 =
        append_inserts before after (suc b) j (j_end - j) j_end (ops ++ delete_at b ∷ [])
          (omega arith) fits' in
      record {
        script = delete_at b ∷ r.script;
        appended = r.appended ∙ append_assoc ops (delete_at b ∷ []) r.script;
        applies = delete fits r.applies;
        kept = omega (arith, r.kept);
      }
  emit_single-Emitted b j j_end x (some k) ops hx fits order fits' (hk, p, q) =
      let first : Emitted before after (append_range insert_at j (k - j) ops) ops b k b j 0 =
        append_inserts before after b j (k - j) k ops (omega arith) (omega arith) in
      let mid : List Op = append_range insert_at j (k - j) ops ++ equal_at k ∷ [] in
      let last : Emitted before after (append_range insert_at (suc k) (j_end - suc k) mid) mid
          (suc b) j_end (suc b) (suc k) 0 =
        append_inserts before after (suc b) (suc k) (j_end - suc k) j_end mid (omega arith) fits' in
      record {
        script = first.script ++ equal_at k ∷ last.script;
        appended =
            rw add-one
              (last.appended ∙ regroup ops (equal_at k) first.script last.script first.appended);
        applies = Applies-append first.applies (equal hx hk last.applies);
        kept =
            omega
              (arith, equals-append first.script (equal_at k ∷ last.script), first.kept, last.kept);
      }

  pub emit_single-Longest :
      (b j j_end : ℕ) (x : A) (r : Option ℕ)
      → get_elem? before b ≡ some x
      → Finds x j j_end r
      → Longest before after (suc b) j_end b j (found_count r)
  emit_single-Longest b j j_end x none hx f ops d = Absent-keeps hx f (le_refl b) (le_refl j) d
  emit_single-Longest b j j_end x (some k) hx f ops d = omega (arith, equals_bound before after d)
