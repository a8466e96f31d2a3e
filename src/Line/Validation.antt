-- ===== src/Line/Validation.antt =====
-- `Lines.Validate` against what it promises.
use niceyaml.Prelude.{
  ℕ, ◌+◌, ◌≡◌, ◌≢◌, ◌↔◌, ◌⊎◌, refl, sym, ap, ◌∙◌, Bool, true, false, List, [], ◌∷◌, Option, none,
  some, if◌then◌else◌, Bool-cases, inl, inr, arith, Option-cases,
}
use niceyaml.Prelude.Int.{ℤ, pos, ltb_ℤ, eqb_ℤ, ◌<ℤ◌, eqb_ℤ_iff}
use niceyaml.Tokens.{Token, TokenPosition, Segment}
use niceyaml.Line.{
  Line, line_number, unset, mismatches, expected_line, is_blank, ValidationError, validate_tokens,
  validate_lines, validate, or_else,
}

-- The tokens of a line that have a position, and whether their text is empty.
abbrev pub placed_token : Option Token → List (TokenPosition × Bool) → List (TokenPosition × Bool)
placed_token none ps = ps
placed_token (some t) ps = elim t.position [ none ↦ ps | some p ↦ (p, is_blank t.origin) ∷ ps ]

abbrev pub placed : List Segment → List (TokenPosition × Bool)
placed [] = []
placed (s ∷ ss) = placed_token s.part (placed ss)

-- The numbers grow strictly, the first being greater than `lower`.
abbrev pub GrowsFrom : ℤ → List ℤ → Type 0
GrowsFrom lower [] = Unit
GrowsFrom lower (n ∷ ns) = (lower <ℤ n) × GrowsFrom n ns

-- The columns of the tokens that have a text.
abbrev pub columns : List (TokenPosition × Bool) → List ℤ
columns [] = []
columns ((p, true) ∷ ps) = columns ps
columns ((p, false) ∷ ps) = p.column ∷ columns ps

-- All tokens say that they stand on the line `n`.
abbrev pub AllOn : ℤ → List (TokenPosition × Bool) → Type 0
AllOn n [] = Unit
AllOn n ((p, _) ∷ ps) = (p.line ≡ n) × AllOn n ps

-- The tokens say that they stand on one line.
abbrev pub OnOneLine : List (TokenPosition × Bool) → Type 0
OnOneLine [] = Unit
OnOneLine ((p, _) ∷ ps) = AllOn p.line ps

-- No token gives -1 as its line, the value that `Validate` takes for none.
abbrev pub HaveLines : List (TokenPosition × Bool) → Type 0
HaveLines [] = Unit
HaveLines ((p, _) ∷ ps) = (p.line ≢ unset) × HaveLines ps

-- The inner loop, on the tokens that have a position.
validate_placed : ℤ → ℤ → List (TokenPosition × Bool) → Bool
validate_placed expected prev_col [] = true
validate_placed expected prev_col ((p, blank) ∷ ps) =
    let checked = expected_line expected p.line in
    let same = validate_placed checked prev_col ps in
    let wide = validate_placed checked p.column ps in
    if mismatches expected p.line
    then false
    else if blank
    then same
    else if ltb_ℤ prev_col p.column
    then wide
    else false

abbrev accepted : Option ValidationError → Bool
accepted none = true
accepted (some e) = false

validate_tokens-placed :
    (ss : List Segment) (i j : ℕ) (expected prev_col : ℤ)
    → accepted (validate_tokens i j expected prev_col ss)
      ≡ validate_placed expected prev_col (placed ss)
unfolding validate_tokens validate_placed
validate_tokens-placed [] i j expected prev_col = refl
validate_tokens-placed (s ∷ ss) i j expected prev_col = elim (Option-cases s.part) [
  | inl e ↦ rw (validate_tokens, e) (validate_tokens-placed ss i (j + 1) expected prev_col)
  | inr (t, e) ↦ elim (Option-cases t.position) [
    | inl f ↦ rw (validate_tokens, e, f) (validate_tokens-placed ss i (j + 1) expected prev_col)
    | inr (p, f) ↦ elim (Bool-cases (mismatches expected p.line)) [
      | inl bad ↦ rw (validate_tokens, validate_placed, e, f, bad) refl
      | inr good ↦ elim (Bool-cases (is_blank t.origin)) [
        | inl blank ↦
            rw (validate_tokens, validate_placed, e, f, good, blank)
              (validate_tokens-placed ss i (j + 1) (expected_line expected p.line) prev_col)
        | inr text ↦ elim (Bool-cases (ltb_ℤ prev_col p.column)) [
          | inl less ↦
              rw (validate_tokens, validate_placed, e, f, good, text, less)
                (validate_tokens-placed ss i (j + 1) (expected_line expected p.line) p.column)
          | inr low ↦ rw (validate_tokens, validate_placed, e, f, good, text, low) refl
        ]
      ]
    ]
  ]
]

-- One token of the loop, where the line is that of the token or not set.
module _ (n c : ℤ) (p : TokenPosition) (ps : List (TokenPosition × Bool)) where
  abbrev Fits : Type 0
  Fits = (n ≡ p.line) ⊎ (n ≡ unset)

  matches : Fits → mismatches n p.line ≡ false
  matches h = ground arith

  expected : Fits → expected_line n p.line ≡ p.line
  expected h = ground arith

  validate_blank : Fits → validate_placed n c ((p, true) ∷ ps) ≡ validate_placed p.line c ps
  unfolding validate_placed
  validate_blank h = rw (validate_placed, matches h, expected h) refl

  validate_text :
      Fits
      → ltb_ℤ c p.column ≡ true
      → validate_placed n c ((p, false) ∷ ps) ≡ validate_placed p.line p.column ps
  unfolding validate_placed
  validate_text h less = rw (validate_placed, matches h, expected h, less) refl

  validate_low : Fits → ltb_ℤ c p.column ≡ false → validate_placed n c ((p, false) ∷ ps) ≡ false
  unfolding validate_placed
  validate_low h low = rw (validate_placed, matches h, expected h, low) refl

  validate_other : (b : Bool) → n ≢ unset → n ≢ p.line → validate_placed n c ((p, b) ∷ ps) ≡ false
  unfolding validate_placed
  validate_other b h k =
      let bad : mismatches n p.line ≡ true = ground arith in rw (validate_placed, bad) refl

not_true {ℓ} : {N : Type ℓ} {b : Bool} → b ≡ false → b ≡ true → N
not_true e f = cc

-- The loop with a line that is set.
validate_placed-set :
    (n c : ℤ) (ps : List (TokenPosition × Bool))
    → n ≢ unset
    → (validate_placed n c ps ≡ true) ↔ (AllOn n ps × GrowsFrom c (columns ps))
unfolding validate_placed
validate_placed-set n c [] h = (λ _. (tt, tt), λ _. refl)
validate_placed-set n c ((p, true) ∷ ps) h = elim (Bool-cases (eqb_ℤ p.line n)) [
  | inl same ↦
      let on : p.line ≡ n = (eqb_ℤ_iff p.line n).0 same in
      let ih = validate_placed-set n c ps h in
      let run : validate_placed n c ((p, true) ∷ ps) ≡ validate_placed n c ps =
        validate_blank n c p ps (inl (sym on)) ∙ ap (λ x. validate_placed x c ps) on in
      (λ v. let (a, g) = ih.0 (sym run ∙ v) in ((on, a), g), λ ((_, a), g). run ∙ ih.1 (a, g))
  | inr other ↦ (
    λ v. not_true (validate_other n c p ps true h (ground arith)) v,
    λ ((on, a), g). not_true other ((eqb_ℤ_iff p.line n).1 on),
  )
]
validate_placed-set n c ((p, false) ∷ ps) h = elim (Bool-cases (eqb_ℤ p.line n)) [
  | inl same ↦
      let on : p.line ≡ n = (eqb_ℤ_iff p.line n).0 same in
      let fits : (n ≡ p.line) ⊎ (n ≡ unset) = inl (sym on) in
      elim (Bool-cases (ltb_ℤ c p.column)) [
        | inl less ↦
            let ih = validate_placed-set n p.column ps h in
            let run : validate_placed n c ((p, false) ∷ ps) ≡ validate_placed n p.column ps =
              validate_text n c p ps fits less ∙ ap (λ x. validate_placed x p.column ps) on in
            (
              λ v. let (a, g) = ih.0 (sym run ∙ v) in ((on, a), (ground arith, g)),
              λ ((_, a), (_, g)). run ∙ ih.1 (a, g),
            )
        | inr low ↦ (
          λ v. not_true (validate_low n c p ps fits low) v,
          λ ((_, a), (q, g)). not_true low (ground arith),
        )
      ]
  | inr other ↦ (
    λ v. not_true (validate_other n c p ps false h (ground arith)) v,
    λ ((on, a), g). not_true other ((eqb_ℤ_iff p.line n).1 on),
  )
]

-- The tokens of a line that has none before.
validate_placed-unset :
    (c : ℤ) (ps : List (TokenPosition × Bool))
    → HaveLines ps
    → (validate_placed unset c ps ≡ true) ↔ (OnOneLine ps × GrowsFrom c (columns ps))
unfolding validate_placed
validate_placed-unset c [] h = (λ _. (tt, tt), λ _. refl)
validate_placed-unset c ((p, true) ∷ ps) (h, _) =
    let ih = validate_placed-set p.line c ps h in
    let run = validate_blank unset c p ps (inr refl) in (λ v. ih.0 (sym run ∙ v), λ v. run ∙ ih.1 v)
validate_placed-unset c ((p, false) ∷ ps) (h, _) = elim (Bool-cases (ltb_ℤ c p.column)) [
  | inl less ↦
      let ih = validate_placed-set p.line p.column ps h in
      let run = validate_text unset c p ps (inr refl) less in
      (
        λ v. let (a, g) = ih.0 (sym run ∙ v) in (a, (ground arith, g)),
        λ (a, (_, g)). run ∙ ih.1 (a, g),
      )
  | inr low ↦ (
    λ v. not_true (validate_low unset c p ps (inr refl) low) v,
    λ (a, (q, g)). not_true low (ground arith),
  )
]

-- The line numbers that are not 0.
abbrev pub numbers : List Line → List ℤ
numbers [] = []
numbers (l ∷ ls) =
    let rest = numbers ls in if eqb_ℤ (line_number l) (pos 0) then rest else line_number l ∷ rest

-- The tokens of each line say that they stand on one line, and the columns of those that have a text
-- grow strictly from 1.
abbrev pub AllPlaced : List Line → Type 0
AllPlaced [] = Unit
AllPlaced (l ∷ ls) =
    (OnOneLine (placed l.segments) × GrowsFrom (pos 0) (columns (placed l.segments))) × AllPlaced ls

abbrev pub AllHaveLines : List Line → Type 0
AllHaveLines [] = Unit
AllHaveLines (l ∷ ls) = HaveLines (placed l.segments) × AllHaveLines ls

accepted-none : (o : Option ValidationError) → accepted o ≡ true → o ≡ none
accepted-none none h = refl
accepted-none (some e) h = cc

-- The tokens of one line in the outer loop.
validate_line_iff :
    (i : ℕ) (l : Line)
    → HaveLines (placed l.segments)
    → (validate_tokens i 0 unset (pos 0) l.segments ≡ none)
      ↔ (OnOneLine (placed l.segments) × GrowsFrom (pos 0) (columns (placed l.segments)))
validate_line_iff i l h =
    let same = validate_tokens-placed l.segments i 0 unset (pos 0) in
    let both = validate_placed-unset (pos 0) (placed l.segments) h in
    (
      λ e. both.0 (sym same ∙ ap accepted e),
      λ v. accepted-none (validate_tokens i 0 unset (pos 0) l.segments) (same ∙ both.1 v),
    )

-- The lines behind one whose number is `num`, or is left out.
validate_rest :
    (i : ℕ) (l : Line) (lower next : ℤ) (ls : List Line)
    → HaveLines (placed l.segments)
    → ((validate_lines (i + 1) next ls ≡ none) ↔ (GrowsFrom next (numbers ls) × AllPlaced ls))
    → (or_else (validate_tokens i 0 unset (pos 0) l.segments) (validate_lines (i + 1) next ls)
        ≡ none)
      ↔ (GrowsFrom next (numbers ls) × AllPlaced (l ∷ ls))
validate_rest i l lower next ls h ih =
    let line = validate_line_iff i l h in
    elim (Option-cases (validate_tokens i 0 unset (pos 0) l.segments)) [
      | inl e ↦ rw e (λ v. let (g, a) = ih.0 v in (g, (line.0 e, a)), λ (g, (_, a)). ih.1 (g, a))
      | inr (x, e) ↦ rw e (λ v. cc, λ (g, (m, a)). sym e ∙ line.1 m)
    ]

validate_lines_iff :
    (i : ℕ) (lower : ℤ) (ls : List Line)
    → AllHaveLines ls
    → (validate_lines i lower ls ≡ none) ↔ (GrowsFrom lower (numbers ls) × AllPlaced ls)
unfolding validate_lines
validate_lines_iff i lower [] h = (λ _. (tt, tt), λ _. refl)
validate_lines_iff i lower (l ∷ ls) (h, hs) = elim (Bool-cases (eqb_ℤ (line_number l) (pos 0))) [
  | inl zero_num ↦
      rw (validate_lines, zero_num)
        (validate_rest i l lower lower ls h (validate_lines_iff (i + 1) lower ls hs))
  | inr num ↦ elim (Bool-cases (ltb_ℤ lower (line_number l))) [
    | inl less ↦
        let rest =
          validate_rest i l lower (line_number l) ls h
            (validate_lines_iff (i + 1) (line_number l) ls hs) in
        rw (validate_lines, num, less)
          (λ v. let (g, a) = rest.0 v in ((ground arith, g), a), λ ((_, g), a). rest.1 (g, a))
    | inr low ↦ rw (validate_lines, num, low) (λ v. cc, λ ((q, g), a). not_true low (ground arith))
  ]
]

-- Where no token gives -1 as its line, Validate accepts exactly the lines whose numbers, leaving out
-- 0, are positive and grow strictly, and on each of which the tokens with a position give one line
-- number and, where they have a text, columns that are positive and grow strictly.
pub validate_iff :
    (ls : List Line)
    → AllHaveLines ls
    → (validate ls ≡ none) ↔ (GrowsFrom (pos 0) (numbers ls) × AllPlaced ls)
unfolding validate
validate_iff ls h = validate_lines_iff 0 (pos 0) ls h
