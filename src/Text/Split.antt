-- ===== src/Text/Split.antt =====
-- Splitting a text behind its newlines, and putting it together again.
use niceyaml.Prelude.{
  ℕ, ◌≡◌, refl, ap, ◌∙◌, true, false, List, [], ◌∷◌, ◌++◌, ◌==◌, if◌then◌else◌, Bool-cases, inl,
  inr, append_assoc,
}

abbrev pub concat {ℓ} : {A : Type ℓ} → List (List A) → List A
concat [] = []
concat (p ∷ ps) = p ++ concat ps

pub concat-append {ℓ} :
    {A : Type ℓ} (xs ys : List (List A)) → concat (xs ++ ys) ≡ concat xs ++ concat ys
concat-append [] ys = refl
concat-append (x ∷ xs) ys = rw (concat-append xs ys) (rw append_assoc refl)

abbrev pub attach : ℕ → List (List ℕ) → List (List ℕ)
attach c [] = (c ∷ []) ∷ []
attach c (p ∷ ps) = (c ∷ p) ∷ ps

-- `strings.SplitAfter(s, c)` without the empty parts.
unfoldable pub split_after : ℕ → List ℕ → List (List ℕ)
split_after c [] = []
split_after c (d ∷ s) =
    let rest = split_after c s in if d == c then (d ∷ []) ∷ rest else attach d rest

concat-attach : (c : ℕ) (ps : List (List ℕ)) → concat (attach c ps) ≡ c ∷ concat ps
concat-attach c [] = refl
concat-attach c (p ∷ ps) = refl

pub concat-split_after : (c : ℕ) (s : List ℕ) → concat (split_after c s) ≡ s
unfolding split_after
concat-split_after c [] = refl
concat-split_after c (d ∷ s) = elim (Bool-cases (d == c)) [
  | inl eq ↦ rw eq (ap (◌∷◌ d) (concat-split_after c s))
  | inr ne ↦ rw ne (concat-attach d (split_after c s) ∙ ap (◌∷◌ d) (concat-split_after c s))
]

pub split_after-cons :
    (c d : ℕ) (s : List ℕ)
    → (q : List ℕ) × (qs : List (List ℕ)) × (split_after c (d ∷ s) ≡ (d ∷ q) ∷ qs)
unfolding split_after
split_after-cons c d s = elim (Bool-cases (d == c)) [
  | inl eq ↦ ([], split_after c s, rw eq)
  | inr ne ↦ rw ne (first_part (split_after c s))
]
  where
    first_part :
        (ps : List (List ℕ)) → (q : List ℕ) × (qs : List (List ℕ)) × (attach d ps ≡ (d ∷ q) ∷ qs)
    first_part [] = ([], [], refl)
    first_part (p ∷ ps) = (p, ps, refl)

pub split_after-hit :
    (c d : ℕ) (s : List ℕ) → (d == c) ≡ true → split_after c (d ∷ s) ≡ (d ∷ []) ∷ split_after c s
unfolding split_after
split_after-hit c d s h = rw h

pub split_after-miss :
    (c d : ℕ) (s : List ℕ) → (d == c) ≡ false → split_after c (d ∷ s) ≡ attach d (split_after c s)
unfolding split_after
split_after-miss c d s h = rw h

pub split_after-nil : (c : ℕ) → split_after c [] ≡ []
unfolding split_after
split_after-nil c = refl
