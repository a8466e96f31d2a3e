-- ===== src/Position/Unique.antt =====
-- `Ranges.UniqueValues`: no value twice, none lost, none new.
use niceyaml.Prelude.{
  ◌≡◌, inl, inr, refl, sym, ap, ◌∙◌, Bool, true, false, ◌||◌, List, [], ◌∷◌, ◌++◌, Bool-cases, Eq,
  ◌=?◌, arith,
}
use niceyaml.Position.{member, unique_loop, unique_values}

or_assoc : (a b c : Bool) → (a || b) || c ≡ a || (b || c)
or_assoc a b c = ground arith

or_false : (a : Bool) → a || false ≡ a
or_false a = ground arith

or_snoc : (x m m' : Bool) → m ≡ m' → x || m ≡ m' || (x || false)
or_snoc x m m' h = ground arith

or_split : (x m t : Bool) → (m || (x || false)) || t ≡ m || (x || t)
or_split x m t = ground arith

or_known : (x m t : Bool) → (x ≡ true → m ≡ true) → m || t ≡ m || (x || t)
or_known x m t h = ground arith

or_none : (x m : Bool) → (x || m) ≡ false → (x ≡ false) × (m ≡ false)
or_none x m h = ground arith

none_or : (x m : Bool) → x ≡ false → m ≡ false → (m || (x || false)) ≡ false
none_or x m h k = ground arith

module _ {ℓ} {A : Type ℓ} ⦃e : Eq A⦄ where
  -- No value stands twice.
  abbrev pub IsUnique : List A → Type 0
  IsUnique [] = Unit
  IsUnique (x ∷ xs) = (member x xs ≡ false) × IsUnique xs

  member-append : (a : A) (xs ys : List A) → member a (xs ++ ys) ≡ member a xs || member a ys
  member-append a [] ys = refl
  member-append a (x ∷ xs) ys =
      ap (λ b. (a =? x) || b) (member-append a xs ys)
      ∙ sym (or_assoc (a =? x) (member a xs) (member a ys))

  member_same : (a r : A) (xs : List A) → member r xs ≡ true → (a =? r) ≡ true → member a xs ≡ true
  member_same a r xs h k = ap (λ x. member x xs) ((e.beq_iff a r).0 k) ∙ h

  beq_false : (x y : A) → (x =? y) ≡ false → (y =? x) ≡ false
  beq_false x y h = elim (Bool-cases (y =? x)) [
    | inl same ↦
        absurd (let back : (x =? y) ≡ true = (e.beq_iff x y).1 (sym ((e.beq_iff y x).0 same)) in cc)
    | inr other ↦ other
  ]

  IsUnique-append :
      (xs : List A) (x : A) → IsUnique xs → member x xs ≡ false → IsUnique (xs ++ x ∷ [])
  IsUnique-append [] x u h = (refl, tt)
  IsUnique-append (y ∷ xs) x (p, u) h =
      let (ne, m) = or_none (x =? y) (member x xs) h in
      (
        member-append y xs (x ∷ []) ∙ none_or (y =? x) (member y xs) (beq_false x y ne) p,
        IsUnique-append xs x u m,
      )

  append-same :
      (r : A) (seen result : List A)
      → ((a : A) → member a seen ≡ member a result)
      → (a : A) → member a (r ∷ seen) ≡ member a (result ++ r ∷ [])
  append-same r seen result same a =
      or_snoc (a =? r) (member a seen) (member a result) (same a)
      ∙ sym (member-append a result (r ∷ []))

  unique_loop-member :
      (rs seen result : List A)
      → ((a : A) → member a seen ≡ member a result)
      → (a : A) → member a (unique_loop rs seen result) ≡ member a result || member a rs
  unfolding unique_loop
  unique_loop-member [] seen result same a = sym (or_false (member a result))
  unique_loop-member (r ∷ rs) seen result same a = elim (Bool-cases (member r seen)) [
    | inl old ↦
        rw (unique_loop, old)
          (unique_loop-member rs seen result same a
            ∙ or_known (a =? r) (member a result) (member a rs)
                (member_same a r result (sym (same r) ∙ old)))
    | inr new ↦
        rw (unique_loop, new)
          (unique_loop-member rs (r ∷ seen) (result ++ r ∷ []) (append-same r seen result same) a
            ∙ ap (λ b. b || member a rs) (member-append a result (r ∷ []))
            ∙ or_split (a =? r) (member a result) (member a rs))
  ]

  unique_loop-IsUnique :
      (rs seen result : List A)
      → ((a : A) → member a seen ≡ member a result)
      → IsUnique result
      → IsUnique (unique_loop rs seen result)
  unfolding unique_loop
  unique_loop-IsUnique [] seen result same u = u
  unique_loop-IsUnique (r ∷ rs) seen result same u = elim (Bool-cases (member r seen)) [
    | inl old ↦ rw (unique_loop, old) (unique_loop-IsUnique rs seen result same u)
    | inr new ↦
        rw (unique_loop, new)
          (unique_loop-IsUnique rs (r ∷ seen) (result ++ r ∷ []) (append-same r seen result same)
            (IsUnique-append result r u (sym (same r) ∙ new)))
  ]

  -- UniqueValues returns the values that the ranges hold, each once.
  pub unique_values-member :
      (rs : List A)
      → IsUnique (unique_values rs) × ((a : A) → member a (unique_values rs) ≡ member a rs)
  unfolding unique_values
  unique_values-member rs =
      (unique_loop-IsUnique rs [] [] (λ a. refl) tt, unique_loop-member rs [] [] (λ a. refl))
