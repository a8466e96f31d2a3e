-- ===== src/Revision/Growth.antt =====
-- `NewRevision`, `Append` and `Prepend` make chains of revisions from chains.
use native.Mathlib.Nat.{le_refl}
use niceyaml.Prelude.{
  ℕ, zero, suc, ◌≤◌, ◌<◌, ◌≡◌, ◌≢◌, refl, sym, ap, ◌∙◌, List, [], ◌∷◌, ◌++◌, none, some,
  some_injective, ok, true, length, length-append, length-take, length-set, get_elem?,
  get_elem?-append_left, get_elem?-take, get_elem?-snoc, get_elem?_end, get_elem?_bound,
  get_elem?-set_self, get_elem?-set_ne, set, take, lt→ltb, ltb, arith, dec_lt, ℕ_discrete, subst,
}
use niceyaml.Revision.{Revision, new_revision, append}
use niceyaml.Revision.History.{IsHistory, node_of, address, address_at, address_before}

module _ {S : Type 0} where
  -- `xs[a]` is replaced in a list with one more element.
  abbrev pub relinked : List (Revision S) → Revision S → ℕ → Revision S → List (Revision S)
  relinked heap new t node = set (heap ++ new ∷ []) t node

  module _ (heap : List (Revision S)) (new : Revision S) (t : ℕ) (node : Revision S)
      (h : t < length heap) where
    pub relinked-length : length (relinked heap new t node) ≡ suc (length heap)
    relinked-length =
        length-set (heap ++ new ∷ []) t node ∙ length-append heap (new ∷ []) ∙ omega arith

    pub relinked_self : get_elem? (relinked heap new t node) t ≡ some node
    relinked_self =
        get_elem?-set_self (heap ++ new ∷ []) t node (omega (arith, length-append heap (new ∷ [])))

    pub relinked-new : get_elem? (relinked heap new t node) (length heap) ≡ some new
    relinked-new =
        get_elem?-set_ne (heap ++ new ∷ []) node (λ e. omega arith) ∙ get_elem?-snoc heap new

    pub relinked-other :
        (a : ℕ)
        → a < length heap
        → t ≢ a
        → get_elem? (relinked heap new t node) a ≡ get_elem? heap a
    relinked-other a p ne =
        get_elem?-set_ne (heap ++ new ∷ []) node ne ∙ get_elem?-append_left heap (new ∷ []) a p

  module _ (heap : List (Revision S)) (es : List (ℕ × S)) (h : IsHistory heap es) where
    pub entry_bound : (i a : ℕ) (s : S) → get_elem? es i ≡ some (a, s) → a < length heap
    entry_bound i a s e = get_elem?_bound heap a (h.node_at i a s e)

    module _ (i t : ℕ) (s₀ s : S) (e : get_elem? es i ≡ some (t, s₀)) where
      abbrev appended : List (ℕ × S)
      appended = take (suc i) es ++ (length heap, s) ∷ []

      front_length : length (take (suc i) es) ≡ suc i
      front_length = omega (arith, length-take (suc i) es, get_elem?_bound es i e)

      appended-front : (j : ℕ) → j ≤ i → get_elem? appended j ≡ get_elem? es j
      appended-front j p =
          get_elem?-append_left (take (suc i) es) ((length heap, s) ∷ []) j
            (omega (arith, front_length))
          ∙ get_elem?-take (suc i) es j (omega arith)

      appended-new : get_elem? appended (suc i) ≡ some (length heap, s)
      appended-new = rw front_length at (get_elem?-snoc (take (suc i) es) (length heap, s))

      appended-length : length appended ≡ suc (suc i)
      appended-length =
          omega (arith, length-append (take (suc i) es) ((length heap, s) ∷ []), front_length)

      appended-end : (j : ℕ) → suc i < j → get_elem? appended j ≡ none
      appended-end j p = get_elem?_end appended j (omega (arith, appended-length))

      abbrev grown : List (Revision S)
      grown =
          relinked heap (node_of (some t) none s) t
            (node_of (address_before es i) (some (length heap)) s₀)

      append-run : append heap t s ≡ ok (grown, length heap)
      unfolding append
      append-run =
          let inside = entry_bound i t s₀ e in
          let node : get_elem? (heap ++ node_of (some t) none s ∷ []) t
              ≡ some (node_of (address_before es i) (address_at es (suc i)) s₀) =
            get_elem?-append_left heap (node_of (some t) none s ∷ []) t inside
            ∙ h.node_at i t s₀ e in
          let room : ltb t (length (heap ++ node_of (some t) none s ∷ [])) ≡ true =
            lt→ltb t (length (heap ++ node_of (some t) none s ∷ []))
              (omega (arith, length-append heap (node_of (some t) none s ∷ []))) in
          rw (append, node, room) refl

      before_front : (j : ℕ) → j ≤ i → address_before appended j ≡ address_before es j
      before_front zero p = refl
      before_front (suc j) p = ap address (appended-front j (omega arith))

      apart : (j a : ℕ) (s' : S) → get_elem? es j ≡ some (a, s') → j ≢ i → t ≢ a
      apart j a s' f ne same = ne (sym (h.distinct i j a s₀ s' (e ∙ ap (λ v. some (v, s₀)) same) f))

      -- The nodes of the longer chain: the revision that is appended to, the new one, and the others.
      appended-node_old :
          (a : ℕ) (s' : S)
          → get_elem? appended i ≡ some (a, s')
          → get_elem? grown a
            ≡ some (node_of (address_before appended i) (address_at appended (suc i)) s')
      appended-node_old a s' f =
          subst
            (λ p.
              get_elem? grown p.0
              ≡ some (node_of (address_before appended i) (address_at appended (suc i)) p.1))
            (some_injective (sym e ∙ sym (appended-front i (le_refl i)) ∙ f))
            (rw (before_front i (le_refl i), appended-new)
              (relinked_self heap _ t _ (entry_bound i t s₀ e)))

      appended-node_new :
          (a : ℕ) (s' : S)
          → get_elem? appended (suc i) ≡ some (a, s')
          → get_elem? grown a
            ≡ some (node_of (address_at appended i) (address_at appended (suc (suc i))) s')
      appended-node_new a s' f =
          subst
            (λ p.
              get_elem? grown p.0
              ≡ some (node_of (address_at appended i) (address_at appended (suc (suc i))) p.1))
            (some_injective (sym appended-new ∙ f))
            (rw (appended-front i (le_refl i), e, appended-end (suc (suc i)) (omega arith))
              (relinked-new heap _ t _ (entry_bound i t s₀ e)))

      -- The node of an entry of the longer chain.
      appended-node :
          (j a : ℕ) (s' : S)
          → get_elem? appended j ≡ some (a, s')
          → get_elem? grown a
            ≡ some (node_of (address_before appended j) (address_at appended (suc j)) s')
      appended-node j a s' f = elim (dec_lt j i) [
        | yes less ↦
            let f' : get_elem? es j ≡ some (a, s') = sym (appended-front j (omega arith)) ∙ f in
            rw (before_front j (omega arith), appended-front (suc j) (omega arith))
              (relinked-other heap _ t _ (entry_bound i t s₀ e) a (entry_bound j a s' f')
                  (apart j a s' f' (λ q. omega arith))
                ∙ h.node_at j a s' f')
        | no more ↦ elim (ℕ_discrete j i) [
          | yes same ↦ rw same (appended-node_old a s' (rw same at f))
          | no ne ↦ elim (ℕ_discrete j (suc i)) [
            | yes next ↦ rw next (appended-node_new a s' (rw next at f))
            | no far ↦ absurd (let over = sym (appended-end j (omega arith)) ∙ f in cc)
          ]
        ]
      ]

      appended-inside :
          (j a : ℕ) (s' : S) → get_elem? appended j ≡ some (a, s') → j ≤ i → a < length heap
      appended-inside j a s' f p = entry_bound j a s' (sym (appended-front j p) ∙ f)

      appended-outside :
          (j a : ℕ) (s' : S)
          → get_elem? appended j ≡ some (a, s')
          → i < j
          → (j ≡ suc i) × (a ≡ length heap)
      appended-outside j a s' f p =
          let last : j ≡ suc i = omega (arith, get_elem?_bound appended j f, appended-length) in
          (last, sym (ap (λ r. r.0) (some_injective (sym appended-new ∙ rw last at f))))

      appended-distinct :
          (j k a : ℕ) (s' s'' : S)
          → get_elem? appended j ≡ some (a, s')
          → get_elem? appended k ≡ some (a, s'')
          → j ≡ k
      appended-distinct j k a s' s'' f g = elim (dec_lt i j) [
        | yes p ↦
            let (last, new) = appended-outside j a s' f p in
            elim (dec_lt i k) [
              | yes q ↦ let (last', _) = appended-outside k a s'' g q in last ∙ sym last'
              | no q ↦ absurd (omega (arith, appended-inside k a s'' g (omega arith)))
            ]
        | no p ↦ elim (dec_lt i k) [
          | yes q ↦
              let (_, new) = appended-outside k a s'' g q in
              absurd (omega (arith, appended-inside j a s' f (omega arith)))
          | no q ↦
              h.distinct j k a s' s'' (sym (appended-front j (omega arith)) ∙ f)
                (sym (appended-front k (omega arith)) ∙ g)
        ]
      ]

  -- Append to a revision of a chain returns and makes a chain of the revisions up to that one and of
  -- the new one, which it returns; what came behind is no longer in the chain.
  pub append-IsHistory :
      (heap : List (Revision S)) (es : List (ℕ × S)) (i t : ℕ) (s₀ s : S)
      → IsHistory heap es
      → get_elem? es i ≡ some (t, s₀)
      → (heap' : List (Revision S)) × (append heap t s ≡ ok (heap', length heap))
        × IsHistory heap' (take (suc i) es ++ (length heap, s) ∷ [])
  append-IsHistory heap es i t s₀ s h e = (
    grown heap es h i t s₀ s e,
    append-run heap es h i t s₀ s e,
    record {
      node_at = appended-node heap es h i t s₀ s e;
      distinct = appended-distinct heap es h i t s₀ s e;
      fits = omega (
        arith,
        appended-length heap es h i t s₀ s e,
        relinked-length heap (node_of (some t) none s) t
            (node_of (address_before es i) (some (length heap)) s₀)
            (entry_bound heap es h i t s₀ e),
        get_elem?_bound es i e,
        h.fits,
      );
    },
  )

  abbrev pub single : ℕ → S → List (ℕ × S)
  single a s = (a, s) ∷ []

  single-node :
      (heap : List (Revision S)) (s : S) (j a : ℕ) (s' : S)
      → get_elem? (single (length heap) s) j ≡ some (a, s')
      → get_elem? (heap ++ node_of none none s ∷ []) a
        ≡ some (
            node_of
              (address_before (single (length heap) s) j)
              (address_at (single (length heap) s) (suc j))
              s')
  single-node heap s zero a s' e =
      subst (λ p. get_elem? (heap ++ node_of none none s ∷ []) p.0 ≡ some (node_of none none p.1))
        (some_injective e) (get_elem?-snoc heap (node_of none none s))
  single-node heap s (suc j) a s' e = cc

  single-distinct :
      (a₀ : ℕ) (s : S) (j k a : ℕ) (s' s'' : S)
      → get_elem? (single a₀ s) j ≡ some (a, s')
      → get_elem? (single a₀ s) k ≡ some (a, s'')
      → j ≡ k
  single-distinct a₀ s zero zero a s' s'' e f = refl
  single-distinct a₀ s zero (suc k) a s' s'' e f = cc
  single-distinct a₀ s (suc j) k a s' s'' e f = cc

  -- NewRevision makes a chain of one revision, whatever the heap holds.
  pub new_revision-IsHistory :
      (heap : List (Revision S)) (s : S)
      → IsHistory ((new_revision heap s).0) (single ((new_revision heap s).1) s)
  unfolding new_revision
  new_revision-IsHistory heap s = record {
    node_at = single-node heap s;
    distinct = single-distinct (length heap) s;
    fits = omega (arith, length-append heap (node_of none none s ∷ []));
  }
