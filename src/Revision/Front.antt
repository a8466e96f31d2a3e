-- ===== src/Revision/Front.antt =====
-- `Prepend` makes a chain of revisions from a chain.
use niceyaml.Prelude.{
  ℕ, zero, suc, ◌+◌, ◌≡◌, ◌≢◌, refl, sym, ap, ◌∙◌, true, List, [], ◌∷◌, ◌++◌, none, some,
  some_injective, ok, length, length-append, length-drop, get_elem?, get_elem?-append_left,
  get_elem?-drop, drop, lt→ltb, ltb, arith, subst,
}
use niceyaml.Revision.{Revision, prepend}
use niceyaml.Revision.History.{IsHistory, node_of, address_at, address_before}
use niceyaml.Revision.Growth.{
  relinked, relinked-length, relinked_self, relinked-new, relinked-other, entry_bound,
}

module _ {S : Type 0} where
  module _ (heap : List (Revision S)) (es : List (ℕ × S)) (h : IsHistory heap es) where
    module _ (i t : ℕ) (s₀ s : S) (e : get_elem? es i ≡ some (t, s₀)) where
      abbrev prepended : List (ℕ × S)
      prepended = (length heap, s) ∷ drop i es

      behind : (k : ℕ) → get_elem? prepended (suc k) ≡ get_elem? es (i + k)
      behind k = get_elem?-drop i es k

      abbrev fronted : List (Revision S)
      fronted =
          relinked heap (node_of none (some t) s) t
            (node_of (some (length heap)) (address_at es (suc i)) s₀)

      prepend-run : prepend heap t s ≡ ok (fronted, length heap)
      unfolding prepend
      prepend-run =
          let inside = entry_bound heap es h i t s₀ e in
          let more : List (Revision S) = heap ++ node_of none (some t) s ∷ [] in
          let node : get_elem? more t
              ≡ some (node_of (address_before es i) (address_at es (suc i)) s₀) =
            get_elem?-append_left heap (node_of none (some t) s ∷ []) t inside
            ∙ h.node_at i t s₀ e in
          let room : ltb t (length more) ≡ true =
            lt→ltb t (length more)
              (omega (arith, length-append heap (node_of none (some t) s ∷ []))) in
          rw (prepend, node, room) refl

      first_behind : get_elem? prepended 1 ≡ some (t, s₀)
      first_behind = let here : i + 0 ≡ i = omega arith in behind 0 ∙ rw here e

      prepended-node :
          (j a : ℕ) (s' : S)
          → get_elem? prepended j ≡ some (a, s')
          → get_elem? fronted a
            ≡ some (node_of (address_before prepended j) (address_at prepended (suc j)) s')
      prepended-node zero a s' f =
          subst (λ p. get_elem? fronted p.0 ≡ some (node_of none (address_at prepended 1) p.1))
            (some_injective f)
            (rw first_behind (relinked-new heap _ t _ (entry_bound heap es h i t s₀ e)))
      prepended-node (suc zero) a s' f =
          let next : i + 1 ≡ suc i = omega arith in
          subst
            (λ p.
              get_elem? fronted p.0
              ≡ some (node_of (some (length heap)) (address_at prepended 2) p.1))
            (some_injective (sym first_behind ∙ f))
            (rw (behind 1, next) (relinked_self heap _ t _ (entry_bound heap es h i t s₀ e)))
      prepended-node (suc (suc k)) a s' f =
          let f' : get_elem? es (i + suc k) ≡ some (a, s') = sym (behind (suc k)) ∙ f in
          let same : i + suc k ≡ suc (i + k) = omega arith in
          let next : i + suc (suc k) ≡ suc (suc (i + k)) = omega arith in
          let ne : t ≢ a = λ q.
            let loop = h.distinct i (i + suc k) a s₀ s' (e ∙ ap (λ v. some (v, s₀)) q) f' in
            omega arith in
          rw (behind k, behind (suc (suc k)), next)
            (relinked-other heap _ t _ (entry_bound heap es h i t s₀ e) a
                (entry_bound heap es h (i + suc k) a s' f') ne
              ∙ h.node_at (suc (i + k)) a s' (rw same at f'))

      new_apart :
          (k a : ℕ) (s' s'' : S)
          → get_elem? prepended 0 ≡ some (a, s')
          → get_elem? prepended (suc k) ≡ some (a, s'')
          → ⊥
      new_apart k a s' s'' f g =
          let new : length heap ≡ a = ap (λ r. r.0) (some_injective f) in
          let old = entry_bound heap es h (i + k) a s'' (sym (behind k) ∙ g) in omega arith

      prepended-distinct :
          (j k a : ℕ) (s' s'' : S)
          → get_elem? prepended j ≡ some (a, s')
          → get_elem? prepended k ≡ some (a, s'')
          → j ≡ k
      prepended-distinct zero zero a s' s'' f g = refl
      prepended-distinct zero (suc k) a s' s'' f g = absurd (new_apart k a s' s'' f g)
      prepended-distinct (suc j) zero a s' s'' f g = absurd (new_apart j a s'' s' g f)
      prepended-distinct (suc j) (suc k) a s' s'' f g =
          let same =
            h.distinct (i + j) (i + k) a s' s'' (sym (behind j) ∙ f) (sym (behind k) ∙ g) in
          omega arith

  -- Prepend to a revision of a chain returns and makes a chain of the new revision, which it
  -- returns, and of that one and those behind it; what came before is no longer in the chain.
  pub prepend-IsHistory :
      (heap : List (Revision S)) (es : List (ℕ × S)) (i t : ℕ) (s₀ s : S)
      → IsHistory heap es
      → get_elem? es i ≡ some (t, s₀)
      → (heap' : List (Revision S)) × (prepend heap t s ≡ ok (heap', length heap))
        × IsHistory heap' ((length heap, s) ∷ drop i es)
  prepend-IsHistory heap es i t s₀ s h e = (
    fronted heap es h i t s₀ s e,
    prepend-run heap es h i t s₀ s e,
    record {
      node_at = prepended-node heap es h i t s₀ s e;
      distinct = prepended-distinct heap es h i t s₀ s e;
      fits = omega (
        arith,
        length-drop i es,
        relinked-length heap (node_of none (some t) s) t
            (node_of (some (length heap)) (address_at es (suc i)) s₀)
            (entry_bound heap es h i t s₀ e),
        h.fits,
      );
    },
  )
