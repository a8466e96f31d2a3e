-- ===== src/Examples/Revisions.antt =====
-- Two revisions in a heap.
use niceyaml.Prelude.{ℕ, ◌≡◌, refl, List, [], ◌∷◌, some, ok, arith, nat_eq}
use niceyaml.Prelude.Int.{pos}
use niceyaml.Text.{Text, text_eq}
use niceyaml.Prelude.{suc, none, zero, some_injective, get_elem?, sym, ap, ◌∙◌, subst}
use niceyaml.Revision.{Revision, names, index, chain_len, seek, append, prepend}
use niceyaml.Revision.History.{IsHistory, node_of, address_at, address_before}
use niceyaml.Revision.Walks.{names-chain, seek-chain}
use niceyaml.Revision.Growth.{append-IsHistory}
use niceyaml.Revision.Front.{prepend-IsHistory}

-- Two revisions, at the addresses 0 and 1, with their names as sources.
abbrev two_revisions : List (Revision Text)
two_revisions =
    record { prev = none; next = some 1; head = 97 ∷ [] }
    ∷ record { prev = some 0; next = none; head = 98 ∷ [] }
    ∷ []

abbrev two_entries : List (ℕ × Text)
two_entries = (0, 97 ∷ []) ∷ (1, 98 ∷ []) ∷ []

two_entries-node :
    (i a : ℕ) (s : Text)
    → get_elem? two_entries i ≡ some (a, s)
    → get_elem? two_revisions a
      ≡ some (node_of (address_before two_entries i) (address_at two_entries (suc i)) s)
two_entries-node zero a s e =
    subst (λ p. get_elem? two_revisions p.0 ≡ some (node_of none (some 1) p.1)) (some_injective e)
      refl
two_entries-node (suc zero) a s e =
    subst (λ p. get_elem? two_revisions p.0 ≡ some (node_of (some 0) none p.1)) (some_injective e)
      refl
two_entries-node (suc (suc i)) a s e = cc

two_entries-address : (i a : ℕ) (s : Text) → get_elem? two_entries i ≡ some (a, s) → i ≡ a
two_entries-address zero a s e = ap (λ p. p.0) (some_injective e)
two_entries-address (suc zero) a s e = ap (λ p. p.0) (some_injective e)
two_entries-address (suc (suc i)) a s e = cc

two_revisions-IsHistory : IsHistory two_revisions two_entries
two_revisions-IsHistory = record {
  node_at = two_entries-node;
  distinct = λ i j a s t e f. two_entries-address i a s e ∙ sym (two_entries-address j a t f);
  fits = omega arith;
}

names-chain_example :
    (names (λ s. s) two_revisions 1 ≡ ok ((97 ∷ []) ∷ (98 ∷ []) ∷ []))
    × (index two_revisions 1 ≡ ok 1)
    × (chain_len two_revisions 1 ≡ ok 2)
names-chain_example =
    names-chain two_revisions two_entries two_revisions-IsHistory (λ s. s) 1 1 (98 ∷ []) refl

seek-chain_example :
    (b : ℕ) × (seek two_revisions 0 (pos 5) ≡ ok b) × (address_at two_entries 1 ≡ some b)
seek-chain_example =
    seek-chain two_revisions two_entries two_revisions-IsHistory 0 0 (97 ∷ []) (pos 5) refl

append-IsHistory_example :
    (heap' : List (Revision Text)) × (append two_revisions 0 (99 ∷ []) ≡ ok (heap', 2))
    × IsHistory heap' ((0, 97 ∷ []) ∷ (2, 99 ∷ []) ∷ [])
append-IsHistory_example =
    append-IsHistory two_revisions two_entries 0 0 (97 ∷ []) (99 ∷ []) two_revisions-IsHistory refl

prepend-IsHistory_example :
    (heap' : List (Revision Text)) × (prepend two_revisions 1 (99 ∷ []) ≡ ok (heap', 2))
    × IsHistory heap' ((2, 99 ∷ []) ∷ (1, 98 ∷ []) ∷ [])
prepend-IsHistory_example =
    prepend-IsHistory two_revisions two_entries 1 1 (98 ∷ []) (99 ∷ []) two_revisions-IsHistory refl
