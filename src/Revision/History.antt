-- ===== src/Revision/History.antt =====
-- What a chain of revisions stands for: the list of its revisions, from the origin to the tip.
use niceyaml.Prelude.{ℕ, zero, suc, ◌≤◌, ◌≡◌, List, Option, none, some, length, get_elem?}
use niceyaml.Revision.{Revision}

module _ {S : Type 0} where
  abbrev pub node_of : Option ℕ → Option ℕ → S → Revision S
  node_of prev next head = record { prev = prev; next = next; head = head }

  abbrev pub address : Option (ℕ × S) → Option ℕ
  address none = none
  address (some (a, _)) = some a

  abbrev pub address_at : List (ℕ × S) → ℕ → Option ℕ
  address_at es i = address (get_elem? es i)

  abbrev pub address_before : List (ℕ × S) → ℕ → Option ℕ
  address_before es zero = none
  address_before es (suc i) = address_at es i

  -- The heap holds the entries, each an address with its source, linked both ways in order.
  pub record IsHistory (heap : List (Revision S)) (es : List (ℕ × S)) : Type 0 where
    pub node_at :
        (i a : ℕ) (s : S)
        → get_elem? es i ≡ some (a, s)
        → get_elem? heap a ≡ some (node_of (address_before es i) (address_at es (suc i)) s)
    pub distinct :
        (i j a : ℕ) (s t : S) → get_elem? es i ≡ some (a, s) → get_elem? es j ≡ some (a, t) → i ≡ j
    pub fits : length es ≤ length heap
