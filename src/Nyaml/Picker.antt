-- ===== src/Nyaml/Picker.antt =====
-- The overlay of the picker: its items and the selected one among them.
use niceyaml.Prelude.{
  ℕ, zero, suc, ◌+◌, ◌-◌, ◌/◌, ◌%◌, ◌≤◌, ◌<◌, ◌≡◌, refl, sym, ap, ◌∙◌, subst, Bool, true, false,
  List, [], ◌∷◌, some, length, get_elem?, get_elem?_bound, get_elem?-drop, drop, min, max, arith,
  Bool-cases, inl, inr, if◌then◌else◌,
}
use niceyaml.Prelude.Int.{
  sub_pos, pos, pos_part, half_range, eqb_ℤ, eqb_ℤ_iff, min_ℤ, min_ℤ-pos, max_ℤ, add64, add64-pos,
  sub64, sub64-pos, sub_ℕ,
}
use niceyaml.Text.{Text}
use niceyaml.Viewport.{Env, half}
use niceyaml.Viewport.Revisions.{rem}
use niceyaml.Nyaml.{
  visible_items, scroll_offset, cut_name, theme_item, theme_items_from, theme_items,
}
use niceyaml.Nyaml.State.{NyamlModel, quarter}

-- The number of items that the overlay has room for.
abbrev pub room : ℕ → ℕ
room height =
    let items = max 10 (height / 2 / 2) - 4 in
    if eqb_ℤ (pos (items % 2)) (pos 0) then items + 1 else items

max_ℤ-pos : (a b : ℕ) → max_ℤ (pos a) (pos b) ≡ pos (max a b)
max_ℤ-pos a b = ground arith

max_zero-sub : (a b : ℕ) → max_ℤ (pos 0) (sub_ℕ a b) ≡ pos (a - b)
max_zero-sub a b = ground arith

room_bounds : (height : ℕ) → (6 ≤ room height) × (room height ≤ height + 7)
room_bounds height = elim (Bool-cases (eqb_ℤ (pos ((max 10 (height / 2 / 2) - 4) % 2)) (pos 0))) [
  | inl even ↦ (rw even (ground arith), rw even (ground arith))
  | inr odd ↦ (rw odd (ground arith), rw odd (ground arith))
]

-- Where the list is scrolled to, of `n` names with `v` visible and the one at `i` selected.
abbrev pub offset_of : ℕ → ℕ → ℕ → ℕ
offset_of n v i = min (n - v) (i - v / 2)

offset_of-shows : (n v i : ℕ) → i < n → 0 < v → (offset_of n v i ≤ i) × (i - offset_of n v i < v)
offset_of-shows n v i less some_room = (ground arith, ground arith)

module _ {E : Env} where
  visible_items-room :
      (m : NyamlModel E) (height : ℕ)
      → m.height ≡ pos height
      → height < half_range
      → visible_items m ≡ pos (room height)
  unfolding visible_items
  visible_items-room m height e small =
      let big = max 10 (height / 2 / 2) in
      let items : sub64 (max_ℤ (pos 10) (quarter m.height)) (pos 4) ≡ pos (big - 4) =
        ap (λ z. sub64 (max_ℤ (pos 10) (quarter z)) (pos 4)) e
        ∙ ap (λ z. sub64 z (pos 4)) (max_ℤ-pos 10 (height / 2 / 2))
        ∙ sub64-pos big 4 (omega arith) (omega arith)
        ∙ sub_pos big 4 (omega arith) in
      ap (λ z. if eqb_ℤ (rem z 2) (pos 0) then add64 z (pos 1) else z) items
      ∙ ap (λ z. if eqb_ℤ (pos ((big - 4) % 2)) (pos 0) then z else pos (big - 4))
          (add64-pos (big - 4) 1 (omega arith))
      ∙ pos_if (eqb_ℤ (pos ((big - 4) % 2)) (pos 0)) (big - 4 + 1) (big - 4)
    where
      pos_if : (b : Bool) (x y : ℕ) → (if b then pos x else pos y) ≡ pos (if b then x else y)
      pos_if true x y = refl
      pos_if false x y = refl

  scroll_offset-offset :
      (m : NyamlModel E) (v i : ℕ)
      → visible_items m ≡ pos v
      → m.theme_index ≡ pos i
      → v < half_range
      → i < half_range
      → length m.theme_list < half_range
      → scroll_offset m ≡ pos (offset_of (length m.theme_list) v i)
  unfolding scroll_offset
  scroll_offset-offset m v i shown selected few near small =
      let n = length m.theme_list in
      ap
        (λ z.
          min_ℤ (max_ℤ (pos 0) (sub64 (pos n) z)) (max_ℤ (pos 0) (sub64 m.theme_index (half z))))
        shown
      ∙ ap
          (λ z.
            min_ℤ (max_ℤ (pos 0) (sub64 (pos n) (pos v))) (max_ℤ (pos 0) (sub64 z (pos (v / 2)))))
          selected
      ∙ ap (λ z. min_ℤ (max_ℤ (pos 0) z) (max_ℤ (pos 0) (sub64 (pos i) (pos (v / 2)))))
          (sub64-pos n v small few)
      ∙ ap (λ z. min_ℤ (max_ℤ (pos 0) (sub_ℕ n v)) (max_ℤ (pos 0) z))
          (sub64-pos i (v / 2) near (omega arith))
      ∙ ap (λ z. min_ℤ z (max_ℤ (pos 0) (sub_ℕ i (v / 2)))) (max_zero-sub n v)
      ∙ ap (min_ℤ (pos (n - v))) (max_zero-sub i (v / 2))
      ∙ min_ℤ-pos (n - v) (i - v / 2)

  theme_items_from-length :
      (m : NyamlModel E) (v i : ℕ) (names : List Text) → length (theme_items_from m v i names) ≤ v
  unfolding theme_items_from
  theme_items_from-length m zero i names = omega arith
  theme_items_from-length m (suc v) i [] = omega arith
  theme_items_from-length m (suc v) i (name ∷ names) =
      omega (arith, theme_items_from-length m v (i + 1) names)

  theme_items_from-get :
      (m : NyamlModel E) (v i : ℕ) (names : List Text) (k : ℕ) (name : Text)
      → k < v
      → get_elem? names k ≡ some name
      → get_elem? (theme_items_from m v i names) k ≡ some (theme_item m (i + k) name)
  unfolding theme_items_from
  theme_items_from-get m zero i names k name less h = elim less [ ]
  theme_items_from-get m (suc v) i [] k name less h = cc
  theme_items_from-get m (suc v) i (x ∷ names) zero name less h =
      let same : x ≡ name = cc in
      ap (λ t. some (theme_item m i t)) same ∙ ap (λ j. some (theme_item m j name)) (omega arith)
  theme_items_from-get m (suc v) i (x ∷ names) (suc k) name less h =
      theme_items_from-get m v (i + 1) names k name (omega arith) h
      ∙ ap (λ j. some (theme_item m j name)) (omega arith)

  theme_item-selected :
      (m : NyamlModel E) (i : ℕ) (name : Text)
      → m.theme_index ≡ pos i
      → theme_item m i name ≡ 62 ∷ 32 ∷ cut_name m name
  unfolding theme_item
  theme_item-selected m i name e =
      let here : eqb_ℤ (pos i) m.theme_index ≡ true = (eqb_ℤ_iff (pos i) m.theme_index).1 (sym e) in
      rw here refl

  -- The overlay of the picker has no more items than it has room for, and among them is that of the
  -- selected theme, with the mark in front of its name; where the height of the program is not
  -- negative, the index is that of a theme, and the height and 7 and the number of themes are below
  -- 2 ^ 63.
  pub theme_items-selected :
      (m : NyamlModel E) (height i : ℕ) (name : Text)
      → m.height ≡ pos height
      → height + 7 < half_range
      → m.theme_index ≡ pos i
      → get_elem? m.theme_list i ≡ some name
      → length m.theme_list < half_range
      → (length (theme_items m) ≤ room height)
        × (k : ℕ) × (get_elem? (theme_items m) k ≡ some (62 ∷ 32 ∷ cut_name m name))
  unfolding theme_items
  theme_items-selected m height i name tall high selected listed few =
      let v = room height in
      let (six, little) = room_bounds height in
      let less = get_elem?_bound m.theme_list i listed in
      let items = visible_items-room m height tall (omega arith) in
      let o = offset_of (length m.theme_list) v i in
      let (before, shown) = offset_of-shows (length m.theme_list) v i less (omega arith) in
      let scrolled = scroll_offset-offset m v i items selected (omega arith) (omega arith) few in
      let same : theme_items m ≡ theme_items_from m v o (drop o m.theme_list) =
        ap
          (λ z.
            theme_items_from m (pos_part z) (pos_part (scroll_offset m))
              (drop (pos_part (scroll_offset m)) m.theme_list))
          items
        ∙ ap (λ z. theme_items_from m v (pos_part z) (drop (pos_part z) m.theme_list)) scrolled in
      let back : o + (i - o) ≡ i = omega arith in
      let there : get_elem? (drop o m.theme_list) (i - o) ≡ some name =
        get_elem?-drop o m.theme_list (i - o) ∙ ap (get_elem? m.theme_list) back ∙ listed in
      (
        subst (λ ls. length ls ≤ v) (sym same)
            (theme_items_from-length m v o (drop o m.theme_list)),
        i - o,
        ap (λ ls. get_elem? ls (i - o)) same
            ∙ theme_items_from-get m v o (drop o m.theme_list) (i - o) name shown there
            ∙ ap (λ j. some (theme_item m j name)) back
            ∙ ap some (theme_item-selected m i name selected),
      )
