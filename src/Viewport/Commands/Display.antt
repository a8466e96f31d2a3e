-- ===== src/Viewport/Commands/Display.antt =====
-- The calls that change what is on display keep what holds of a viewport.
use niceyaml.Prelude.{
  ℕ, ◌≡◌, subst, not, ◌&&◌, Option, none, some, Outcome, ok, ◌>>=◌, at, of_option, inl, inr,
  if◌then◌else◌, bind_ok, ok_injective, if_cases,
}
use niceyaml.Prelude.Int.{ℤ, pos, eqb_ℤ, ltb_ℤ, sub64}
use niceyaml.Source.{Source}
use niceyaml.Viewport.{Env, Model, clamp_to, max_y_offset, goto_top, goto_bottom}
use niceyaml.Viewport.Render.{rerender}
use niceyaml.Viewport.Revisions.{
  update_printer_width, set_width, set_printer, toggle_word_wrap, extend, add_revision,
  clear_revisions, set_tokens, goto_revision, move_revision, seek_revision, is_nil,
}
use niceyaml.Revision.{new_revision, tip, append, chain_len, at_index, seek}
use niceyaml.Viewport.Commands.Invariant.{IsBounded, IsCoherent}
use niceyaml.Viewport.Commands.Rerender.{rerender-IsCoherent}
use niceyaml.Viewport.Commands.Scrolled.{
  wrapped-above, moved-IsConsistent, set_y_offset-IsCoherent, either,
}

module _ {E : Env} (b : IsBounded E) where
  pub update_printer_width-IsCoherent :
      (m m' : Model E) → IsCoherent m → update_printer_width m ≡ ok m' → IsCoherent m'
  unfolding update_printer_width
  update_printer_width-IsCoherent m m' w h =
      let (printer, run, e) = bind_ok (of_option m.printer) _ h in
      subst IsCoherent (ok_injective e) w

  pub set_width-IsCoherent :
      (m : Model E) (z : ℤ) (m' : Model E) → IsCoherent m → set_width m z ≡ ok m' → IsCoherent m'
  unfolding set_width
  set_width-IsCoherent m z m' w h = elim (if_cases (eqb_ℤ m.width z) h) [
    | inl same ↦ subst IsCoherent (ok_injective same) w
    | inr wide ↦
        let (m₁, run, h₁) = bind_ok (update_printer_width (record m { width = z })) _ wide in
        let w₁ = update_printer_width-IsCoherent (record m { width = z }) m₁ w run in
        elim (if_cases m₁.wrap_enabled h₁) [
          | inl wrapped ↦ rerender-IsCoherent b m₁ m' w₁ wrapped
          | inr plain ↦ subst IsCoherent (ok_injective plain) w₁
        ]
  ]

  pub set_printer-IsCoherent :
      (m : Model E) (p : Env.Printer E) (m' : Model E)
      → IsCoherent m
      → set_printer m p ≡ ok m'
      → IsCoherent m'
  unfolding set_printer
  set_printer-IsCoherent m p m' w h =
      let m₁ : Model E = record m { printer = some p } in
      let (m₂, run, h₁) = bind_ok (update_printer_width m₁) rerender h in
      rerender-IsCoherent b m₂ m' (update_printer_width-IsCoherent m₁ m₂ w run) h₁

  pub toggle_word_wrap-IsCoherent :
      (m m' : Model E) → IsCoherent m → toggle_word_wrap m ≡ ok m' → IsCoherent m'
  unfolding toggle_word_wrap
  toggle_word_wrap-IsCoherent m m' w h =
      let (printer, run, h₁) = bind_ok (of_option m.printer) _ h in
      let wrap = not m.wrap_enabled in
      let x = if wrap then pos 0 else m.x_offset in
      rerender-IsCoherent b
        (record m {
          wrap_enabled = wrap;
          printer = some (E.set_word_wrap printer wrap);
          x_offset = x;
        })
        m' (moved-IsConsistent m m.y_offset x w w.above (wrapped-above wrap m.x_offset w.beside)) h₁

  pub extend-IsCoherent :
      (m : Model E) (s : Source) (m' : Model E) → IsCoherent m → extend m s ≡ ok m' → IsCoherent m'
  unfolding extend
  extend-IsCoherent m s m' w h = extended m.revision h
    where
      extended :
          (o : Option ℕ)
          → (elim o as (λ _. Outcome (Model E)) [
            | none ↦
                let (heap, a) = new_revision m.heap s in
                ok (record m { heap = heap; revision = some a })
            | some a ↦ tip m.heap a >>= (λ last.
                append m.heap last s >>= (λ r. ok (record m { heap = r.0; revision = some r.1 })))
          ])
            ≡ ok m'
          → IsCoherent m'
      extended none h = subst IsCoherent (ok_injective h) w
      extended (some a) h =
          let (last, run, h₁) = bind_ok (tip m.heap a) _ h in
          let (r, run', e) = bind_ok (append m.heap last s) _ h₁ in
          subst IsCoherent (ok_injective e) w

  pub goto_bottom-IsCoherent : (m : Model E) → IsCoherent m → IsCoherent (goto_bottom m)
  unfolding goto_bottom
  goto_bottom-IsCoherent m w = set_y_offset-IsCoherent m (max_y_offset m) w

  pub goto_top-IsCoherent : (m : Model E) → IsCoherent m → IsCoherent (goto_top m)
  unfolding goto_top
  goto_top-IsCoherent m w = set_y_offset-IsCoherent m (pos 0) w

  pub add_revision-IsCoherent :
      (m : Model E) (s : Source) (m' : Model E)
      → IsCoherent m
      → add_revision m s ≡ ok m'
      → IsCoherent m'
  unfolding add_revision
  add_revision-IsCoherent m s m' w h =
      let (m₁, run, h₁) = bind_ok (extend m s) _ h in
      let (m₂, run', e) = bind_ok (rerender m₁) _ h₁ in
      let w₂ = rerender-IsCoherent b m₁ m₂ (extend-IsCoherent m s m₁ w run) run' in
      subst IsCoherent (ok_injective e) (
        either (ltb_ℤ (max_y_offset m₂) m₂.y_offset) (goto_bottom m₂) m₂
          (goto_bottom-IsCoherent m₂ w₂) w₂)

  pub clear_revisions-IsCoherent :
      (m m' : Model E) → IsCoherent m → clear_revisions m ≡ ok m' → IsCoherent m'
  unfolding clear_revisions
  clear_revisions-IsCoherent m m' w h = rerender-IsCoherent b (record m { revision = none }) m' w h

  pub set_tokens-IsCoherent :
      (m : Model E) (s : Source) (m' : Model E)
      → IsCoherent m
      → set_tokens m s ≡ ok m'
      → IsCoherent m'
  unfolding set_tokens
  set_tokens-IsCoherent m s m' w h =
      let (m₁, run, h₁) = bind_ok (clear_revisions m) (λ v. add_revision v s) h in
      add_revision-IsCoherent m₁ s m' (clear_revisions-IsCoherent m m₁ w run) h₁

  -- A revision is put on display, from its first line.
  pub visited-IsCoherent :
      (m : Model E) (c : ℕ) (m' : Model E)
      → IsCoherent m
      → (rerender (record m { revision = some c }) >>= (λ v. ok (goto_top v))) ≡ ok m'
      → IsCoherent m'
  visited-IsCoherent m c m' w h =
      let m₁ : Model E = record m { revision = some c } in
      let (m₂, run, e) = bind_ok (rerender m₁) _ h in
      subst IsCoherent (ok_injective e) (goto_top-IsCoherent m₂ (rerender-IsCoherent b m₁ m₂ w run))

  pub goto_revision-IsCoherent :
      (m : Model E) (i : ℤ) (m' : Model E)
      → IsCoherent m
      → goto_revision m i ≡ ok m'
      → IsCoherent m'
  unfolding goto_revision
  goto_revision-IsCoherent m i m' w h = visited m.revision h
    where
      visited :
          (o : Option ℕ)
          → (elim o as (λ _. Outcome (Model E)) [
            | none ↦ ok m
            | some a ↦ chain_len m.heap a >>= (λ count.
                at_index m.heap a (clamp_to i (pos 0) (sub64 (pos count) (pos 1)))
                >>= (λ c. rerender (record m { revision = some c }) >>= (λ v. ok (goto_top v))))
          ])
            ≡ ok m'
          → IsCoherent m'
      visited none h = subst IsCoherent (ok_injective h) w
      visited (some a) h =
          let (count, run, h₁) = bind_ok (chain_len m.heap a) _ h in
          let (c, run', h₂) =
            bind_ok (at_index m.heap a (clamp_to i (pos 0) (sub64 (pos count) (pos 1)))) _ h₁ in
          visited-IsCoherent m c m' w h₂

  pub move_revision-IsCoherent :
      (m : Model E) (a : ℕ) (delta : ℤ) (m' : Model E)
      → IsCoherent m
      → move_revision m a delta ≡ ok m'
      → IsCoherent m'
  unfolding move_revision
  move_revision-IsCoherent m a delta m' w h =
      let (c, run, h₁) = bind_ok (seek m.heap a delta) _ h in visited-IsCoherent m c m' w h₁

  pub seek_revision-IsCoherent :
      (m : Model E) (delta : ℤ) (m' : Model E)
      → IsCoherent m
      → seek_revision m delta ≡ ok m'
      → IsCoherent m'
  unfolding seek_revision
  seek_revision-IsCoherent m delta m' w h = sought m.revision h
    where
      sought :
          (o : Option ℕ)
          → (elim o as (λ _. Outcome (Model E)) [
            | none ↦ ok m
            | some a ↦ at m.heap a >>= (λ node.
                if ltb_ℤ (pos 0) delta && is_nil node.next
                then ok m
                else if ltb_ℤ delta (pos 0) && is_nil node.prev
                then ok m
                else move_revision m a delta)
          ])
            ≡ ok m'
          → IsCoherent m'
      sought none h = subst IsCoherent (ok_injective h) w
      sought (some a) h =
          let (node, run, h₁) = bind_ok (at m.heap a) _ h in
          elim (if_cases (ltb_ℤ (pos 0) delta && is_nil node.next) h₁) [
            | inl stays ↦ subst IsCoherent (ok_injective stays) w
            | inr h₂ ↦ elim (if_cases (ltb_ℤ delta (pos 0) && is_nil node.prev) h₂) [
              | inl stays ↦ subst IsCoherent (ok_injective stays) w
              | inr moves ↦ move_revision-IsCoherent m a delta m' w moves
            ]
          ]
