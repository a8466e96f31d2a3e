-- ===== src/Text.antt =====
-- What the sources use of Go's strings: byte strings, and the runes of UTF-8 in them.
pub mod Split
use niceyaml.Prelude.{
  ℕ, zero, suc, ◌+◌, ◌-◌, Bool, true, false, not, ◌&&◌, ◌||◌, List, [], ◌∷◌, ◌++◌, length, leb, ltb,
  ◌==◌, if◌then◌else◌, Eq, ◌≡◌, ◌↔◌, arith, refl,
}

-- A Go string: its bytes.
abbrev pub Text : Type 0
Text = List ℕ

abbrev pub newline : ℕ
newline = 10

abbrev pub carriage_return : ℕ
carriage_return = 13

abbrev pub space : ℕ
space = 32

abbrev pub tab : ℕ
tab = 9

-- `==` on strings.
abbrev pub text_beq : Text → Text → Bool
text_beq [] [] = true
text_beq [] (d ∷ t) = false
text_beq (c ∷ s) [] = false
text_beq (c ∷ s) (d ∷ t) = c == d && text_beq s t

pub text_beq_iff : (s t : Text) → (text_beq s t ≡ true) ↔ (s ≡ t)
text_beq_iff [] [] = (λ _. refl, λ _. refl)
text_beq_iff [] (d ∷ t) = (λ h. cc, λ h. cc)
text_beq_iff (c ∷ s) [] = (λ h. cc, λ h. cc)
text_beq_iff (c ∷ s) (d ∷ t) =
    (λ h. ground (arith, (text_beq_iff s t).0), λ h. ground (arith, (text_beq_iff s t).1))

instance abbrev pub text_eq : Eq Text
text_eq = record { beq = text_beq; beq_iff = text_beq_iff }

-- `strings.HasSuffix(s, c)`, for one byte.
abbrev pub ends_with : ℕ → Text → Bool
ends_with c [] = false
ends_with c (d ∷ []) = d == c
ends_with c (d ∷ d' ∷ s) = ends_with c (d' ∷ s)

-- `strings.TrimSuffix(s, c)`, for one byte.
abbrev pub trim_suffix : ℕ → Text → Text
trim_suffix c [] = []
trim_suffix c (d ∷ []) = if d == c then [] else d ∷ []
trim_suffix c (d ∷ d' ∷ s) = d ∷ trim_suffix c (d' ∷ s)

-- `strings.Count(s, c)`, for one byte.
abbrev pub count : ℕ → Text → ℕ
count c [] = 0
count c (d ∷ s) = if d == c then suc (count c s) else count c s

-- `len(s) - len(strings.TrimLeft(s, " "))`.
abbrev pub leading : ℕ → Text → ℕ
leading c [] = 0
leading c (d ∷ s) = if d == c then suc (leading c s) else 0

abbrev pub continuation : ℕ → Bool
continuation b = leb 0x80 b && leb b 0xBF

abbrev pub within : ℕ → ℕ → ℕ → Bool
within lo hi b = leb lo b && leb b hi

-- How many bytes a sequence of three or four takes, by its second byte's range.
abbrev pub sequence3 : ℕ → ℕ → Text → ℕ
sequence3 lo hi (b₁ ∷ b₂ ∷ _) = if within lo hi b₁ && continuation b₂ then 3 else 1
sequence3 lo hi _ = 1

abbrev pub sequence4 : ℕ → ℕ → Text → ℕ
sequence4 lo hi (b₁ ∷ b₂ ∷ b₃ ∷ _) =
    if within lo hi b₁ && continuation b₂ && continuation b₃ then 4 else 1
sequence4 lo hi _ = 1

abbrev pub sequence2 : Text → ℕ
sequence2 (b₁ ∷ _) = if continuation b₁ then 2 else 1
sequence2 [] = 1

-- The size that `utf8.DecodeRuneInString` gives for `b ∷ s`: a byte that begins no valid sequence
-- counts for itself.
unfoldable pub rune_size : ℕ → Text → ℕ
rune_size b s =
    if ltb b 0x80
    then 1
    else if within 0xC2 0xDF b
    then sequence2 s
    else if b == 0xE0
    then sequence3 0xA0 0xBF s
    else if b == 0xED
    then sequence3 0x80 0x9F s
    else if within 0xE1 0xEF b
    then sequence3 0x80 0xBF s
    else if b == 0xF0
    then sequence4 0x90 0xBF s
    else if within 0xF1 0xF3 b
    then sequence4 0x80 0xBF s
    else if b == 0xF4
    then sequence4 0x80 0x8F s
    else 1

-- `skip` bytes of the rune before are still to pass.
unfoldable pub rune_count_from : ℕ → Text → ℕ
unfolding rune_size
rune_count_from skip [] = 0
rune_count_from zero (b ∷ s) = suc (rune_count_from (rune_size b s - 1) s)
rune_count_from (suc skip) (b ∷ s) = rune_count_from skip s

-- `utf8.RuneCountInString`.
unfoldable pub rune_count : Text → ℕ
unfolding rune_count_from
rune_count s = rune_count_from 0 s
