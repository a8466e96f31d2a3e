-- ===== src/Finder/Occurrences.antt =====
-- The matches of `Find` are the occurrences of the search string, from the left and without overlap.
use niceyaml.Prelude.{ℕ, ◌+◌, ◌≤◌, ◌<◌, ◌≡◌, true, false, List, [], ◌∷◌, length, drop}
use niceyaml.Text.{Text, continuation, rune_count}
use niceyaml.Position.{Range}
use niceyaml.Finder.{Finder, has_prefix}
use niceyaml.Finder.Matches.{Spans}

-- The ranges are those of the occurrences from a byte on: each match is the first occurrence behind the
-- one before, and behind the last there is none. A range goes from the position indexed for the rune
-- at the first byte of its match, of which `k` runes are before it, to behind that of the last rune.
abbrev pub Occurs : Finder → Text → ℕ → List Range → Type 0
Occurs f sub offset [] = (x : ℕ) → offset ≤ x → has_prefix sub (drop x f.source) ≡ false
Occurs f sub offset (r ∷ rs) =
    (m k : ℕ) × (offset ≤ m)
    × (has_prefix sub (drop m f.source) ≡ true)
    × ((x : ℕ) → offset ≤ x → x < m → has_prefix sub (drop x f.source) ≡ false)
    × (k + rune_count (drop m f.source) ≡ rune_count f.source)
    × Spans f k (rune_count sub) r
    × Occurs f sub (m + length sub) rs

-- The first byte of a string begins a rune.
abbrev pub StartsRune : Text → Type 0
StartsRune s = (b : ℕ) × (t : Text) × (s ≡ b ∷ t) × (continuation b ≡ false)
