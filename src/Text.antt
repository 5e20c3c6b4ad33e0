-- ===== src/Text.antt =====
-- Go's strings, as lists of code units, and the functions of `strings`, `fmt` and `net` that the
-- program calls on them. A string that is read as runes (TrimSpace, ToLower) is a list of runes; one
-- that comes off a connection is a list of bytes.
pub mod Trim
pub mod Suffix
pub mod Decimal
pub mod HostPort
pub mod Ip
use libersuite_panel.Prelude.{ℕ, List, [], ◌∷◌, ◌++◌, Bool, true, false, ◌||◌, ◌&&◌}
use libersuite_panel.Prelude.{◌+◌, map, ltb, leb, ◌==◌, if◌then◌else◌}

abbrev pub Text : Type 0
Text = List ℕ

abbrev pub is_empty {ℓ} : {A : Type ℓ} → List A → Bool
is_empty [] = true
is_empty (x ∷ xs) = false

-- unicode.ToLower: on ASCII the letters A to Z move by 32; the table for the other runes is `lower`.
unfoldable pub lower_rune : (ℕ → ℕ) → ℕ → ℕ
lower_rune lower c = if ltb c 128 then (if leb b'A' c && leb c b'Z' then c + 32 else c) else lower c

-- strings.ToLower
unfoldable pub to_lower : (ℕ → ℕ) → Text → Text
unfolding lower_rune
to_lower lower = map (lower_rune lower)

-- strings.Split by a one-byte separator: one part more than there are separators.
abbrev pub onto_head : ℕ → List Text → List Text
onto_head c [] = (c ∷ []) ∷ []
onto_head c (p ∷ ps) = (c ∷ p) ∷ ps

unfoldable pub split : ℕ → Text → List Text
split sep [] = [] ∷ []
split sep (c ∷ s) = if c == sep then [] ∷ split sep s else onto_head c (split sep s)
