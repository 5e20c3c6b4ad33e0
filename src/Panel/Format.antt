-- ===== src/Panel/Format.antt =====
-- formatBytes of cmd/panel/client.go.
pub mod Scale
use libersuite_panel.Prelude.{
  ℕ, zero, suc, ◌+◌, ◌*◌, ◌/◌, ◌%◌, ◌^◌, Bool, Option, none, some, List, [], ◌∷◌, ◌++◌, ltb,
  if◌then◌else◌, get_elem?,
}
use libersuite_panel.Prelude.Int.{ℤ, pos, negsuc, ltb_ℤ, pos_part}
use libersuite_panel.Text.{Text}
use libersuite_panel.Text.Decimal.{format_int}

abbrev pub unit : ℕ
unit = 1024

-- The loop on n, div and exp, on fuel; div is an int64, here by its pattern.
unfoldable pub scale : ℕ → ℕ → ℕ → ℕ → Option (ℕ × ℕ)
scale zero n div exp = none
scale (suc fuel) n div exp =
    let rest = scale fuel (n / unit) (div * unit % 2 ^ 64) (exp + 1) in
    if ltb n unit then some (div, exp) else rest

-- "KMGTPE"
abbrev pub prefixes : Text
prefixes = b'K' ∷ b'M' ∷ b'G' ∷ b'T' ∷ b'P' ∷ b'E' ∷ []

-- `%.1f` of the quotient of two floats is `ratio`; `none` stands for the panic of an index out of range.
module _ (ratio : ℕ → ℕ → Text) where
  abbrev pub with_prefix : ℕ → Option (ℕ × ℕ) → Option Text
  with_prefix bytes none = none
  with_prefix bytes (some (div, exp)) = elim (get_elem? prefixes exp) [
    | none ↦ none
    | some p ↦ some (ratio bytes div ++ (b' ' ∷ p ∷ b'B' ∷ []))
  ]

  unfoldable pub format_bytes : ℤ → Option Text
  format_bytes bytes =
      if ltb_ℤ bytes (pos unit)
      then some (format_int bytes ++ (b' ' ∷ b'B' ∷ []))
      else with_prefix (pos_part bytes) (scale 64 (pos_part bytes / unit) unit 0)
