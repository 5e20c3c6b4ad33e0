-- ===== src/Text/Trim.antt =====
-- strings.TrimSpace: what it removes, and that nothing is left to remove.
use libersuite_panel.Prelude.{
  ℕ, ◌≡◌, refl, List, [], ◌∷◌, Bool, false, ◌||◌, ◌&&◌, leb, ◌==◌, if◌then◌else◌, Bool-cases, inl,
  inr, ◌∙◌, ap,
}

-- unicode.IsSpace: the white space of Latin-1 and the further runes with the White_Space property.
unfoldable pub is_space : ℕ → Bool
is_space c =
    leb 9 c && leb c 13
    || (c == 0x20
        || (c == 0x85
            || (c == 0xa0
                || (c == 0x1680
                    || (leb 0x2000 c && leb c 0x200a
                        || (c == 0x2028
                            || (c == 0x2029 || (c == 0x202f || (c == 0x205f || c == 0x3000)))))))))

unfoldable pub trim_left : List ℕ → List ℕ
trim_left [] = []
trim_left (c ∷ s) = let rest = trim_left s in if is_space c then rest else c ∷ s

abbrev pub keep : ℕ → List ℕ → List ℕ
keep c [] = if is_space c then [] else c ∷ []
keep c (d ∷ s) = c ∷ d ∷ s

unfoldable pub trim_right : List ℕ → List ℕ
trim_right [] = []
trim_right (c ∷ s) = keep c (trim_right s)

unfoldable pub trim_space : List ℕ → List ℕ
unfolding is_space trim_left trim_right
trim_space s = trim_right (trim_left s)

-- A text with no white space at either end.
abbrev pub FirstKept : List ℕ → Type 0
FirstKept [] = Unit {0}
FirstKept (c ∷ s) = is_space c ≡ false

abbrev pub LastKept : List ℕ → Type 0
LastKept [] = Unit {0}
LastKept (c ∷ []) = is_space c ≡ false
LastKept (c ∷ d ∷ s) = LastKept (d ∷ s)

abbrev pub IsTrimmed : List ℕ → Type 0
IsTrimmed s = FirstKept s × LastKept s

trim_left-FirstKept : (s : List ℕ) → FirstKept (trim_left s)
unfolding trim_left
trim_left-FirstKept [] = tt
trim_left-FirstKept (c ∷ s) = elim (Bool-cases (is_space c)) [
  | inl e ↦ rw e (trim_left-FirstKept s)
  | inr e ↦ rw e e
]

keep-LastKept : (c : ℕ) (s : List ℕ) → LastKept s → LastKept (keep c s)
keep-LastKept c [] h = elim (Bool-cases (is_space c)) [ inl e ↦ rw e tt | inr e ↦ rw e e ]
keep-LastKept c (d ∷ s) h = h

trim_right-LastKept : (s : List ℕ) → LastKept (trim_right s)
unfolding trim_right
trim_right-LastKept [] = tt
trim_right-LastKept (c ∷ s) = keep-LastKept c (trim_right s) (trim_right-LastKept s)

keep-FirstKept : (c : ℕ) (s : List ℕ) → is_space c ≡ false → FirstKept (keep c s)
keep-FirstKept c [] h = rw h h
keep-FirstKept c (d ∷ s) h = h

trim_right-FirstKept : (s : List ℕ) → FirstKept s → FirstKept (trim_right s)
unfolding trim_right
trim_right-FirstKept [] h = tt
trim_right-FirstKept (c ∷ s) h = keep-FirstKept c (trim_right s) h

-- What is left begins and ends with a rune that is no space.
pub trim_space-IsTrimmed : (s : List ℕ) → IsTrimmed (trim_space s)
unfolding trim_space
trim_space-IsTrimmed s =
    (trim_right-FirstKept _ (trim_left-FirstKept s), trim_right-LastKept (trim_left s))

trim_left_fixed : (s : List ℕ) → FirstKept s → trim_left s ≡ s
unfolding trim_left
trim_left_fixed [] h = refl
trim_left_fixed (c ∷ s) h = rw h

trim_right_fixed : (s : List ℕ) → LastKept s → trim_right s ≡ s
unfolding trim_right
trim_right_fixed [] h = refl
trim_right_fixed (c ∷ []) h = rw h
trim_right_fixed (c ∷ d ∷ s) h = ap (keep c) (trim_right_fixed (d ∷ s) h)

-- A text that has no white space at its ends stays as it is.
pub trim_space_fixed : (s : List ℕ) → IsTrimmed s → trim_space s ≡ s
unfolding trim_space
trim_space_fixed s h = ap trim_right (trim_left_fixed s h.0) ∙ trim_right_fixed s h.1
