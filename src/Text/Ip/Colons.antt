-- ===== src/Text/Ip/Colons.antt =====
-- The text of an IPv6 address has a colon and no bracket.
use libersuite_panel.Prelude.{
  ltb, ℕ, ◌+◌, ◌*◌, ◌≤◌, ◌≡◌, refl, List, [], ◌∷◌, ◌++◌, true, arith, leb, length, take, drop,
  Bool-cases, inl, inr,
}
use libersuite_panel.Text.{Text}
use libersuite_panel.Text.HostPort.{
  contains_byte, contains_byte_after, contains_byte-append, NoByte,
}
use libersuite_panel.Text.Ip.{
  hex_digit, hex_group, groups, longest_run, tail_groups, joined_groups, compressed, ipv6_text,
}

NoByte-append : (b : ℕ) (s t : Text) → NoByte b s → NoByte b t → NoByte b (s ++ t)
NoByte-append b s t h k = ground (arith, contains_byte-append b s t)

hex_digit_no_bracket : (d : ℕ) (s : Text) → NoByte b'[' s → NoByte b'[' (hex_digit d ∷ s)
unfolding hex_digit contains_byte
hex_digit_no_bracket d s h = ground arith

abbrev digit : (d : ℕ) (s : Text) → NoByte b'[' s → NoByte b'[' (hex_digit d ∷ s)
digit = hex_digit_no_bracket

empty_no_bracket : NoByte b'[' []
unfolding contains_byte
empty_no_bracket = refl

hex_group_no_bracket : (g : ℕ) → NoByte b'[' (hex_group g)
unfolding hex_group
hex_group_no_bracket g = elim (Bool-cases (ltb g 0x10)) [
  | inl a ↦ rw (hex_group, a) (digit g [] empty_no_bracket)
  | inr a ↦ elim (Bool-cases (ltb g 0x100)) [
    | inl b ↦ rw (hex_group, a, b) (digit _ _ (digit _ [] empty_no_bracket))
    | inr b ↦ elim (Bool-cases (ltb g 0x1000)) [
      | inl c ↦ rw (hex_group, a, b, c) (digit _ _ (digit _ _ (digit _ [] empty_no_bracket)))
      | inr c ↦
          rw (hex_group, a, b, c) (digit _ _ (digit _ _ (digit _ _ (digit _ [] empty_no_bracket))))
    ]
  ]
]

tail_groups_no_bracket : (gs : List ℕ) → NoByte b'[' (tail_groups gs)
unfolding tail_groups contains_byte
tail_groups_no_bracket [] = refl
tail_groups_no_bracket (g ∷ gs) =
    NoByte-append b'[' (hex_group g) (tail_groups gs) (hex_group_no_bracket g)
      (tail_groups_no_bracket gs)

joined_groups_no_bracket : (gs : List ℕ) → NoByte b'[' (joined_groups gs)
unfolding joined_groups contains_byte
joined_groups_no_bracket [] = refl
joined_groups_no_bracket (g ∷ gs) =
    NoByte-append b'[' (hex_group g) (tail_groups gs) (hex_group_no_bracket g)
      (tail_groups_no_bracket gs)

joined_groups_colon :
    (g h : ℕ) (gs : List ℕ) → contains_byte b':' (joined_groups (g ∷ h ∷ gs)) ≡ true
unfolding joined_groups tail_groups
joined_groups_colon g h gs = contains_byte_after b':' (hex_group g) (hex_group h ++ tail_groups gs)

compressed_no_bracket : (gs : List ℕ) (run : ℕ × ℕ) → NoByte b'[' (compressed gs run)
unfolding contains_byte
compressed_no_bracket gs (start, len) = elim (Bool-cases (leb 2 len)) [
  | inl e ↦ rw e (
      NoByte-append b'[' (joined_groups (take start gs)) _
        (joined_groups_no_bracket (take start gs))
        (joined_groups_no_bracket (drop (start + len) gs)))
  | inr e ↦ rw e (joined_groups_no_bracket gs)
]

compressed_colon :
    (g h : ℕ) (gs : List ℕ) (run : ℕ × ℕ) → contains_byte b':' (compressed (g ∷ h ∷ gs) run) ≡ true
compressed_colon g h gs (start, len) = elim (Bool-cases (leb 2 len)) [
  | inl e ↦ rw e (contains_byte_after b':' (joined_groups (take start (g ∷ h ∷ gs))) _)
  | inr e ↦ rw e (joined_groups_colon g h gs)
]

pub ipv6_text_no_bracket : (bytes : Text) → NoByte b'[' (ipv6_text bytes)
unfolding ipv6_text
ipv6_text_no_bracket bytes = compressed_no_bracket (groups bytes) (longest_run 0 (groups bytes) 0 0)

pub ipv6_text_colon :
    (bytes : Text) → 4 ≤ length bytes → contains_byte b':' (ipv6_text bytes) ≡ true
unfolding ipv6_text
ipv6_text_colon [] h = absurd (omega arith)
ipv6_text_colon (a ∷ []) h = absurd (omega arith)
ipv6_text_colon (a ∷ b ∷ []) h = absurd (omega arith)
ipv6_text_colon (a ∷ b ∷ c ∷ []) h = absurd (omega arith)
ipv6_text_colon (a ∷ b ∷ c ∷ d ∷ rest) h =
    compressed_colon (a * 0x100 + b) (c * 0x100 + d) (groups rest)
      (longest_run 0 (groups (a ∷ b ∷ c ∷ d ∷ rest)) 0 0)
