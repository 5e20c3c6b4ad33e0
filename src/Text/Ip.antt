-- ===== src/Text/Ip.antt =====
-- net.IP.String of four and of sixteen bytes: dotted decimal, and the form of RFC 5952.
pub mod Colons
use libersuite_panel.Prelude.{
  ℕ, zero, suc, ◌+◌, ◌-◌, ◌*◌, ◌/◌, ◌%◌, ◌≡◌, refl, List, [], ◌∷◌, ◌++◌, Bool, true, false, ◌&&◌,
  ◌||◌, ltb, leb, ◌==◌, arith, All, All-append, ◌≤◌, if◌then◌else◌, length, take, drop, text_eq,
}
use libersuite_panel.Text.{Text}
use libersuite_panel.Text.Decimal.{format_nat, IsDigit, format_nat-IsDigit}

unfoldable pub dotted : Text → Text
unfolding format_nat
dotted [] = []
dotted (a ∷ []) = format_nat a
dotted (a ∷ b ∷ rest) = format_nat a ++ (b'.' ∷ dotted (b ∷ rest))

unfoldable pub hex_digit : ℕ → ℕ
hex_digit d = if ltb d 10 then b'0' + d else b'a' + (d - 10)

-- A group of sixteen bits, with no leading zeros.
unfoldable pub hex_group : ℕ → Text
hex_group g =
    if ltb g 0x10
    then hex_digit g ∷ []
    else if ltb g 0x100
    then hex_digit (g / 0x10) ∷ hex_digit (g % 0x10) ∷ []
    else if ltb g 0x1000
    then hex_digit (g / 0x100) ∷ hex_digit (g / 0x10 % 0x10) ∷ hex_digit (g % 0x10) ∷ []
    else hex_digit (g / 0x1000)
      ∷ hex_digit (g / 0x100 % 0x10)
      ∷ hex_digit (g / 0x10 % 0x10)
      ∷ hex_digit (g % 0x10)
      ∷ []

abbrev pub groups : Text → List ℕ
groups (a ∷ b ∷ rest) = (a * 0x100 + b) ∷ groups rest
groups (a ∷ []) = []
groups [] = []

unfoldable pub leading_zeros : List ℕ → ℕ
leading_zeros [] = 0
leading_zeros (g ∷ gs) = let n = leading_zeros gs in if g == 0 then suc n else 0

-- The start and the length of the first longest run of zero groups, over a best one so far.
unfoldable pub longest_run : ℕ → List ℕ → ℕ → ℕ → ℕ × ℕ
unfolding leading_zeros
longest_run i [] start len = (start, len)
longest_run i (g ∷ gs) start len =
    let n = leading_zeros (g ∷ gs) in
    longest_run (i + 1) gs (if ltb len n then i else start) (if ltb len n then n else len)

unfoldable pub tail_groups : List ℕ → Text
unfolding hex_group hex_digit
tail_groups [] = []
tail_groups (g ∷ gs) = b':' ∷ (hex_group g ++ tail_groups gs)

unfoldable pub joined_groups : List ℕ → Text
unfolding tail_groups hex_group
joined_groups [] = []
joined_groups (g ∷ gs) = hex_group g ++ tail_groups gs

abbrev pub compressed : List ℕ → ℕ × ℕ → Text
compressed gs (start, len) =
    if leb 2 len
    then joined_groups (take start gs) ++ (b':' ∷ b':' ∷ joined_groups (drop (start + len) gs))
    else joined_groups gs

unfoldable pub ipv6_text : Text → Text
unfolding longest_run joined_groups
ipv6_text bytes = compressed (groups bytes) (longest_run 0 (groups bytes) 0 0)

-- An IPv4 address in sixteen bytes.
abbrev pub mapped_prefix : Text
mapped_prefix = 0 ∷ 0 ∷ 0 ∷ 0 ∷ 0 ∷ 0 ∷ 0 ∷ 0 ∷ 0 ∷ 0 ∷ 0xff ∷ 0xff ∷ []

abbrev pub is_mapped : Text → Bool
is_mapped bytes = text_eq (take 12 bytes) mapped_prefix

unfoldable pub ip16_text : Text → Text
ip16_text bytes = if is_mapped bytes then dotted (drop 12 bytes) else ipv6_text bytes

loopback :
    ip16_text (0 ∷ 0 ∷ 0 ∷ 0 ∷ 0 ∷ 0 ∷ 0 ∷ 0 ∷ 0 ∷ 0 ∷ 0 ∷ 0 ∷ 0 ∷ 0 ∷ 0 ∷ 1 ∷ [])
    ≡ b':' ∷ b':' ∷ b'1' ∷ []
unfolding ip16_text dotted ipv6_text text_eq
loopback = refl

pub ip16_text_plain : (ip : Text) → is_mapped ip ≡ false → ip16_text ip ≡ ipv6_text ip
unfolding ip16_text
ip16_text_plain ip h = rw h

-- What dotted decimal is made of.
abbrev pub IsDotted : ℕ → Type 0
IsDotted c = c ≤ b'9'

IsDotted-digits : (s : Text) → All IsDigit s → All IsDotted s
IsDotted-digits [] h = tt
IsDotted-digits (c ∷ s) h = (h.0.1, IsDotted-digits s h.1)

pub dotted-IsDotted : (ip : Text) → All IsDotted (dotted ip)
unfolding dotted
dotted-IsDotted [] = tt
dotted-IsDotted (a ∷ []) = IsDotted-digits (format_nat a) (format_nat-IsDigit a)
dotted-IsDotted (a ∷ b ∷ rest) =
    All-append IsDotted (format_nat a) (b'.' ∷ dotted (b ∷ rest))
      (IsDotted-digits (format_nat a) (format_nat-IsDigit a))
      (omega arith, dotted-IsDotted (b ∷ rest))
