-- ===== src/Text/Decimal.antt =====
-- fmt's %d.
use libersuite_panel.Prelude.{
  ℕ, zero, suc, ◌+◌, ◌-◌, ◌*◌, ◌/◌, ◌%◌, ◌≤◌, ◌<◌, ◌≡◌, refl, List, [], ◌∷◌, ◌++◌, arith, ltb,
  if◌then◌else◌, All, All-append,
}
use libersuite_panel.Prelude.Int.{ℤ, pos, negsuc}

-- The decimal digits, by fuel: a number has no more digits than its value, plus one.
digits_within : ℕ → ℕ → List ℕ
digits_within zero n = []
digits_within (suc fuel) n =
    let rest = digits_within fuel (n / 10) in
    if ltb n 10 then (b'0' + n) ∷ [] else rest ++ ((b'0' + n % 10) ∷ [])

unfoldable pub format_nat : ℕ → List ℕ
unfolding digits_within
format_nat n = digits_within (suc n) n

unfoldable pub format_int : ℤ → List ℕ
unfolding format_nat
format_int (pos n) = format_nat n
format_int (negsuc n) = b'-' ∷ format_nat (suc n)

abbrev pub IsDigit : ℕ → Type 0
IsDigit c = (b'0' ≤ c) × (c ≤ b'9')

digits_within-IsDigit : (fuel n : ℕ) → All IsDigit (digits_within fuel n)
unfolding digits_within
digits_within-IsDigit zero n = tt
digits_within-IsDigit (suc fuel) n = ground (
  arith,
  All-append IsDigit (digits_within fuel (n / 10)) ((b'0' + n % 10) ∷ [])
      (digits_within-IsDigit fuel (n / 10)) last,
)
  where
    last : All IsDigit ((b'0' + n % 10) ∷ [])
    last = omega arith

pub format_nat-IsDigit : (n : ℕ) → All IsDigit (format_nat n)
unfolding format_nat
format_nat-IsDigit n = digits_within-IsDigit (suc n) n

-- The number that a row of digits denotes.
abbrev pub value_from : ℕ → List ℕ → ℕ
value_from acc [] = acc
value_from acc (c ∷ s) = value_from (acc * 10 + (c - b'0')) s

value_from-append :
    (acc : ℕ) (s t : List ℕ) → value_from acc (s ++ t) ≡ value_from (value_from acc s) t
value_from-append acc [] t = refl
value_from-append acc (c ∷ s) t = value_from-append (acc * 10 + (c - b'0')) s t

digits_within_value : (fuel n : ℕ) → n < fuel → value_from 0 (digits_within fuel n) ≡ n
unfolding digits_within
digits_within_value zero n h = elim h [ ]
digits_within_value (suc fuel) n h = ground (
  arith,
  value_from-append 0 (digits_within fuel (n / 10)) ((b'0' + n % 10) ∷ []),
  digits_within_value fuel (n / 10),
)

pub format_nat_value : (n : ℕ) → value_from 0 (format_nat n) ≡ n
unfolding format_nat
format_nat_value n = digits_within_value (suc n) n (omega arith)
