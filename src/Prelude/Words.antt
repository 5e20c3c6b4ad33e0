-- ===== src/Prelude/Words.antt =====
-- Go's int64: an integer between -2^63 and 2^63 - 1, with sums and products that wrap around.
use Prim.Native.Nat.{ℕ, ◌+◌, ◌-◌, ◌%◌, ◌^◌, ◌≤◌, ◌<◌}
use mathlib.Core.Path.{◌≡◌, sym, ap, ◌∙◌}
use native.Mathlib.Omega.{arith}
use libersuite_panel.Prelude.Tests.{ltb, if◌then◌else◌}
use libersuite_panel.Prelude.Int.{int_laws, ℤ, pos, negsuc, ◌+ℤ◌, ◌-ℤ◌, ◌*ℤ◌, pos_part, neg_part}

-- The bit pattern of an integer, modulo 2^64, and the integer that a pattern stands for.
abbrev pattern64 : ℤ → ℕ
pattern64 (pos n) = n % 2 ^ 64
pattern64 (negsuc n) = 2 ^ 64 - 1 - n % 2 ^ 64

abbrev signed64 : ℕ → ℤ
signed64 w = if ltb w (2 ^ 63) then pos w else negsuc (2 ^ 64 - w - 1)

unfoldable pub wrap64 : ℤ → ℤ
wrap64 z = signed64 (pattern64 z)

unfoldable pub add64 : ℤ → ℤ → ℤ
add64 a b = wrap64 (a +ℤ b)

unfoldable pub sub64 : ℤ → ℤ → ℤ
sub64 a b = wrap64 (a -ℤ b)

unfoldable pub mul64 : ℤ → ℤ → ℤ
mul64 a b = wrap64 (a *ℤ b)

abbrev pub IsInt64 : ℤ → Type 0
IsInt64 z = (pos_part z < 2 ^ 63) × (neg_part z ≤ 2 ^ 63)

pub wrap64_fits : (z : ℤ) → IsInt64 z → wrap64 z ≡ z
unfolding wrap64
wrap64_fits (pos n) h = ground arith
wrap64_fits (negsuc n) h = ground arith

pub wrap64-IsInt64 : (z : ℤ) → IsInt64 (wrap64 z)
unfolding wrap64
wrap64-IsInt64 (pos n) = ground arith
wrap64-IsInt64 (negsuc n) = ground arith

pub add64_fits : (a b : ℤ) → IsInt64 (a +ℤ b) → add64 a b ≡ a +ℤ b
unfolding add64
add64_fits a b h = wrap64_fits (a +ℤ b) h

pub sub64_fits : (a b : ℤ) → IsInt64 (a -ℤ b) → sub64 a b ≡ a -ℤ b
unfolding sub64
sub64_fits a b h = wrap64_fits (a -ℤ b) h

-- A sum of two naturals within range, as `omega` reads it.
pub add64_pos : (m n : ℕ) → m + n < 2 ^ 63 → add64 (pos m) (pos n) ≡ pos (m + n)
unfolding add64 wrap64 ◌+ℤ◌
add64_pos m n h = ground arith

-- A sum may be wrapped around once, at the end.
pub wrap64-+ℤ : (a b : ℤ) → wrap64 (wrap64 a +ℤ b) ≡ wrap64 (a +ℤ b)
unfolding wrap64 ◌+ℤ◌
wrap64-+ℤ (pos m) (pos n) = ground arith
wrap64-+ℤ (pos m) (negsuc n) = ground arith
wrap64-+ℤ (negsuc m) (pos n) = ground arith
wrap64-+ℤ (negsuc m) (negsuc n) = ground arith

+ℤ_comm : (a b : ℤ) → a +ℤ b ≡ b +ℤ a
+ℤ_comm a b = omega int_laws

+ℤ_assoc : (a b c : ℤ) → (a +ℤ b) +ℤ c ≡ a +ℤ (b +ℤ c)
+ℤ_assoc a b c = omega int_laws

pub add64_comm : (a b : ℤ) → add64 a b ≡ add64 b a
unfolding add64
add64_comm a b = ap wrap64 (+ℤ_comm a b)

pub add64_assoc : (a b c : ℤ) → add64 (add64 a b) c ≡ add64 a (add64 b c)
unfolding add64
add64_assoc a b c =
    wrap64-+ℤ (a +ℤ b) c
    ∙ ap wrap64 (+ℤ_assoc a b c ∙ +ℤ_comm a (b +ℤ c))
    ∙ sym (wrap64-+ℤ (b +ℤ c) a)
    ∙ ap wrap64 (+ℤ_comm (wrap64 (b +ℤ c)) a)

pub add64-IsInt64 : (a b : ℤ) → IsInt64 (add64 a b)
unfolding add64
add64-IsInt64 a b = wrap64-IsInt64 (a +ℤ b)

+ℤ_zero : (a : ℤ) → a +ℤ pos 0 ≡ a
+ℤ_zero a = omega int_laws

pub add64_zero : (a : ℤ) → IsInt64 a → add64 a (pos 0) ≡ a
unfolding add64
add64_zero a h = ap wrap64 (+ℤ_zero a) ∙ wrap64_fits a h
