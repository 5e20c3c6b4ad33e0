-- ===== src/Panel/Format/Scale.antt =====
-- The loop of formatBytes ends, with the power of 1024 that fits, and inside the table of prefixes.
use native.Mathlib.Nat.{pow-suc}
use native.Mathlib.Numerals.{add-one}
use libersuite_panel.Prelude.{
  ℕ, zero, suc, ◌+◌, ◌*◌, ◌/◌, ◌%◌, ◌^◌, ◌≤◌, ◌<◌, ◌≡◌, refl, false, some, [], ◌∷◌, ◌++◌, ltb,
  get_elem?, arith, Bool-cases, inl, inr,
}
use libersuite_panel.Prelude.Int.{pos}
use libersuite_panel.Text.{Text}
use libersuite_panel.Panel.Format.{scale, prefixes, with_prefix, format_bytes}

-- Products with a common factor.
factor_le : (d m n : ℕ) → m ≤ n → d * m ≤ d * n
factor_le d m n h = grind arith

next_low : (bytes div n : ℕ) → div * n ≤ bytes → div * 1024 * (n / 1024) ≤ bytes
next_low bytes div n lo = omega (arith, factor_le div (1024 * (n / 1024)) n (omega arith))

next_high : (bytes div n : ℕ) → bytes < div * (n + 1) → bytes < div * 1024 * (n / 1024 + 1)
next_high bytes div n hi =
    omega (arith, factor_le div (n + 1) (1024 * (n / 1024 + 1)) (omega arith))

no_overflow :
    (bytes div n : ℕ)
    → bytes < 2 ^ 63
    → div * n ≤ bytes
    → 1024 ≤ n
    → div * 1024 % 2 ^ 64 ≡ div * 1024
no_overflow bytes div n small lo h = omega (arith, factor_le div 1024 n h)

-- The scale that fits a number of bytes.
abbrev pub Fits : ℕ → ℕ → ℕ → Type 0
Fits bytes d e = (d ≡ 1024 ^ suc e) × (d ≤ bytes) × (bytes < d * 1024)

fuel_left : (fuel n : ℕ) → n < 1024 ^ suc fuel → n / 1024 < 1024 ^ fuel
fuel_left fuel n h = let e = pow-suc 1024 fuel in omega arith

next_power : (div exp : ℕ) → div ≡ 1024 ^ suc exp → div * 1024 ≡ 1024 ^ suc (exp + 1)
next_power div exp h = rw (h, add-one) (rw (pow-suc 1024 (suc exp)))

scale_lem :
    (bytes fuel n div exp : ℕ)
    → bytes < 2 ^ 63
    → 1 ≤ n
    → div * n ≤ bytes
    → bytes < div * (n + 1)
    → n < 1024 ^ fuel
    → div ≡ 1024 ^ suc exp
    → (d : ℕ) × (e : ℕ) × (scale fuel n div exp ≡ some (d, e)) × Fits bytes d e
unfolding scale
scale_lem bytes zero n div exp small one lo hi f p = absurd (omega arith)
scale_lem bytes (suc fuel) n div exp small one lo hi f p = elim (Bool-cases (ltb n 1024)) [
  | inl e ↦ rw e (
    div,
    exp,
    refl,
    (
      p,
      omega (arith, factor_le div 1 n one),
      omega (arith, factor_le div (n + 1) 1024 (ground arith)),
    ),
  )
  | inr e ↦
      let big : 1024 ≤ n = ground arith in
      rw (e, no_overflow bytes div n small lo big)
        (scale_lem bytes fuel (n / 1024) (div * 1024) (exp + 1) small (omega arith)
          (next_low bytes div n lo) (next_high bytes div n hi) (fuel_left fuel n f)
          (next_power div exp p))
]

seventh_power : (k : ℕ) → 2 ^ 63 ≤ 1024 ^ suc (suc (suc (suc (suc (suc (suc k))))))
seventh_power zero = omega arith
seventh_power (suc k) =
    let e = pow-suc 1024 (suc (suc (suc (suc (suc (suc (suc k))))))) in
    omega (arith, seventh_power k)

prefix_of : (e : ℕ) → 1024 ^ suc e < 2 ^ 63 → (p : ℕ) × (get_elem? prefixes e ≡ some p)
prefix_of zero h = (b'K', refl)
prefix_of (suc zero) h = (b'M', refl)
prefix_of (suc (suc zero)) h = (b'G', refl)
prefix_of (suc (suc (suc zero))) h = (b'T', refl)
prefix_of (suc (suc (suc (suc zero)))) h = (b'P', refl)
prefix_of (suc (suc (suc (suc (suc zero))))) h = (b'E', refl)
prefix_of (suc (suc (suc (suc (suc (suc k)))))) h = absurd (omega (arith, seventh_power k))

-- For every int64 from 1024 on, formatBytes ends, no product wraps around, the index is one of a
-- prefix, and the divisor that is shown with it is the power of 1024 with `d ≤ bytes < 1024 * d`.
pub format_bytes_scaled :
    (ratio : ℕ → ℕ → Text) (bytes : ℕ)
    → 1024 ≤ bytes
    → bytes < 2 ^ 63
    → (d : ℕ) × (e : ℕ) × (p : ℕ) × (format_bytes ratio (pos bytes)
        ≡ some (ratio bytes d ++ (b' ' ∷ p ∷ b'B' ∷ [])))
      × (get_elem? prefixes e ≡ some p)
      × Fits bytes d e
unfolding format_bytes
format_bytes_scaled ratio bytes large small =
    let (d, e, found, fits) =
      scale_lem bytes 64 (bytes / 1024) 1024 0 small (omega arith) (omega arith) (omega arith)
        (omega arith) refl in
    let (p, ep) = prefix_of e (omega arith) in
    let big : ltb (bytes + 0) 1024 ≡ false = ground arith in
    (d, e, p, rw (big, found, with_prefix, ep), ep, fits)
