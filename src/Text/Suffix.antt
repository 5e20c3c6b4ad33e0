-- ===== src/Text/Suffix.antt =====
-- strings.HasSuffix and what it means.
use libersuite_panel.Prelude.{
  ℕ, ◌-◌, ◌≡◌, refl, sym, ap, ◌∙◌, List, [], ◌∷◌, ◌++◌, Bool, true, ◌&&◌, arith, leb, length, take,
  drop, length-append, take-append-drop, text_eq, text_eq_iff, text_eq_refl,
}

unfoldable pub has_suffix : List ℕ → List ℕ → Bool
has_suffix s suffix =
    leb (length suffix) (length s) && text_eq (drop (length s - length suffix) s) suffix

drop-append_length : (p s : List ℕ) → drop (length p) (p ++ s) ≡ s
drop-append_length [] s = refl
drop-append_length (x ∷ p) s = drop-append_length p s

pub has_suffix-append : (p s : List ℕ) → has_suffix (p ++ s) s ≡ true
unfolding has_suffix
has_suffix-append p s = ground (arith, length-append p s, e, drop-append_length p s, text_eq_refl s)
  where
    e : length (p ++ s) - length s ≡ length p
    e = omega (arith, length-append p s)

pub has_suffix→append :
    (s suffix : List ℕ) → has_suffix s suffix ≡ true → (p : List ℕ) × (s ≡ p ++ suffix)
unfolding has_suffix
has_suffix→append s suffix h =
    let n : ℕ = length s - length suffix in
    let e : text_eq (drop n s) suffix ≡ true = ground arith in
    (
      take n s,
      sym (take-append-drop n s) ∙ ap (◌++◌ (take n s)) ((text_eq_iff (drop n s) suffix).0 e),
    )
