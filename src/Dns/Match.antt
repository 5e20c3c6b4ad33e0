-- ===== src/Dns/Match.antt =====
-- matchTarget: the first route whose domain ends the name.
use libersuite_panel.Prelude.{
  ◌≡◌, refl, sym, ap, ◌∙◌, subst, true, false, Option, none, some, List, [], ◌∷◌, ◌++◌, arith,
  Bool-cases, inl, inr, All,
}
use mathlib.Core.List.{append_assoc}
use libersuite_panel.Text.{Text}
use libersuite_panel.Text.Suffix.{has_suffix, has_suffix-append, has_suffix→append}
use libersuite_panel.Dns.{DomainRoute, match_target}

has_suffix_trans :
    (q d e : Text) → has_suffix q d ≡ true → has_suffix d e ≡ true → has_suffix q e ≡ true
has_suffix_trans q d e h k =
    let (p, ep) = has_suffix→append q d h in
    let (r, er) = has_suffix→append d e k in
    subst (λ t. has_suffix t e ≡ true) (sym (ep ∙ ap (◌++◌ p) er ∙ sym (append_assoc p r e)))
      (has_suffix-append (p ++ r) e)

module _ {Addr : Type 0} where
  abbrev pub Misses : Text → List (DomainRoute Addr) → Type 0
  Misses q rs = All (λ r. has_suffix q r.domain ≡ false) rs

  -- The two ways in which a search ends.
  abbrev pub FirstMatch : List (DomainRoute Addr) → Text → Option Addr → Type 0
  FirstMatch rs q none = Misses q rs
  FirstMatch rs q (some b) =
      (before : List (DomainRoute Addr)) × (r : DomainRoute Addr) × (later : List
        (DomainRoute Addr))
      × (rs ≡ before ++ (r ∷ later))
      × Misses q before
      × (has_suffix q r.domain ≡ true)
      × (r.backend ≡ b)

  FirstMatch-later :
      (r : DomainRoute Addr) (rs : List (DomainRoute Addr)) (q : Text) (o : Option Addr)
      → has_suffix q r.domain ≡ false
      → FirstMatch rs q o
      → FirstMatch (r ∷ rs) q o
  FirstMatch-later r rs q none h m = (h, m)
  FirstMatch-later r rs q (some b) h (before, s, later, e, m, hit, same) =
      (r ∷ before, s, later, ap (◌∷◌ r) e, (h, m), hit, same)

  -- The target is the backend of the first route whose domain is a suffix of the name, and there is none
  -- exactly when no route's domain is.
  pub match_target_first :
      (rs : List (DomainRoute Addr)) (q : Text) → FirstMatch rs q (match_target rs q)
  unfolding match_target
  match_target_first [] q = tt
  match_target_first (r ∷ rs) q = elim (Bool-cases (has_suffix q r.domain)) [
    | inl hit ↦ rw hit ([], r, rs, refl, tt, hit, refl)
    | inr miss ↦
        rw miss (FirstMatch-later r rs q (match_target rs q) miss (match_target_first rs q))
  ]

  match_target-append :
      (before rs : List (DomainRoute Addr)) (q : Text)
      → Misses q before
      → match_target (before ++ rs) q ≡ match_target rs q
  unfolding match_target
  match_target-append [] rs q h = refl
  match_target-append (r ∷ before) rs q h = rw h.0 (match_target-append before rs q h.1)

  -- The suffix need not begin at a label of the name: a name that only ends in the letters of a route's
  -- domain, such as one of a longer, foreign domain, goes to that route's backend.
  pub match_target_no_boundary :
      (before later : List (DomainRoute Addr)) (r : DomainRoute Addr) (p : Text)
      → Misses (p ++ r.domain) before
      → match_target (before ++ (r ∷ later)) (p ++ r.domain) ≡ some r.backend
  unfolding match_target
  match_target_no_boundary before later r p h =
      match_target-append before (r ∷ later) (p ++ r.domain) h ∙ rw (has_suffix-append p r.domain)

  match_target_same :
      (before : List (DomainRoute Addr)) (xs ys : List (DomainRoute Addr)) (q : Text)
      → match_target xs q ≡ match_target ys q
      → match_target (before ++ xs) q ≡ match_target (before ++ ys) q
  unfolding match_target
  match_target_same [] xs ys q h = h
  match_target_same (r ∷ before) xs ys q h = ground (arith, match_target_same before xs ys q h)

  -- A route behind one whose domain is a suffix of its own is dead: without it every name has the same
  -- target.
  pub match_target_shadowed :
      (before between later : List (DomainRoute Addr)) (r dead : DomainRoute Addr) (q : Text)
      → has_suffix dead.domain r.domain ≡ true
      → match_target (before ++ (r ∷ (between ++ (dead ∷ later)))) q
        ≡ match_target (before ++ (r ∷ (between ++ later))) q
  unfolding match_target
  match_target_shadowed before between later r dead q h =
      match_target_same before _ _ q (elim (Bool-cases (has_suffix q r.domain)) [
        | inl hit ↦ rw hit
        | inr miss ↦ rw miss (
            match_target_same between _ _ q (elim (Bool-cases (has_suffix q dead.domain)) [
              | inl both ↦ absurd (absurd_suffix both miss)
              | inr only ↦ rw only
            ]))
      ])
    where
      absurd_suffix : has_suffix q dead.domain ≡ true → has_suffix q r.domain ≡ false → ⊥
      absurd_suffix both miss = let k = has_suffix_trans q dead.domain r.domain both h in cc
