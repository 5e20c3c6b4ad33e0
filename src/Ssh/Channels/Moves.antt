-- ===== src/Ssh/Channels/Moves.antt =====
-- What a move does to the total of a session, and to the chunks that its copiers may still move.
use libersuite_panel.Prelude.{
  ℕ, zero, suc, ◌+◌, ◌≤◌, ◌<◌, ◌≡◌, Bool, false, List, [], ◌∷◌, if◌then◌else◌, arith, ltb,
  Bool-cases, inl, inr, ◌⊎◌,
}
use libersuite_panel.Ssh.Channels.{Copier, halt}

abbrev pub left_of : ℕ → Copier → ℕ
left_of chunk c = if c.running then chunk else 0

-- A chunk for each copier that runs, and two for each channel that is opened.
unfoldable pub slack : ℕ → List Copier → ℕ
slack chunk [] = 0
slack chunk (c ∷ cs) = (if c.running then chunk else 0) + slack chunk cs

pub slack-halt : (chunk i : ℕ) (cs : List Copier) → slack chunk (halt i cs) ≤ slack chunk cs
unfolding halt slack
slack-halt chunk i [] = omega arith
slack-halt chunk zero (c ∷ cs) = ground arith
slack-halt chunk (suc i) (c ∷ cs) = omega (arith, slack-halt chunk i cs)

module _ (limit chunk : ℕ) where
  -- What a move does to the total and to the chunks that the copiers may still move: the total stays, or is
  -- below the limit, or a copier stops.
  abbrev pub Grown : ℕ → ℕ → ℕ → ℕ → Type 0
  Grown total total' left left' =
      (total' ≤ total + chunk)
      × (left' ≤ left)
      × ((total' ≡ total) ⊎ ((total' < limit) ⊎ (left' + chunk ≤ left)))

  pub grown :
      (total n : ℕ) (on : Bool)
      → n ≤ chunk
      → (0 < n → limit ≤ total + n → on ≡ false)
      → Grown total (total + n) chunk (if on then chunk else 0)
  grown total n on le stop = elim (Bool-cases (ltb (total + n) limit)) [
    | inl below ↦ (omega arith, ground arith, inr (inl (ground arith)))
    | inr above ↦ stopped n on le stop above
  ]
    where
      stopped :
          (n : ℕ) (on : Bool)
          → n ≤ chunk
          → (0 < n → limit ≤ total + n → on ≡ false)
          → ltb (total + n) limit ≡ false
          → Grown total (total + n) chunk (if on then chunk else 0)
      stopped zero on le stop above = (omega arith, ground arith, inl (omega arith))
      stopped (suc n) on le stop above =
          let off = stop (omega arith) (ground arith) in
          rw off (omega arith, omega arith, inr (inr (omega arith)))

  pub Grown-beside :
      (rest total total' left left' all all' : ℕ)
      → Grown total total' left left'
      → all ≡ left + rest
      → all' ≡ left' + rest
      → Grown total total' all all'
  Grown-beside rest total total' left left' all all' (a, b, inl e) p q = (a, omega arith, inl e)
  Grown-beside rest total total' left left' all all' (a, b, inr (inl e)) p q =
      (a, omega arith, inr (inl e))
  Grown-beside rest total total' left left' all all' (a, b, inr (inr e)) p q =
      (a, omega arith, inr (inr (omega arith)))

  -- The total and the chunks still to come, of `opened` that were ever to come.
  abbrev pub Within : ℕ → ℕ → ℕ → Type 0
  Within opened total left = (left ≤ opened) × ((total < limit) ⊎ (total + left < limit + opened))

  pub Grown-Within :
      (opened total total' left left' : ℕ)
      → Within opened total left
      → Grown total total' left left'
      → Within opened total' left'
  Grown-Within opened total total' left left' (b, inl w) (g, l, r) = ground arith
  Grown-Within opened total total' left left' (b, inr w) (g, l, r) = ground arith
