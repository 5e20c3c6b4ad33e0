-- ===== src/Ssh/Flush.antt =====
-- flushOne and flushAll: nothing that was counted is lost between the counters and the record, and a
-- second flush does nothing.
pub mod Order
use libersuite_panel.Prelude.{
  ℕ, ◌&&◌, ◌+◌, ◌^◌, ◌<◌, ◌≡◌, refl, sym, ap, ◌∙◌, List, [], ◌∷◌, arith, Bool-cases, inl, inr,
}
use libersuite_panel.Prelude.Int.{pos, ltb_ℤ, leb_ℤ, is_zero}
use libersuite_panel.Prelude.Words.{add64, add64_pos}
use libersuite_panel.Text.{Text}
use libersuite_panel.Database.{Database}
use libersuite_panel.Ssh.{Tracker, Server, over_limit, used_bytes, flush_one, flush_list, flush_all}

zero_sum : add64 (pos 0) (pos 0) ≡ pos 0
zero_sum = add64_pos 0 0 (omega arith)

-- A tracker whose counters are natural numbers.
abbrev pub Counts : Tracker → ℕ → ℕ → ℕ → Type 0
Counts t u r w =
    (t.client.traffic_used ≡ pos u) × (t.bytes_read ≡ pos r) × (t.bytes_written ≡ pos w)

total_of :
    (t : Tracker) (u r w : ℕ)
    → Counts t u r w
    → u + r + w < 2 ^ 63
    → add64 (add64 t.client.traffic_used t.bytes_read) t.bytes_written ≡ pos (u + r + w)
total_of t u r w (eu, er, ew) fits =
    rw (eu, er, ew, add64_pos u r (omega arith)) (add64_pos (u + r) w fits)

over_limit_of :
    (t : Tracker) (u r w : ℕ)
    → Counts t u r w
    → u + r + w < 2 ^ 63
    → over_limit t
      ≡ (ltb_ℤ (pos 0) t.client.traffic_limit && leb_ℤ t.client.traffic_limit (pos (u + r + w)))
unfolding over_limit
over_limit_of t u r w c fits =
    ap (λ n. ltb_ℤ (pos 0) t.client.traffic_limit && leb_ℤ t.client.traffic_limit n)
      (total_of t u r w c fits)

module _ (D : Database) where
  pub flush_one_limit :
      (t : Tracker) (s : D.State)
      → (flush_one D t s).0.client.traffic_limit ≡ t.client.traffic_limit
  unfolding flush_one
  flush_one_limit t s = elim (Bool-cases (is_zero (used_bytes t))) [ inl e ↦ rw e | inr e ↦ rw e ]

  flush_one-Counts :
      (t : Tracker) (s : D.State) (u r w : ℕ)
      → Counts t u r w
      → u + r + w < 2 ^ 63
      → Counts (flush_one D t s).0 (u + r + w) 0 0
  unfolding flush_one
  flush_one-Counts t s u r w (eu, er, ew) fits =
      let n : used_bytes t ≡ pos (r + w) = rw (er, ew) (add64_pos r w (omega arith)) in
      elim (Bool-cases (is_zero (used_bytes t))) [
        | inl e ↦ rw e (ground arith, refl, refl)
        | inr e ↦
            rw (e, n, eu) (add64_pos u (r + w) (omega arith) ∙ ap pos (omega arith), refl, refl)
      ]

  -- While the sum fits into an int64, a flush moves all that was counted into the client's traffic and
  -- sets the counters to 0, so that the test of the limit gives the same answer before and after it.
  pub flush_one_moves :
      (t : Tracker) (s : D.State) (u r w : ℕ)
      → Counts t u r w
      → u + r + w < 2 ^ 63
      → Counts (flush_one D t s).0 (u + r + w) 0 0 × (over_limit (flush_one D t s).0 ≡ over_limit t)
  flush_one_moves t s u r w c fits =
      let c' = flush_one-Counts t s u r w c fits in
      (
        c',
        over_limit_of (flush_one D t s).0 (u + r + w) 0 0 c' (omega arith)
            ∙ rw flush_one_limit (ground arith)
            ∙ sym (over_limit_of t u r w c fits),
      )

  flush_one_twice :
      (t : Tracker) (s s' : D.State)
      → flush_one D (flush_one D t s).0 s' ≡ ((flush_one D t s).0, s')
  unfolding flush_one
  flush_one_twice t s s' = elim (Bool-cases (is_zero (used_bytes t))) [
    | inl e ↦ rw e (rw zero_sum)
    | inr e ↦ rw e (rw zero_sum)
  ]

  flush_list_twice :
      (l : List (Text × Tracker)) (s s' : D.State)
      → flush_list D (flush_list D l s).0 s' ≡ ((flush_list D l s).0, s')
  unfolding flush_list
  flush_list_twice [] s s' = refl
  flush_list_twice ((id, t) ∷ l) s s' =
      rw (flush_one_twice t s s', flush_list_twice l (flush_one D t s).1 s')

  -- A flush of all sessions right after another one changes nothing, the table included.
  pub flush_all_twice : (v : Server D.State) → flush_all D (flush_all D v) ≡ flush_all D v
  unfolding flush_all
  flush_all_twice v =
      let (sessions, s) = flush_list D v.sessions v.db in
      ap (λ p. record v { sessions = p.0; db = p.1 }) (flush_list_twice v.sessions v.db s)
