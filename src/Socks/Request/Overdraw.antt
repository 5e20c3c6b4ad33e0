-- ===== src/Socks/Request/Overdraw.antt =====
-- Sessions of one client at the same time: each has the quota of its own login.
use libersuite_panel.Prelude.{
  ℕ, zero, suc, ◌+◌, ◌*◌, ◌<◌, ◌^◌, ◌≡◌, refl, ap, ◌∙◌, Bool, true, false, some, [], ◌∷◌, arith,
}
use libersuite_panel.Prelude.Int.{pos, ◌+ℤ◌}
use libersuite_panel.Prelude.Words.{add64_pos}
use libersuite_panel.Text.{Text}
use libersuite_panel.Client.{Client}
use libersuite_panel.Database.{Database, IsLawful}
use libersuite_panel.Socks.Wire.{World}
use libersuite_panel.Socks.Quota.{QuotaWriter, nil, quota_write}
use libersuite_panel.Socks.Relay.{
  wrote, upstream, source_ended, downstream, start, after_write, step, run, relay,
}
use libersuite_panel.Socks.Request.{account}

-- The writer of a session of this client.
abbrev pub writer_of : Client → QuotaWriter
writer_of client = record { base_used = client.traffic_used; limit = client.traffic_limit }

+ℤ_pos : (m n : ℕ) → pos m +ℤ pos n ≡ pos (m + n)
unfolding ◌+ℤ◌
+ℤ_pos m n = ground arith

module _ (D : Database) (L : IsLawful D) (network : Text → Text → Bool) (client : Client) where
  -- Sessions that logged in before any of them was billed, each of which sends n bytes upstream in one chunk and ends.
  unfoldable pub bill_each : ℕ → ℕ → World D.State → World D.State
  bill_each zero n w = w
  bill_each (suc k) n w = bill_each k n (account D network (wrote upstream n false ∷ []) client w).1

  module _ (base limit n : ℕ) (some_bytes : 0 < n) (used : client.traffic_used ≡ pos base)
      (quota : client.traffic_limit ≡ pos limit) (below : base + n < limit)
      (fits : limit < 2 ^ 63) where
    passes : quota_write (writer_of client) (pos 0) n false ≡ (pos n, nil)
    unfolding quota_write
    passes =
        rw (used, quota, add64_pos 0 n (omega arith), add64_pos (0 + n) base (omega arith))
          (ground arith)

    one_session : relay (writer_of client) (wrote upstream n false ∷ []) ≡ pos n
    unfolding relay run step
    one_session =
        ap
          (λ r.
            (run (writer_of client) (after_write start upstream r)
              (source_ended upstream ∷ source_ended downstream ∷ [])).session_used)
          passes

    -- The table after one more session.
    billed :
        (w : World D.State)
        → (account D network (wrote upstream n false ∷ []) client w).1.db
          ≡ (D.add_traffic_used w.db client.id (pos n)).0
    unfolding account
    billed w = rw one_session (ground (arith, some_bytes))

    row_billed :
        (always : (s : D.State) → (D.add_traffic_used s client.id (pos n)).1 ≡ true) (start_use : ℕ)
        (w : World D.State) (row : Client)
        → L.row w.db client.id ≡ some row
        → row.traffic_used ≡ pos start_use
        → start_use + n < 2 ^ 63
        → L.row (account D network (wrote upstream n false ∷ []) client w).1.db client.id
          ≡ some (record row { traffic_used = pos (start_use + n) })
    row_billed always start_use w row e u small =
        let sum : row.traffic_used +ℤ pos n ≡ pos (start_use + n) = rw u (+ℤ_pos start_use n) in
        ap (λ s. L.row s client.id) (billed w)
        ∙ L.row-add_traffic_used w.db _ client.id (pos n) row
            (ap (λ b. ((D.add_traffic_used w.db client.id (pos n)).0, b)) (always w.db)) e
            (rw sum (omega arith))
        ∙ ap (λ z. some (record row { traffic_used = z })) sum

    -- The quota is not shared by the sessions of a client: any number k of sessions that log in before the first of
    -- them ends can each send n bytes, and no write of them meets the limit, as long as one session alone
    -- would stay below it; if the updates succeed, the client has used k * n bytes more in the end.
    pub sessions_overdraw :
        (always : (s : D.State) → (D.add_traffic_used s client.id (pos n)).1 ≡ true)
        (k start_use : ℕ) (w : World D.State) (row : Client)
        → L.row w.db client.id ≡ some row
        → row.traffic_used ≡ pos start_use
        → start_use + k * n < 2 ^ 63
        → (quota_write (writer_of client) (pos 0) n false ≡ (pos n, nil))
          × L.row (bill_each k n w).db client.id
            ≡ some (record row { traffic_used = pos (start_use + k * n) })
    unfolding bill_each
    sessions_overdraw always zero start_use w row e u fits' =
        (passes, e ∙ ap (λ z. some (record row { traffic_used = z })) (u ∙ ap pos (omega arith)))
    sessions_overdraw always (suc k) start_use w row e u fits' =
        let more : start_use + n + k * n ≡ start_use + suc k * n = grind arith in
        let row' = record row { traffic_used = pos (start_use + n) } in
        let (_, r) =
          sessions_overdraw always k (start_use + n)
            (account D network (wrote upstream n false ∷ []) client w).1 row'
            (row_billed always start_use w row e u (omega arith)) refl (omega arith) in
        (passes, r ∙ ap (λ z. some (record row { traffic_used = pos z })) more)
