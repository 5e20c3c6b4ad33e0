-- ===== src/Socks/Relay/Bound.antt =====
-- How far a session can go over its client's limit.
use libersuite_panel.Prelude.{
  ℕ, ◌+◌, ◌*◌, ◌^◌, ◌≤◌, ◌<◌, ◌≡◌, refl, Bool, true, false, List, [], ◌∷◌, ◌++◌, All, All-append,
  arith,
}
use libersuite_panel.Prelude.Int.{ℤ, pos}
use libersuite_panel.Prelude.Words.{add64, add64_pos}
use libersuite_panel.Socks.Quota.{
  QuotaWriter, WriteError, nil, short_write, underlying, quota_write,
}
use libersuite_panel.Socks.Relay.{
  Direction, upstream, downstream, Event, wrote, source_ended, Session, start, running, stop,
  after_write, if_running, step, run, relay,
}

-- Each write is of one chunk of at most `chunk` bytes.
abbrev pub InChunks : ℕ → Event → Type 0
InChunks chunk (wrote d n failed) = n ≤ chunk
InChunks chunk (source_ended d) = Unit {0}

module _ (base limit chunk : ℕ) (fits : limit + 2 * chunk < 2 ^ 63) (left : base < limit) where
  abbrev writer : QuotaWriter
  writer = record { base_used = pos base; limit = pos limit }

  quota_write_count :
      (u n : ℕ) (failed : Bool)
      → base + u + n < 2 ^ 63
      → (quota_write writer (pos u) n failed).0 ≡ pos (u + n)
  unfolding quota_write
  quota_write_count u n failed h = rw (add64_pos u n (omega arith)) (ground arith)

  quota_write_nil :
      (u n : ℕ) (failed : Bool)
      → base + u + n < 2 ^ 63
      → 0 < n
      → (quota_write writer (pos u) n failed).1 ≡ nil
      → base + u + n < limit
  unfolding quota_write
  quota_write_nil u n failed h k e =
      let total : add64 (add64 (pos u) (pos n)) (pos base) ≡ pos (u + n + base) =
        rw (add64_pos u n (omega arith)) (add64_pos (u + n) base (omega arith)) in
      ground arith

  -- While both copiers run the limit is not met; each of them goes over it by one chunk at most.
  record Within (count : ℕ) (s : Session) : Type 0 where
    counted : s.session_used ≡ pos count
    both : s.up_running ≡ true → s.down_running ≡ true → base + count < limit
    up : s.up_running ≡ true → base + count < limit + chunk
    down : s.down_running ≡ true → base + count < limit + chunk
    total : base + count < limit + 2 * chunk

  Within-start : Within 0 start
  Within-start = record {
    counted = refl;
    both = λ _ _. omega arith;
    up = λ _. omega arith;
    down = λ _. omega arith;
    total = omega arith;
  }

  stop-Within : (u : ℕ) (d : Direction) (s : Session) → Within u s → Within u (stop d s)
  stop-Within u upstream s v = record {
    counted = v.counted;
    both = λ e. cc;
    up = λ e. cc;
    down = v.down;
    total = v.total;
  }
  stop-Within u downstream s v = record {
    counted = v.counted;
    both = λ e f. cc;
    up = v.up;
    down = λ e. cc;
    total = v.total;
  }

  after_write-Within :
      (u n : ℕ) (d : Direction) (used : ℤ) (e : WriteError) (s : Session)
      → n ≤ chunk
      → Within u s
      → running s d ≡ true
      → used ≡ pos (u + n)
      → (e ≡ nil → 0 < n → base + u + n < limit)
      → Within (u + n) (after_write s d (used, e))
  after_write-Within u n upstream used nil s h v r k l = ground arith
  after_write-Within u n downstream used nil s h v r k l = ground arith
  after_write-Within u n upstream used short_write s h v r k l = ground arith
  after_write-Within u n downstream used short_write s h v r k l = ground arith
  after_write-Within u n upstream used underlying s h v r k l = ground arith
  after_write-Within u n downstream used underlying s h v r k l = ground arith

  room :
      (u n : ℕ) (d : Direction) (s : Session)
      → n ≤ chunk
      → Within u s
      → running s d ≡ true
      → base + u + n < 2 ^ 63
  room u n upstream s h v r = ground arith
  room u n downstream s h v r = ground arith

  write-Within :
      (u n : ℕ) (d : Direction) (failed : Bool) (s : Session)
      → n ≤ chunk
      → Within u s
      → running s d ≡ true
      → Within (u + n) (after_write s d (quota_write writer s.session_used n failed))
  write-Within u n d failed s h v r =
      let fit = room u n d s h v r in
      rw v.counted (
        after_write-Within u n d _ _ s h v r (quota_write_count u n failed fit)
          (λ e k. quota_write_nil u n failed fit k e))

  -- A step adds the bytes of a write whose copier runs.
  if_running-Within :
      (u n : ℕ) (b : Bool) (s t : Session)
      → Within u s
      → (b ≡ true → Within (u + n) t)
      → (count : ℕ) × Within count (if_running b s t)
  if_running-Within u n true s t v w = (u + n, w refl)
  if_running-Within u n false s t v w = (u, v)

  step-Within :
      (u : ℕ) (s : Session) (e : Event)
      → InChunks chunk e
      → Within u s
      → (count : ℕ) × Within count (step writer s e)
  unfolding step
  step-Within u s (wrote d n failed) h v =
      if_running-Within u n (running s d) s _ v (λ r. write-Within u n d failed s h v r)
  step-Within u s (source_ended d) h v = (u, stop-Within u d s v)

  run-Within :
      (u : ℕ) (s : Session) (es : List Event)
      → All (InChunks chunk) es
      → Within u s
      → (count : ℕ) × Within count (run writer s es)
  unfolding run
  run-Within u s [] h v = (u, v)
  run-Within u s (e ∷ es) h v =
      let (count, w) = step-Within u s e h.0 v in run-Within count (step writer s e) es h.1 w

  -- A session of a client with a limit that is not met when it begins: whatever the interleaving of the
  -- two copiers, with chunks of at most `chunk` bytes the use of the client and the session together
  -- stays below the limit and two chunks, and the counter does not wrap around.
  pub relay_bound :
      (events : List Event)
      → All (InChunks chunk) events
      → (count : ℕ) × (relay writer events ≡ pos count) × (base + count < limit + 2 * chunk)
  unfolding relay
  relay_bound events h =
      let (count, v) =
        run-Within 0 start (events ++ (source_ended upstream ∷ source_ended downstream ∷ []))
          (All-append (InChunks chunk) events _ h (tt, (tt, tt))) Within-start in
      (count, v.counted, v.total)
