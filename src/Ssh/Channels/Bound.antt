-- ===== src/Ssh/Channels/Bound.antt =====
-- How much the channels of a session can move between the steps of its flushes.
use libersuite_panel.Prelude.{
  ℕ, zero, suc, ◌+◌, ◌≤◌, ◌<◌, ◌^◌, ◌≡◌, refl, ap, ◌∙◌, Bool, true, false, List, [], ◌∷◌, All,
  arith, Bool-cases, inl, inr,
}
use libersuite_panel.Prelude.Int.{pos}
use libersuite_panel.Prelude.Words.{add64, add64_pos}
use libersuite_panel.Ssh.{Tracker, IoError, over_limit, traffic_read, traffic_write}
use libersuite_panel.Ssh.Ledger.{balance, balance-transfer}
use libersuite_panel.Ssh.Sessions.{reads, writes, transfer}
use libersuite_panel.Ssh.Channels.Moves.{
  left_of, slack, slack-halt, Grown, grown, Grown-beside, Within, Grown-Within,
}
use libersuite_panel.Ssh.Channels.{
  Copier, no_error, counted, pump, advance, ChannelEvent, channel_opened, moved, broken, Channels,
  channel_step, channel_run,
}

-- Every move is of one chunk of at most `chunk` bytes.
abbrev pub InChunks : ℕ → ChannelEvent → Type 0
InChunks chunk channel_opened = Unit {0}
InChunks chunk (moved i n err) = n ≤ chunk
InChunks chunk (broken i) = Unit {0}

unfoldable pub room : ℕ → List ChannelEvent → ℕ
room chunk [] = 0
room chunk (channel_opened ∷ es) = chunk + chunk + room chunk es
room chunk (moved i n err ∷ es) = room chunk es
room chunk (broken i ∷ es) = room chunk es

module _ (limit chunk : ℕ) (some_limit : 0 < limit) where
  -- A tracker with this limit and this total.
  abbrev Holds : Tracker → ℕ → Type 0
  Holds t total = (t.client.traffic_limit ≡ pos limit) × (balance t ≡ pos total)

  over_limit_of_balance :
      (t : Tracker) (total : ℕ) → Holds t total → limit ≤ total → over_limit t ≡ true
  unfolding over_limit balance
  over_limit_of_balance t total (e, b) h = rw (e, b) (ground arith)

  limit_kept :
      (reading : Bool) (n : ℕ) (err : IoError) (t : Tracker)
      → (counted reading n err t).0.client.traffic_limit ≡ t.client.traffic_limit
  unfolding traffic_read traffic_write
  limit_kept true n err t = ground arith
  limit_kept false n err t = ground arith

  stops :
      (reading : Bool) (n : ℕ) (err : IoError) (t : Tracker)
      → 0 < n
      → over_limit (counted reading n err t).0 ≡ true
      → no_error (counted reading n err t).1 ≡ false
  unfolding traffic_read traffic_write
  stops true n err t h = ground arith
  stops false n err t h = ground arith

  balance-counted :
      (reading : Bool) (n : ℕ) (err : IoError) (t : Tracker)
      → balance (counted reading n err t).0 ≡ add64 (balance t) (pos n)
  unfolding transfer
  balance-counted true n err t = balance-transfer (reads n err) t
  balance-counted false n err t = balance-transfer (writes n err) t

  counted-Holds :
      (reading : Bool) (n : ℕ) (err : IoError) (t : Tracker) (total : ℕ)
      → Holds t total
      → total + n < 2 ^ 63
      → Holds (counted reading n err t).0 (total + n)
  counted-Holds reading n err t total (e, b) fits = (
    limit_kept reading n err t ∙ e,
    balance-counted reading n err t ∙ ap (λ k. add64 k (pos n)) b ∙ add64_pos total n fits,
  )

  pump_lem :
      (n : ℕ) (err : IoError) (t : Tracker) (c : Copier) (total : ℕ)
      → Holds t total
      → n ≤ chunk
      → total + chunk < 2 ^ 63
      → (total' : ℕ) × Holds (pump n err t c).0 total'
        × Grown limit chunk total total' (left_of chunk c) (left_of chunk (pump n err t c).1)
  unfolding pump
  pump_lem n err t c total h le fits =
      let h' = counted-Holds c.reading n err t total h (omega arith) in
      let over = over_limit_of_balance (counted c.reading n err t).0 (total + n) h' in
      let stop = stops c.reading n err t in
      elim (Bool-cases c.running) [
        | inl e ↦ (
          total + n,
          rw e h',
          rw e (
              grown limit chunk total n (no_error (counted c.reading n err t).1) le
                (λ p q. stop p (over q))),
        )
        | inr e ↦ (total, rw e h, rw e (omega arith, omega arith, inl refl))
      ]

  advance_lem :
      (i n : ℕ) (err : IoError) (t : Tracker) (cs : List Copier) (total : ℕ)
      → Holds t total
      → n ≤ chunk
      → total + chunk < 2 ^ 63
      → (total' : ℕ) × Holds (advance i n err t cs).0 total'
        × Grown limit chunk total total' (slack chunk cs) (slack chunk (advance i n err t cs).1)
  unfolding advance slack
  advance_lem i n err t [] total h le fits = (total, h, (omega arith, omega arith, inl refl))
  advance_lem zero n err t (c ∷ cs) total h le fits =
      let (total', h', g) = pump_lem n err t c total h le fits in
      (total', h', Grown-beside limit chunk (slack chunk cs) total total' _ _ _ _ g refl refl)
  advance_lem (suc i) n err t (c ∷ cs) total h le fits =
      let (total', h', g) = advance_lem i n err t cs total h le fits in
      (
        total',
        h',
        Grown-beside limit chunk (left_of chunk c) total total' _ _ _ _ g (omega arith)
            (omega arith),
      )

  abbrev Bounded : Channels → ℕ → Type 0
  Bounded v opened =
      (total : ℕ) × Holds v.tracker total × Within limit chunk opened total (slack chunk v.copiers)

  step-Bounded :
      (v : Channels) (e : ChannelEvent) (opened opened' : ℕ)
      → Bounded v opened
      → InChunks chunk e
      → limit + opened + chunk < 2 ^ 63
      → opened' ≡ opened + room chunk (e ∷ [])
      → Bounded (channel_step v e) opened'
  unfolding channel_step room slack
  step-Bounded v channel_opened opened opened' (total, h, w) c fits q = (total, h, ground arith)
  step-Bounded v (moved i n err) opened opened' (total, h, w) c fits q =
      let (total', h', g) = advance_lem i n err v.tracker v.copiers total h c (ground arith) in
      let w' = Grown-Within limit chunk opened total total' _ _ w g in (total', h', ground arith)
  step-Bounded v (broken i) opened opened' (total, h, w) c fits q =
      let le = slack-halt chunk i v.copiers in (total, h, ground arith)

  room_cons :
      (e : ChannelEvent) (es : List ChannelEvent)
      → room chunk (e ∷ es) ≡ room chunk (e ∷ []) + room chunk es
  unfolding room
  room_cons channel_opened es = omega arith
  room_cons (moved i n err) es = omega arith
  room_cons (broken i) es = omega arith

  run-Bounded :
      (v : Channels) (es : List ChannelEvent) (opened opened' : ℕ)
      → Bounded v opened
      → All (InChunks chunk) es
      → opened' ≡ opened + room chunk es
      → limit + opened' + chunk < 2 ^ 63
      → Bounded (channel_run v es) opened'
  unfolding channel_run room
  run-Bounded v [] opened opened' (total, h, w) c q fits = (total, h, ground arith)
  run-Bounded v (e ∷ es) opened opened' b (c, cs) q fits =
      let r = room_cons e es in
      let b' = step-Bounded v e opened (opened + room chunk (e ∷ [])) b c (omega arith) refl in
      run-Bounded (channel_step v e) es (opened + room chunk (e ∷ [])) opened' b' cs (omega arith)
        fits

  -- A session of a client with a limit, at any time and up to the next step of a flush: if the traffic that the
  -- quota test reads, the record's and the counters', is below the limit, then whatever the channels do, in whatever
  -- order, in moves of at most `chunk` bytes, it stays below the limit and one chunk for each copier that runs at
  -- first and two for each channel that is opened, where this sum and one more chunk are below 2^63.
  pub session_bound :
      (v : Channels) (base : ℕ) (es : List ChannelEvent)
      → v.tracker.client.traffic_limit ≡ pos limit
      → balance v.tracker ≡ pos base
      → base < limit
      → All (InChunks chunk) es
      → limit + (slack chunk v.copiers + room chunk es) + chunk < 2 ^ 63
      → (total : ℕ) × (balance (channel_run v es).tracker ≡ pos total)
        × (total < limit + (slack chunk v.copiers + room chunk es))
  session_bound v base es e b lt c fits =
      let (total, (_, b'), w) =
        run-Bounded v es (slack chunk v.copiers) (slack chunk v.copiers + room chunk es)
          (base, (e, b), (omega arith, inl lt)) c refl fits in
      (total, b', ground arith)
