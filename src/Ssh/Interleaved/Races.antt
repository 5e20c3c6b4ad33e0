-- ===== src/Ssh/Interleaved/Races.antt =====
-- Where the steps of two flushes, or of a flush and a test of the quota, fall between each other.
use libersuite_panel.Prelude.{
  ℕ, suc, ◌+◌, ◌^◌, ◌≤◌, ◌<◌, ◌≡◌, refl, ap, ◌∙◌, ◌++◌, leb, if◌then◌else◌, false, List, [], ◌∷◌,
  arith,
}
use libersuite_panel.Prelude.Int.{ℤ, pos, is_zero}
use libersuite_panel.Prelude.Words.{add64, add64_pos}
use libersuite_panel.Ssh.{Tracker, nil, eof, over_limit, traffic_read}
use libersuite_panel.Ssh.Sessions.{writes, transfer}
use libersuite_panel.Ssh.Ledger.{write_counts}
use libersuite_panel.Ssh.Interleaved.{
  Threads, Reader, inside, loaded, outside, Event, moved, flusher_locks, flusher_goes_on,
  closer_locks, closer_goes_on, with_used, flush_step, step, run, open_session,
}

-- A session with these counters.
abbrev pub counters : Tracker → ℤ → ℤ → ℤ → Tracker
counters t used r w = record (with_used used t) { bytes_read = r; bytes_written = w }

-- A flush of the flusher, or of Shutdown, up to the load of TrafficUsed.
abbrev pub flusher_loads : List Event
flusher_loads = flusher_locks ∷ flusher_goes_on ∷ flusher_goes_on ∷ flusher_goes_on ∷ []

abbrev pub closer_loads : List Event
closer_loads = closer_locks ∷ closer_goes_on ∷ closer_goes_on ∷ closer_goes_on ∷ []

-- Both store, save and release the lock.
abbrev pub both_store : List Event
both_store =
    flusher_goes_on ∷ closer_goes_on ∷ flusher_goes_on ∷ flusher_goes_on ∷ closer_goes_on
    ∷ closer_goes_on ∷ []

-- The flusher has loaded TrafficUsed; then n bytes come, and Shutdown's flush takes them and loads it, too.
abbrev pub crossing : ℕ → List Event
crossing n = flusher_loads ++ (moved (writes n nil) ∷ (closer_loads ++ both_store))

-- The flusher, and Shutdown, with what they have loaded.
abbrev crossed : Tracker → ℤ → Reader → Reader → Threads
crossed t row f c = record (open_session t row) { flusher = f; closer = c }

positive : (n : ℕ) → is_zero (pos (suc n)) ≡ false
positive n = ground arith

flusher_loaded :
    (t : Tracker) (row : ℤ) (base a : ℕ)
    → suc a < 2 ^ 63
    → run (open_session (counters t (pos base) (pos (suc a)) (pos 0)) row) flusher_loads
      ≡ crossed
          (counters t (pos base) (pos 0) (pos 0))
          row
          (inside (loaded (pos (suc a)) (pos base)))
          outside
unfolding run step flush_step
flusher_loaded t row base a h =
    let sum : add64 (pos (suc a)) (pos 0) ≡ pos (suc a) =
      add64_pos (suc a) 0 (omega arith) ∙ ap pos (omega arith) in
    rw (sum, positive a) refl

closer_loaded :
    (t : Tracker) (row : ℤ) (f : Reader) (base n : ℕ)
    → suc n < 2 ^ 63
    → run (crossed (counters t (pos base) (pos 0) (pos (suc n))) row f outside) closer_loads
      ≡ crossed
          (counters t (pos base) (pos 0) (pos 0))
          row
          f
          (inside (loaded (pos (suc n)) (pos base)))
unfolding run step flush_step
closer_loaded t row f base n h =
    let sum : add64 (pos 0) (pos (suc n)) ≡ pos (suc n) =
      add64_pos 0 (suc n) (omega arith) ∙ ap pos (omega arith) in
    rw (sum, positive n) refl

written :
    (t : Tracker) (row : ℤ) (f : Reader) (base n : ℕ)
    → suc n < 2 ^ 63
    → step
        (crossed (counters t (pos base) (pos 0) (pos 0)) row f outside)
        (moved (writes (suc n) nil))
      ≡ crossed (counters t (pos base) (pos 0) (pos (suc n))) row f outside
unfolding step transfer
written t row f base n h =
    let sum : add64 (pos 0) (pos (suc n)) ≡ pos (suc n) =
      add64_pos 0 (suc n) (omega arith) ∙ ap pos (omega arith) in
    ap (λ u. crossed u row f outside)
      (write_counts (counters t (pos base) (pos 0) (pos 0)) n nil
        ∙ ap (counters t (pos base) (pos 0)) sum)

-- The read lock does not keep the flusher's flush and Shutdown's apart: where both have loaded TrafficUsed before
-- either stores it, the bytes that the first of them took are in no counter and in no record any more.
pub flushes_cross :
    (t : Tracker) (row : ℤ) (base a n : ℕ)
    → base + suc a < 2 ^ 63
    → base + suc n < 2 ^ 63
    → run (open_session (counters t (pos base) (pos (suc a)) (pos 0)) row) (crossing (suc n))
      ≡ open_session (counters t (pos (base + suc n)) (pos 0) (pos 0)) (pos (base + suc n))
unfolding run step flush_step
flushes_cross t row base a n h k =
    let f = inside (loaded (pos (suc a)) (pos base)) in
    ap (λ w. run w (moved (writes (suc n) nil) ∷ (closer_loads ++ both_store)))
      (flusher_loaded t row base a (omega arith))
    ∙ ap (λ w. run w (closer_loads ++ both_store)) (written t row f base n (omega arith))
    ∙ ap (λ w. run w both_store) (closer_loaded t row f base n (omega arith))
    ∙ ap (λ z. open_session (counters t z (pos 0) (pos 0)) z) (add64_pos base (suc n) k)

-- What the test of the quota is about.
over_limit_of :
    (t : Tracker) (limit base r : ℕ)
    → t.client.traffic_limit ≡ pos limit
    → 0 < limit
    → base + r < 2 ^ 63
    → over_limit (counters t (pos base) (pos r) (pos 0)) ≡ leb limit (base + r)
unfolding over_limit
over_limit_of t limit base r e some_limit fits =
    let first = add64_pos base r fits in
    let second = add64_pos (base + r) 0 (omega arith) in rw (e, first, second) (ground arith)

read_of :
    (t : Tracker) (base r n : ℕ)
    → r + suc n < 2 ^ 63
    → (traffic_read (counters t (pos base) (pos r) (pos 0)) (suc n) nil).1
      ≡ (if over_limit (counters t (pos base) (pos (r + suc n)) (pos 0)) then eof else nil)
unfolding traffic_read
read_of t base r n fits = rw (add64_pos r (suc n) fits) (ground arith)

-- While a flush has taken the counters and not yet stored their sum, the test of the quota does not see it: a client
-- that has met the limit reads n bytes more and is not stopped, whom the same test would stop before the flush.
pub quota_unseen :
    (t : Tracker) (row : ℤ) (limit base a n : ℕ)
    → t.client.traffic_limit ≡ pos limit
    → limit ≤ base + suc a
    → base + suc n < limit
    → base + suc a + suc n < 2 ^ 63
    → let t' = counters t (pos base) (pos (suc a)) (pos 0) in
      ((traffic_read t' (suc n) nil).1 ≡ eof)
      × ((traffic_read (run (open_session t' row) flusher_loads).shared.tracker (suc n) nil).1
          ≡ nil)
quota_unseen t row limit base a n e over below fits =
    let some_limit : 0 < limit = omega arith in
    let stopped = over_limit_of t limit base (suc a + suc n) e some_limit (omega arith) in
    let unseen = over_limit_of t limit base (0 + suc n) e some_limit (omega arith) in
    rw
      (
        flusher_loaded t row base a (omega arith),
        read_of t base (suc a) n (omega arith),
        read_of t base 0 n (omega arith),
        stopped,
        unseen,
      )
      (ground arith, ground arith)
