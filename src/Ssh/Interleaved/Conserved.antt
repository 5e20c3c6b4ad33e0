-- ===== src/Ssh/Interleaved/Conserved.antt =====
-- No interleaving loses a byte as long as the flusher and the watcher alone flush.
use libersuite_panel.Prelude.{◌≡◌, refl, ap, Bool, true, false, List, [], ◌∷◌, All, inl, inr, ◌⊎◌}
use libersuite_panel.Prelude.Int.{ℤ, pos, ◌+ℤ◌, int_laws}
use libersuite_panel.Prelude.Words.{wrap64}
use libersuite_panel.Ssh.{Tracker}
use libersuite_panel.Ssh.Ledger.{amount}
use libersuite_panel.Ssh.Interleaved.{
  Shared, Stage, beginning, read_taken, taken, loaded, stored, finished, Reader, outside, inside,
  Watcher, watching, billing, Threads, Event, moved, flusher_locks, flusher_goes_on, closer_locks,
  closer_goes_on, connection_ends, watcher_goes_on, lock, go_on, step, run, open_session,
}
use libersuite_panel.Ssh.Interleaved.Steps.{pending, total, Sound, flush_step-Sound, transfer-Sound}

-- Nobody flushes, the flusher does, or the watcher, who does so only when the session is not listed any more.
abbrev Phase : ℤ → Tracker → Bool → Reader → Reader → Watcher → Type 0
Phase sum t b outside outside watching = (b ≡ true) × Sound sum finished t
Phase sum t b (inside s) outside watching = (b ≡ true) × Sound sum s t
Phase sum t b outside outside (billing s) = (b ≡ false) × Sound sum s t
Phase sum t b (inside s) outside (billing s') = ⊥
Phase sum t b f (inside s) wa = ⊥

abbrev Inv : ℤ → Threads → Type 0
Inv sum w = Phase sum w.shared.tracker w.listed w.flusher w.closer w.watcher

-- Shutdown does not flush.
abbrev pub Unclosed : Event → Type 0
Unclosed (moved x) = Unit {0}
Unclosed flusher_locks = Unit {0}
Unclosed flusher_goes_on = Unit {0}
Unclosed closer_locks = ⊥
Unclosed closer_goes_on = ⊥
Unclosed connection_ends = Unit {0}
Unclosed watcher_goes_on = Unit {0}

-- The sum after one event: only the copiers' bytes count.
abbrev pub tally : ℤ → Event → ℤ
tally sum (moved x) = sum +ℤ pos (amount x)
tally sum flusher_locks = sum
tally sum flusher_goes_on = sum
tally sum closer_locks = sum
tally sum closer_goes_on = sum
tally sum connection_ends = sum
tally sum watcher_goes_on = sum

abbrev pub tally_all : ℤ → List Event → ℤ
tally_all sum [] = sum
tally_all sum (e ∷ es) = tally_all (tally sum e) es

go_on-Inv :
    (sum : ℤ) (v : Shared) (b : Bool) (s : Stage)
    → b ≡ true
    → Sound sum s v.tracker
    → Phase sum (go_on (inside s) v).0.tracker b (go_on (inside s) v).1 outside watching
go_on-Inv sum v b beginning e h = (e, flush_step-Sound sum v beginning h)
go_on-Inv sum v b (read_taken r) e h = (e, flush_step-Sound sum v (read_taken r) h)
go_on-Inv sum v b (taken used) e h = (e, flush_step-Sound sum v (taken used) h)
go_on-Inv sum v b (loaded used old) e h = (e, flush_step-Sound sum v (loaded used old) h)
go_on-Inv sum v b stored e h = (e, flush_step-Sound sum v stored h)
go_on-Inv sum v b finished e h = (e, h)

lock-Inv :
    (sum : ℤ) (t : Tracker) (b : Bool)
    → b ≡ true
    → Sound sum finished t
    → Phase sum t b (lock b outside) outside watching
lock-Inv sum t true e h = (refl, h)
lock-Inv sum t false e h = absurd (cc)

unlisted-Inv :
    (sum : ℤ) (t : Tracker) (b : Bool) (s : Stage)
    → b ≡ false
    → Sound sum s t
    → Phase sum t b (lock b outside) outside (billing s)
unlisted-Inv sum t false s e h = (refl, h)
unlisted-Inv sum t true s e h = absurd (cc)

step-Inv :
    (sum : ℤ) (v : Shared) (b : Bool) (f c : Reader) (wa : Watcher) (e : Event)
    → Unclosed e
    → Phase sum v.tracker b f c wa
    → Inv
        (tally sum e)
        (step (record { shared = v; listed = b; flusher = f; closer = c; watcher = wa }) e)
unfolding step
step-Inv sum v b f (inside s) wa e u h = absurd h
step-Inv sum v b (inside s) outside (billing s') e u h = absurd h
step-Inv sum v b outside outside watching (moved x) u (l, h) =
    (l, transfer-Sound sum x finished v.tracker h)
step-Inv sum v b outside outside watching flusher_locks u (l, h) = lock-Inv sum v.tracker b l h
step-Inv sum v b outside outside watching flusher_goes_on u h = h
step-Inv sum v b outside outside watching closer_locks u h = absurd u
step-Inv sum v b outside outside watching closer_goes_on u h = absurd u
step-Inv sum v b outside outside watching connection_ends u (l, h) = (refl, h)
step-Inv sum v b outside outside watching watcher_goes_on u h = h
step-Inv sum v b (inside s) outside watching (moved x) u (l, h) =
    (l, transfer-Sound sum x s v.tracker h)
step-Inv sum v b (inside s) outside watching flusher_locks u h = h
step-Inv sum v b (inside s) outside watching flusher_goes_on u (l, h) = go_on-Inv sum v b s l h
step-Inv sum v b (inside s) outside watching closer_locks u h = absurd u
step-Inv sum v b (inside s) outside watching closer_goes_on u h = absurd u
step-Inv sum v b (inside s) outside watching connection_ends u h = h
step-Inv sum v b (inside s) outside watching watcher_goes_on u h = h
step-Inv sum v b outside outside (billing s) (moved x) u (l, h) =
    (l, transfer-Sound sum x s v.tracker h)
step-Inv sum v b outside outside (billing s) flusher_locks u (l, h) =
    unlisted-Inv sum v.tracker b s l h
step-Inv sum v b outside outside (billing s) flusher_goes_on u h = h
step-Inv sum v b outside outside (billing s) closer_locks u h = absurd u
step-Inv sum v b outside outside (billing s) closer_goes_on u h = absurd u
step-Inv sum v b outside outside (billing s) connection_ends u h = h
step-Inv sum v b outside outside (billing s) watcher_goes_on u (l, h) =
    (l, flush_step-Sound sum v s h)

run-Inv :
    (sum : ℤ) (w : Threads) (es : List Event)
    → All Unclosed es
    → Inv sum w
    → Inv (tally_all sum es) (run w es)
unfolding run
run-Inv sum w [] u h = h
run-Inv sum w (e ∷ es) (u, us) h =
    run-Inv (tally sum e) (step w e) es us
      (step-Inv sum w.shared w.listed w.flusher w.closer w.watcher e u h)

-- What is held by whoever flushes.
abbrev pub in_flight : Reader → Watcher → ℤ
in_flight outside watching = pos 0
in_flight outside (billing s) = pending s
in_flight (inside s) wa = pending s

abbrev pub exact : Tracker → ℤ
exact t = (t.client.traffic_used +ℤ t.bytes_read) +ℤ t.bytes_written

-- The flusher and the watcher are not both in a flush.
abbrev pub Apart : Threads → Type 0
Apart w = (w.flusher ≡ outside) ⊎ (w.watcher ≡ watching)

read_off :
    (sum : ℤ) (t : Tracker) (b : Bool) (f c : Reader) (wa : Watcher)
    → Phase sum t b f c wa
    → (wrap64 (total t (in_flight f wa)) ≡ wrap64 sum) × ((f ≡ outside) ⊎ (wa ≡ watching))
read_off sum t b f (inside s) wa h = absurd h
read_off sum t b (inside s) outside (billing s') h = absurd h
read_off sum t b outside outside watching (l, (h, _)) = (h, inl refl)
read_off sum t b (inside s) outside watching (l, (h, _)) = (h, inr refl)
read_off sum t b outside outside (billing s) (l, (h, _)) = (h, inl refl)

-- Whatever the order in which the copiers count, the flusher flushes and the watcher removes the session and
-- flushes it, the two never flush at the same time, and TrafficUsed, the counters and what a flush has
-- taken are together the traffic and the counters of the beginning and all bytes counted since, as int64.
pub flushes_conserve :
    (t : Tracker) (row : ℤ) (es : List Event)
    → All Unclosed es
    → let w = run (open_session t row) es in
      (wrap64 (exact w.shared.tracker +ℤ in_flight w.flusher w.watcher)
        ≡ wrap64 (tally_all (exact t) es))
      × Apart w
flushes_conserve t row es u =
    let w = run (open_session t row) es in
    read_off (tally_all (exact t) es) w.shared.tracker w.listed w.flusher w.closer w.watcher
      (run-Inv (exact t) (open_session t row) es u (refl, (ap wrap64 (omega int_laws), tt)))
