-- ===== src/Examples/Interleavings.antt =====
-- Flushes of a session of alice in single steps, beside its copiers.
use libersuite_panel.Prelude.{◌+◌, ◌≡◌, refl, All, List, [], ◌∷◌, arith}
use libersuite_panel.Prelude.Int.{pos, ◌+ℤ◌}
use libersuite_panel.Prelude.Words.{wrap64}
use libersuite_panel.Ssh.{nil, eof, traffic_read}
use libersuite_panel.Ssh.Sessions.{reads, writes}
use libersuite_panel.Ssh.Interleaved.{
  Threads, Event, moved, flusher_locks, flusher_goes_on, connection_ends, watcher_goes_on, run,
  open_session,
}
use libersuite_panel.Ssh.Interleaved.Conserved.{
  exact, in_flight, tally_all, Unclosed, Apart, flushes_conserve,
}
use libersuite_panel.Ssh.Interleaved.Races.{
  counters, flusher_loads, crossing, flushes_cross, quota_unseen,
}
use libersuite_panel.Examples.{session}

-- The flusher takes both counters while bytes come; the connection cannot be removed until it is through.
abbrev history : List Event
history =
    flusher_locks
    ∷ flusher_goes_on
    ∷ moved (reads 5 nil)
    ∷ flusher_goes_on
    ∷ connection_ends
    ∷ flusher_goes_on
    ∷ moved (writes 6 nil)
    ∷ flusher_goes_on
    ∷ flusher_goes_on
    ∷ flusher_goes_on
    ∷ connection_ends
    ∷ watcher_goes_on
    ∷ watcher_goes_on
    ∷ []

abbrev threads : Threads
threads = run (open_session session (pos 10)) history

All-Unclosed : All Unclosed history
All-Unclosed = (tt, (tt, (tt, (tt, (tt, (tt, (tt, (tt, (tt, (tt, (tt, (tt, (tt, tt)))))))))))))

flushes_conserve_example :
    (wrap64 (exact threads.shared.tracker +ℤ in_flight threads.flusher threads.watcher)
      ≡ wrap64 (tally_all (exact session) history))
    × Apart threads
flushes_conserve_example = flushes_conserve session (pos 10) history All-Unclosed

flushes_cross_example :
    run (open_session (counters session (pos 10) (pos 5) (pos 0)) (pos 10)) (crossing 7)
    ≡ open_session (counters session (pos (10 + 7)) (pos 0) (pos 0)) (pos (10 + 7))
flushes_cross_example = flushes_cross session (pos 10) 10 4 6 (omega arith) (omega arith)

quota_unseen_example :
    ((traffic_read (counters session (pos 10) (pos 995) (pos 0)) 7 nil).1 ≡ eof)
    × ((traffic_read
          (run
            (open_session (counters session (pos 10) (pos 995) (pos 0)) (pos 10))
            flusher_loads).shared.tracker
          7
          nil).1
        ≡ nil)
quota_unseen_example =
    quota_unseen session (pos 10) 1000 10 994 6 refl (omega arith) (omega arith) (omega arith)
