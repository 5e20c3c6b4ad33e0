-- ===== src/Ssh/Interleaved.antt =====
-- flushOne of sshserver/server.go in its single steps, for one session: the copiers count without a lock, the flusher
-- and Shutdown flush under the read lock, and the watcher flushes after it has removed the session.
pub mod Steps
pub mod Conserved
pub mod Races
use libersuite_panel.Prelude.{ℕ, Bool, true, false, List, [], ◌∷◌, if◌then◌else◌}
use libersuite_panel.Prelude.Int.{ℤ, pos, is_zero}
use libersuite_panel.Prelude.Words.{add64}
use libersuite_panel.Ssh.{Tracker}
use libersuite_panel.Ssh.Sessions.{Transfer, transfer}

-- The session's tracker, and the traffic in its client's row when it was saved last.
pub record Shared : Type 0 where
  pub tracker : Tracker
  pub row : ℤ

-- How far a flush is: the first counter is swapped, then the second and the sum is tested, TrafficUsed is
-- loaded, the sum is stored, and the record is saved.
pub data Stage : Type 0 where
  beginning : Stage
  read_taken : ℤ → Stage
  taken : ℤ → Stage
  loaded : ℤ → ℤ → Stage
  stored finished : Stage

-- The sum of the two swaps is 0, or goes on.
abbrev pub tested : ℤ → Stage
tested used = if is_zero used then finished else taken used

abbrev pub with_used : ℤ → Tracker → Tracker
with_used used t = record t { client = record t.client { traffic_used = used } }

unfoldable pub flush_step : Shared → Stage → Shared × Stage
flush_step v beginning = (
  record v { tracker = record v.tracker { bytes_read = pos 0 } },
  read_taken v.tracker.bytes_read,
)
flush_step v (read_taken r) = (
  record v { tracker = record v.tracker { bytes_written = pos 0 } },
  tested (add64 r v.tracker.bytes_written),
)
flush_step v (taken used) = (v, loaded used v.tracker.client.traffic_used)
flush_step v (loaded used old) =
    (record v { tracker = with_used (add64 old used) v.tracker }, stored)
flush_step v stored = (record v { row = v.tracker.client.traffic_used }, finished)
flush_step v finished = (v, finished)

-- flushAll: outside of the lock, or in its flush of the session.
pub data Reader : Type 0 where
  outside : Reader
  inside : Stage → Reader

-- watchSession: in conn.Wait, or in its flush.
pub data Watcher : Type 0 where
  watching : Watcher
  billing : Stage → Watcher

pub record Threads : Type 0 where
  pub shared : Shared
  pub listed : Bool
  pub flusher : Reader
  pub closer : Reader
  pub watcher : Watcher

-- What happens next: a copier counts bytes and makes its test; flushAll takes the read lock, for the flusher or for
-- Shutdown, or goes on; the connection ends and the watcher gets the lock; the watcher goes on.
pub data Event : Type 0 where
  moved : Transfer → Event
  flusher_locks flusher_goes_on : Event
  closer_locks closer_goes_on : Event
  connection_ends watcher_goes_on : Event

-- flushAll flushes the session if it is listed.
abbrev pub lock : Bool → Reader → Reader
lock true outside = inside beginning
lock false outside = outside
lock b (inside s) = inside s

abbrev pub still_inside : Shared × Stage → Shared × Reader
still_inside (v, s) = (v, inside s)

-- The next step of a flush, and the release of the lock after the last one.
abbrev pub go_on : Reader → Shared → Shared × Reader
go_on outside v = (v, outside)
go_on (inside beginning) v = still_inside (flush_step v beginning)
go_on (inside (read_taken r)) v = still_inside (flush_step v (read_taken r))
go_on (inside (taken used)) v = still_inside (flush_step v (taken used))
go_on (inside (loaded used old)) v = still_inside (flush_step v (loaded used old))
go_on (inside stored) v = still_inside (flush_step v stored)
go_on (inside finished) v = (v, outside)

abbrev pub bill : Watcher → Shared → Shared × Watcher
bill watching v = (v, watching)
bill (billing s) v = let (v', s') = flush_step v s in (v', billing s')

-- The write lock is given only while nobody holds the read lock.
abbrev pub remove : Reader → Reader → Watcher → Threads → Threads
remove outside outside watching w = record w { listed = false; watcher = billing beginning }
remove outside outside (billing s) w = w
remove outside (inside s) v w = w
remove (inside s) r v w = w

unfoldable pub step : Threads → Event → Threads
unfolding flush_step
step w (moved x) = record w { shared = record w.shared { tracker = transfer x w.shared.tracker } }
step w flusher_locks = record w { flusher = lock w.listed w.flusher }
step w flusher_goes_on =
    let (v, r) = go_on w.flusher w.shared in record w { shared = v; flusher = r }
step w closer_locks = record w { closer = lock w.listed w.closer }
step w closer_goes_on = let (v, r) = go_on w.closer w.shared in record w { shared = v; closer = r }
step w connection_ends = remove w.flusher w.closer w.watcher w
step w watcher_goes_on =
    let (v, r) = bill w.watcher w.shared in record w { shared = v; watcher = r }

unfoldable pub run : Threads → List Event → Threads
run w [] = w
run w (e ∷ es) = run (step w e) es

-- An open session that nobody flushes.
abbrev pub open_session : Tracker → ℤ → Threads
open_session t row = record {
  shared = record { tracker = t; row = row };
  listed = true;
  flusher = outside;
  closer = outside;
  watcher = watching;
}
