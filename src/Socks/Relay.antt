-- ===== src/Socks/Relay.antt =====
-- The two copiers of a session, client to target and target to client, as any interleaving of their
-- writes. A copier ends at its source's end or at the first write with an error; the one that ends
-- closes both connections, and the other may still finish the write that it is in.
pub mod Bound
use libersuite_panel.Prelude.{ℕ, Bool, true, false, List, [], ◌∷◌, ◌++◌}
use libersuite_panel.Prelude.Int.{ℤ, pos}
use libersuite_panel.Socks.Quota.{
  QuotaWriter, WriteError, nil, short_write, underlying, quota_write,
}

pub data Direction : Type 0 where
  upstream downstream : Direction

-- A write of one chunk, with the bytes that the connection took and whether it failed; or the end of
-- the copier's source.
pub data Event : Type 0 where
  wrote : Direction → ℕ → Bool → Event
  source_ended : Direction → Event

pub record Session : Type 0 where
  pub session_used : ℤ
  pub up_running : Bool
  pub down_running : Bool

abbrev pub start : Session
start = record { session_used = pos 0; up_running = true; down_running = true }

abbrev pub running : Session → Direction → Bool
running s upstream = s.up_running
running s downstream = s.down_running

abbrev pub stop : Direction → Session → Session
stop upstream s = record s { up_running = false }
stop downstream s = record s { down_running = false }

-- io.Copy goes on after a write without an error, and returns after any other.
abbrev pub after_write : Session → Direction → ℤ × WriteError → Session
after_write s d (used, nil) = record s { session_used = used }
after_write s d (used, short_write) = stop d (record s { session_used = used })
after_write s d (used, underlying) = stop d (record s { session_used = used })

abbrev pub if_running : Bool → Session → Session → Session
if_running true s t = t
if_running false s t = s

unfoldable pub step : QuotaWriter → Session → Event → Session
step q s (wrote d n failed) =
    if_running (running s d) s (after_write s d (quota_write q s.session_used n failed))
step q s (source_ended d) = stop d s

unfoldable pub run : QuotaWriter → Session → List Event → Session
run q s [] = s
run q s (e ∷ es) = run q (step q s e) es

-- The counter when both copiers have returned.
unfoldable pub relay : QuotaWriter → List Event → ℤ
relay q events =
    (run q start (events ++ (source_ended upstream ∷ source_ended downstream ∷ []))).session_used
