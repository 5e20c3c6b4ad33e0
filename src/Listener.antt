-- ===== src/Listener.antt =====
-- Start and Shutdown of socksserver/server.go, which mixedserver/server.go repeats: one goroutine accepts
-- connections, each is handled in a goroutine of its own, and a shutdown waits for these or for its deadline.
pub mod Drain
pub mod Start
use libersuite_panel.Prelude.{ℕ, zero, suc, Bool, true, false, List, [], ◌∷◌, if◌then◌else◌}

-- Where the loop stands: in Accept, with a connection that is not yet counted, or past its end.
pub data Loop : Type 0 where
  accepting holding ended : Loop

-- Where Shutdown stands: not called, in its select, or returned without or with an error.
pub data Stop : Type 0 where
  not_called waiting clean timed_out : Stop

pub record Listener : Type 0 where
  pub is_open : Bool
  pub cancelled : Bool
  pub loop : Loop
  pub running : ℕ
  pub stop : Stop

-- What happens next: a peer connects; Accept fails, because the listener is closed or for another reason;
-- the loop counts its connection and starts its handler; a handler ends; the context is cancelled;
-- Shutdown is called; its wait for the handlers is over; its deadline passes.
pub data Event : Type 0 where
  connects accept_fails counts handler_ends cancels shuts_down wait_over deadline : Event

-- Accept gives a connection only while the listener is open.
abbrev pub accepts : Bool → Loop → Loop
accepts true accepting = holding
accepts true holding = holding
accepts true ended = ended
accepts false l = l

-- An error of Accept ends the loop if the listener is closed or the context cancelled.
abbrev pub fails : Bool → Bool → Loop → Loop
fails true false accepting = accepting
fails true true accepting = ended
fails false c accepting = ended
fails b c holding = holding
fails b c ended = ended

abbrev pub counted : Loop → Listener → Listener
counted accepting v = v
counted holding v = record v { loop = accepting; running = suc v.running }
counted ended v = v

abbrev pub one_less : ℕ → ℕ
one_less zero = zero
one_less (suc n) = n

abbrev pub called : Stop → Stop
called not_called = waiting
called waiting = waiting
called clean = clean
called timed_out = timed_out

-- The WaitGroup is at 0.
abbrev pub over : ℕ → Stop → Stop
over zero waiting = clean
over (suc n) waiting = waiting
over n not_called = not_called
over n clean = clean
over n timed_out = timed_out

abbrev pub expired : Stop → Stop
expired not_called = not_called
expired waiting = timed_out
expired clean = clean
expired timed_out = timed_out

unfoldable pub step : Listener → Event → Listener
step v connects = record v { loop = accepts v.is_open v.loop }
step v accept_fails = record v { loop = fails v.is_open v.cancelled v.loop }
step v counts = counted v.loop v
step v handler_ends = record v { running = one_less v.running }
step v cancels = record v { is_open = false; cancelled = true }
step v shuts_down = record v { is_open = false; stop = called v.stop }
step v wait_over = record v { stop = over v.running v.stop }
step v deadline = record v { stop = expired v.stop }

unfoldable pub run : Listener → List Event → Listener
run v [] = v
run v (e ∷ es) = run (step v e) es

abbrev pub started : Listener
started = record {
  is_open = true;
  cancelled = false;
  loop = accepting;
  running = 0;
  stop = not_called;
}
