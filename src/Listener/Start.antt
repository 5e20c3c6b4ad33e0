-- ===== src/Listener/Start.antt =====
-- What Start of socksserver/server.go does before its loop, and what its callers see: the address, net.Listen, and the
-- results of Start and Shutdown.
use libersuite_panel.Prelude.{false, Option, none, some, List, ◌∷◌, ◌++◌}
use libersuite_panel.Prelude.Int.{ℤ}
use libersuite_panel.Text.{Text}
use libersuite_panel.Text.Decimal.{format_int}
use libersuite_panel.Text.HostPort.{split_host_port}
use libersuite_panel.Listener.{
  Loop, accepting, holding, ended, Stop, not_called, waiting, clean, timed_out, Listener, Event,
  shuts_down, run, started,
}

-- fmt.Sprintf("%s:%d", host, port)
unfoldable pub listen_addr : Text → ℤ → Text
listen_addr host port = host ++ (b':' ∷ format_int port)

-- net.Listen reads the address into host and port first; `bind` is the port that it gets then, if any. For port 0 that
-- is a free port of the system's choice.
abbrev pub bound_at : Text → Option Text → Option (Text × Text)
bound_at host none = none
bound_at host (some port) = some (host, port)

unfoldable pub listen : (Text → Text → Option Text) → Text → Option (Text × Text)
listen bind address = elim (split_host_port address) [
  | none ↦ none
  | some (host, port) ↦ bound_at host (bind host port)
]

-- The error of a Start or of a Shutdown.
pub data Error : Type 0 where
  nil listen_failed deadline_exceeded underlying : Error

-- A server that has been started: what it is bound to, how its loop stands, and what its Start has returned, if it has.
pub record Started : Type 0 where
  pub bound : Option (Text × Text)
  pub listener : Listener
  pub result : Option Error

-- The loop ends without an error.
abbrev pub returned : Loop → Option Error
returned accepting = none
returned holding = none
returned ended = some nil

-- What Shutdown finds where net.Listen has failed: nothing to close and no handler.
abbrev pub never_started : Listener
never_started = record {
  is_open = false;
  cancelled = false;
  loop = ended;
  running = 0;
  stop = not_called;
}

abbrev pub accept_loop : Option (Text × Text) → List Event → Listener
accept_loop none es = never_started
accept_loop (some b) es = run started es

abbrev pub at_end : Option (Text × Text) → Listener → Option Error
at_end none v = some listen_failed
at_end (some b) v = returned v.loop

unfoldable pub start : (Text → Text → Option Text) → Text → ℤ → List Event → Started
unfolding listen_addr listen run
start bind host port es =
    let bound = listen bind (listen_addr host port) in
    let v = accept_loop bound es in record { bound = bound; listener = v; result = at_end bound v }

-- What Shutdown has returned, if it has.
abbrev pub stopped : Stop → Option Error
stopped not_called = none
stopped waiting = none
stopped clean = some nil
stopped timed_out = some deadline_exceeded

unfoldable pub shutdown : Listener → List Event → Option Error
unfolding run
shutdown v es = stopped (run v (shuts_down ∷ es)).stop

-- What a Start waits for that has no loop of its own: the end of the context, or of the library's ListenAndServe.
pub data Waited : Type 0 where
  cancelled : Waited
  served : Error → Waited
