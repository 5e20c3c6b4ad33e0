-- ===== src/Mixed/Start.antt =====
-- Start and Shutdown of mixedserver/server.go: the address, the loop of Accept, and the wait for the handlers, which
-- are the steps of Listener.
use libersuite_panel.Prelude.{Option, List, ◌∷◌}
use libersuite_panel.Prelude.Int.{ℤ}
use libersuite_panel.Text.{Text}
use libersuite_panel.Listener.{Listener, Event, shuts_down, run}
use libersuite_panel.Listener.Start.{
  listen_addr, listen, Error, Started, accept_loop, at_end, stopped,
}

-- The fields of Config that Start reads.
pub record Binding : Type 0 where
  pub host : Text
  pub port : ℤ

unfoldable pub start : (Text → Text → Option Text) → Binding → List Event → Started
unfolding listen_addr listen run
start bind cfg es =
    let bound = listen bind (listen_addr cfg.host cfg.port) in
    let v = accept_loop bound es in record { bound = bound; listener = v; result = at_end bound v }

unfoldable pub shutdown : Listener → List Event → Option Error
unfolding run
shutdown v es = stopped (run v (shuts_down ∷ es)).stop
