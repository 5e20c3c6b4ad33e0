-- ===== src/Panel/Serve/Ended.antt =====
-- The end of the server command: what ends it, the three Shutdowns in their order, and what is left then.
use libersuite_panel.Prelude.{
  ◌≡◌, ◌≢◌, refl, sym, ap, subst, ◌∙◌, Bool, true, false, if◌then◌else◌, Option, none, some, List,
  [], ◌∷◌, ◌++◌, map, ◌⊎◌, arith,
}
use libersuite_panel.Database.{Database}
use libersuite_panel.Listener.{
  Listener, Loop, Stop, not_called, waiting, clean, timed_out, cancels, shuts_down, deadline, step,
  run,
}
use libersuite_panel.Listener
use libersuite_panel.Listener.Drain.{run-append}
use libersuite_panel.Listener.Start.{Error, nil}
use libersuite_panel.Ssh.{Server, flush_all}
use libersuite_panel.Ssh.Sessions
use libersuite_panel.Ssh.Sessions.{start}
use libersuite_panel.Ssh.Ledger.{post_all}
use libersuite_panel.Ssh.Shutdown.{recorded, shutdown, shutdown_records}
use libersuite_panel.Panel.Serve.{
  Ending, signalled, ssh_error, socks_error, mixed_error, dns_error, Exit, crashed,
}
use libersuite_panel.Panel.Serve
use libersuite_panel.Panel.Serve.Servers.{
  Part, ssh, Happening, interrupted, returns, error_of, await,
}

-- The servers at the time of the select.
pub record Running (S : Type 0) : Type 0 where
  pub ssh_server : Server S
  pub socks_listener : Listener
  pub mixed_listener : Listener

-- What happens from then on: in the SSH server during its Shutdown, what is left if the flush of that crosses another,
-- and to each listener before its own Shutdown and during it; after an error, whether the flusher gets to its
-- last flush before the process ends.
pub record Meanwhile (S : Type 0) : Type 0 where
  pub crossed : Option (Server S)
  pub last_flush : Bool
  pub ssh_events : List Sessions.Event
  pub socks_before : List Listener.Event
  pub socks_during : List Listener.Event
  pub mixed_before : List Listener.Event
  pub mixed_during : List Listener.Event

-- The context is cancelled first; the Shutdown of a listener ends by the shared deadline at the latest.
abbrev pub stop_listener : Listener → List Listener.Event → List Listener.Event → Listener
stop_listener v before during =
    run v (cancels ∷ (before ++ (shuts_down ∷ (during ++ (deadline ∷ [])))))

module _ (D : Database) where
  unfoldable pub wind_down : Running D.State → Meanwhile D.State → Running D.State
  unfolding run shutdown
  wind_down v m = record {
    ssh_server = shutdown D m.crossed v.ssh_server m.ssh_events;
    socks_listener = stop_listener v.socks_listener m.socks_before m.socks_during;
    mixed_listener = stop_listener v.mixed_listener m.mixed_before m.mixed_during;
  }

  -- The deferred cancel, on the return after an error: no Shutdown is called.
  unfoldable pub release : Running D.State → Bool → Running D.State
  unfolding step flush_all
  release v last_flush = record {
    ssh_server = if last_flush then flush_all D v.ssh_server else v.ssh_server;
    socks_listener = step v.socks_listener cancels;
    mixed_listener = step v.mixed_listener cancels;
  }

  abbrev pub ended : Ending → Running D.State → Meanwhile D.State → Exit × Running D.State
  ended signalled v m = (Serve.clean, wind_down v m)
  ended ssh_error v m = (crashed ssh_error, release v m.last_flush)
  ended socks_error v m = (crashed socks_error, release v m.last_flush)
  ended mixed_error v m = (crashed mixed_error, release v m.last_flush)
  ended dns_error v m = (crashed dns_error, release v m.last_flush)

  abbrev pub ended_if :
      Option Ending → Running D.State → Meanwhile D.State → Option (Exit × Running D.State)
  ended_if none v m = none
  ended_if (some e) v m = some (ended e v m)

  unfoldable pub serve_command :
      List Happening → Running D.State → Meanwhile D.State → Option (Exit × Running D.State)
  unfolding await wind_down release
  serve_command hs v m = ended_if (await hs) v m

abbrev pub nil_return : Part → Happening
nil_return p = returns p nil

await_quiet :
    (quiet : List Part) (hs : List Happening) → await (map nil_return quiet ++ hs) ≡ await hs
unfolding await
await_quiet [] hs = refl
await_quiet (p ∷ quiet) hs = await_quiet quiet hs

await_interrupted : (hs : List Happening) → await (interrupted ∷ hs) ≡ some signalled
unfolding await
await_interrupted hs = refl

-- A Shutdown that was called, on a listener that is closed.
record Stopping (v : Listener) : Type 0 where
  closed : v.is_open ≡ false
  called : v.stop ≢ not_called

step-Stopping : (v : Listener) (e : Listener.Event) → Stopping v → Stopping (step v e)
unfolding step
step-Stopping v e h = ground arith

run-Stopping : (v : Listener) (es : List Listener.Event) → Stopping v → Stopping (run v es)
unfolding run
run-Stopping v [] h = h
run-Stopping v (e ∷ es) h = run-Stopping (step v e) es (step-Stopping v e h)

abbrev pub IsStopped : Listener → Type 0
IsStopped v = (v.is_open ≡ false) × ((v.stop ≡ clean) ⊎ (v.stop ≡ timed_out))

-- A listener after the deferred cancel: closed, and with no Shutdown called since.
abbrev pub IsReleased : Listener → Listener → Type 0
IsReleased v w = (w.is_open ≡ false) × (w.cancelled ≡ true) × (w.stop ≡ v.stop)

deadline_ends : (v : Listener) → Stopping v → IsStopped (step v deadline)
unfolding step
deadline_ends v h = ground arith

shuts_down-Stopping : (v : Listener) → Stopping (step v shuts_down)
unfolding step
shuts_down-Stopping v = ground arith

listener_stops :
    (v : Listener) (before during : List Listener.Event) → IsStopped (stop_listener v before during)
unfolding run
listener_stops v before during =
    let w = run (step v cancels) before in
    let calls = step w shuts_down in
    let stopping = run-Stopping calls during (shuts_down-Stopping w) in
    let split =
      run-append (step v cancels) before (shuts_down ∷ (during ++ (deadline ∷ [])))
      ∙ run-append calls during (deadline ∷ []) in
    subst IsStopped (sym split) (deadline_ends (run calls during) stopping)

module _ (D : Database) (s : D.State) (es : List Sessions.Event) (v : Running D.State)
    (history : v.ssh_server ≡ Sessions.run D (start s) es) (m : Meanwhile D.State) where
  await_first :
      (quiet : List Part) (h : Happening) (rest : List Happening) (e : Ending)
      → await (h ∷ rest) ≡ some e
      → serve_command D (map nil_return quiet ++ (h ∷ rest)) v m ≡ some (ended D e v m)
  unfolding serve_command
  await_first quiet h rest e here = ap (λ a. ended_if D a v m) (await_quiet quiet (h ∷ rest) ∙ here)

  fails :
      (p : Part) (err : Error) (rest : List Happening)
      → err ≢ nil
      → await (returns p err ∷ rest) ≡ some (error_of p)
  unfolding await
  fails p nil rest bad = absurd (bad refl)
  fails p err rest bad = refl

  crashed_as :
      (p : Part) → ended D (error_of p) v m ≡ (crashed (error_of p), release D v m.last_flush)
  crashed_as ssh = refl
  crashed_as p = refl

  -- Servers whose Start returns without an error do not end the command. The first signal ends it well, whatever
  -- happens in the servers until the deadline: both listeners are closed and their Shutdowns have
  -- returned, and if the flush at the end of the SSH server's Shutdown crosses no other flush, the records
  -- of the SSH sessions that are left hold the whole balance of the ledger. The first error of a Start ends it
  -- with that server's error: the context is cancelled, which closes both listeners, and no Shutdown is called.
  pub serve_command_ends :
      (quiet : List Part) (rest : List Happening)
      → ((r : Running D.State) × (serve_command D (map nil_return quiet ++ (interrupted ∷ rest)) v m
            ≡ some (Serve.clean, r))
          × IsStopped r.socks_listener
          × IsStopped r.mixed_listener
          × (m.crossed ≡ none
              → recorded r.ssh_server.sessions ≡ post_all (post_all [] es) m.ssh_events))
        × ((p : Part) (err : Error)
            → err ≢ nil
            → (r : Running D.State) × (serve_command D
                  (map nil_return quiet ++ (returns p err ∷ rest))
                  v
                  m
                ≡ some (crashed (error_of p), r))
              × IsReleased v.socks_listener r.socks_listener
              × IsReleased v.mixed_listener r.mixed_listener)
  unfolding wind_down release step
  serve_command_ends quiet rest = (
    (
      wind_down D v m,
      await_first quiet interrupted rest signalled (await_interrupted rest),
      listener_stops v.socks_listener m.socks_before m.socks_during,
      listener_stops v.mixed_listener m.mixed_before m.mixed_during,
      λ alone.
          ap (λ c. recorded (shutdown D c v.ssh_server m.ssh_events).sessions) alone
          ∙ ap (λ u. recorded (shutdown D none u m.ssh_events).sessions) history
          ∙ shutdown_records D s es m.ssh_events,
    ),
    λ p err bad. (
      release D v m.last_flush,
      await_first quiet (returns p err) rest (error_of p) (fails p err rest bad)
          ∙ ap some (crashed_as p),
      (refl, refl, refl),
      (refl, refl, refl),
    ),
  )
