-- ===== src/Examples/Sockets.antt =====
-- Sessions of one handler whose target is stored, or not, when the session ends.
use libersuite_panel.Prelude.{
  ◌≡◌, ◌≢◌, ◌≤◌, refl, false, true, some, List, [], ◌∷◌, ◌++◌, get_elem?, arith,
}
use libersuite_panel.Ssh.Sockets.{
  Handler, returned, rank, accepted, target_stored, Event, opens, sweeps, at, accepts, dials,
  stores_target, stores_channel, notices, returns, step, run, new_session, new_handler,
}
use libersuite_panel.Ssh.Sockets.Kept.{IsKept, conns-IsKept}
use libersuite_panel.Ssh.Sockets.Swept.{rest, gone_handler, swept_returns}
use libersuite_panel.Ssh.Sockets.Late.{late_target_stays}

abbrev accepting_one : List Event
accepting_one = opens ∷ at 0 accepts ∷ []

abbrev storing_one : List Event
storing_one = opens ∷ at 0 accepts ∷ at 0 dials ∷ at 0 stores_target ∷ []

abbrev stored : Handler
stored = record new_handler {
  stage = target_stored;
  channel_open = true;
  target_open = true;
  target_listed = true;
}

stored_last : get_elem? (run new_session storing_one).handlers 0 ≡ some stored
unfolding run step
stored_last = refl

stored_runs : (run new_session storing_one).is_over ≡ false
unfolding run step
stored_runs = refl

conns-IsKept_example : IsKept stored
conns-IsKept_example = conns-IsKept storing_one 0 stored stored_last

swept_returns_example :
    get_elem? (run (run new_session (storing_one ++ (sweeps ∷ []))) (rest 0)).handlers 0
    ≡ some gone_handler
swept_returns_example = swept_returns storing_one [] 0 stored stored_runs stored_last refl

abbrev waiting_one : Handler
waiting_one = record new_handler { stage = accepted; channel_open = true }

waiting_last : get_elem? (run new_session accepting_one).handlers 0 ≡ some waiting_one
unfolding run step
waiting_last = refl

waiting_runs : (run new_session accepting_one).is_over ≡ false
unfolding run step
waiting_runs = refl

abbrev afterwards : List Event
afterwards =
    at 0 dials ∷ at 0 stores_target ∷ at 0 stores_channel ∷ at 0 notices ∷ at 0 returns ∷ []

late_target_stays_example :
    (h : Handler) × (get_elem? (run new_session (accepting_one ++ (sweeps ∷ afterwards))).handlers 0
      ≡ some h)
    × (h.stage ≢ returned)
    × (2 ≤ rank h.stage → h.target_open ≡ true)
late_target_stays_example =
    late_target_stays accepting_one afterwards 0 waiting_one waiting_runs waiting_last (omega arith)
      (omega arith) ((λ e. refl), ((λ e. refl), ((λ e. refl), ((λ e. refl), ((λ e. refl), tt)))))
