-- ===== src/Ssh/Sockets.antt =====
-- The sockets of a session of sshserver/server.go: what directTCPIPHandler opens, stores in `conns` and closes, and
-- what watchSession closes at the end of the session. The range of watchSession over `conns` is one step.
pub mod Seen
pub mod Kept
pub mod Swept
pub mod Late
use libersuite_panel.Prelude.{
  ℕ, zero, suc, ◌≡◌, Bool, true, false, not, ◌&&◌, ◌==◌, leb, List, [], ◌∷◌, ◌++◌, map,
  if◌then◌else◌,
}

-- How far a handler is: it has the tracker, a channel, a target, one or both of these in `conns` (with two copiers
-- from then on), or it has returned.
pub data Stage : Type 0 where
  asked accepted dialled target_stored relaying returned : Stage

abbrev pub rank : Stage → ℕ
rank asked = 0
rank accepted = 1
rank dialled = 2
rank target_stored = 3
rank relaying = 4
rank returned = 5

-- Of a socket: whether it is open on this side, and whether `conns` has it. `connected` is the client's
-- connection; `upload` and `download` are the copiers from the channel and to it.
pub record Handler : Type 0 where
  pub stage : Stage
  pub connected : Bool
  pub channel_open : Bool
  pub target_open : Bool
  pub channel_listed : Bool
  pub target_listed : Bool
  pub upload : Bool
  pub download : Bool

abbrev pub new_handler : Handler
new_handler = record {
  stage = asked;
  connected = true;
  channel_open = false;
  target_open = false;
  channel_listed = false;
  target_listed = false;
  upload = false;
  download = false;
}

-- What a handler does next: Accept, which fails and ends it on a connection that has ended; a return because of the payload, of Accept or of the dial; the dial; the two
-- Stores; the end of a copier because of the channel or of the target; the error of the reads whose socket is
-- closed or whose connection has ended; the return after both copiers.
pub data Act : Type 0 where
  accepts gives_up dials stores_target stores_channel : Act
  channel_ends target_ends notices returns : Act

abbrev pub on : Stage → Handler → Handler → Handler
on st new h = if rank h.stage == rank st then new else h

-- The deferred calls, the last one first.
abbrev pub undone : Handler → Handler
undone h = record h {
  stage = returned;
  channel_listed = false;
  target_listed = false;
  target_open = false;
  channel_open = false;
}

unfoldable pub act : Act → Handler → Handler
act accepts h =
    on asked (if h.connected then record h { stage = accepted; channel_open = true } else undone h)
      h
act gives_up h = if leb (rank h.stage) 1 then undone h else h
act dials h = on accepted (record h { stage = dialled; target_open = true }) h
act stores_target h = on dialled (record h { stage = target_stored; target_listed = true }) h
act stores_channel h =
    on target_stored
      (record h { stage = relaying; channel_listed = true; upload = true; download = true }) h
act channel_ends h = record h { upload = false }
act target_ends h = record h { download = false }
act notices h = record h {
  upload = h.upload && h.connected && h.channel_open;
  download = h.download && h.target_open;
}
act returns h = on relaying (if not h.upload && not h.download then undone h else h) h

-- The connection has ended, and every socket that is in `conns` is closed.
unfoldable pub sweep : Handler → Handler
sweep h = record h {
  connected = false;
  channel_open = h.channel_open && not h.channel_listed;
  target_open = h.target_open && not h.target_listed;
}

unfoldable pub modify_at : ℕ → (Handler → Handler) → List Handler → List Handler
modify_at i f [] = []
modify_at zero f (h ∷ hs) = f h ∷ hs
modify_at (suc i) f (h ∷ hs) = h ∷ modify_at i f hs

-- The handlers that got the session's tracker, and whether watchSession is through.
pub record Session : Type 0 where
  pub handlers : List Handler
  pub is_over : Bool

pub data Event : Type 0 where
  opens sweeps : Event
  at : ℕ → Act → Event

-- A session that is over is in no map any more: nobody gets its tracker, and it is not watched again.
unfoldable pub step : Session → Event → Session
unfolding act sweep modify_at
step v opens = if v.is_over then v else record v { handlers = v.handlers ++ (new_handler ∷ []) }
step v sweeps = if v.is_over then v else record { handlers = map sweep v.handlers; is_over = true }
step v (at i a) = record v { handlers = modify_at i (act a) v.handlers }

unfoldable pub run : Session → List Event → Session
run v [] = v
run v (e ∷ es) = run (step v e) es

abbrev pub new_session : Session
new_session = record { handlers = []; is_over = false }
