-- ===== src/Ssh/Channels.antt =====
-- directTCPIPHandler of sshserver/server.go: a channel is admitted, its destination is dialled, and two
-- copiers move its bytes, which count for the whole session. The channel's payload and the acceptance of
-- a channel belong to the ssh library.
pub mod Admission
pub mod Moves
pub mod Bound
pub mod Unbounded
use libersuite_panel.Prelude.{
  ℕ, zero, suc, Bool, true, false, Option, none, some, List, [], ◌∷◌, if◌then◌else◌,
}
use libersuite_panel.Text.{Text}
use libersuite_panel.Client.{Client}
use libersuite_panel.Database.{Database}
use libersuite_panel.Socks.Address.{host_colon_port}
use libersuite_panel.Socks.Request.{dial}
use libersuite_panel.Ssh.{
  Tracker, Server, IoError, nil, eof, short_write, underlying, traffic_read, traffic_write,
  flush_one, get_or_create_session,
}

-- The two fields of drtMsg that are used.
pub record ForwardMsg : Type 0 where
  pub dest_addr : Text
  pub dest_port : ℕ

-- A new channel: what the connection's context holds, the payload, and whether Accept succeeds.
pub record NewChannel : Type 0 where
  pub client : Option Client
  pub session_id : Text
  pub extra_data : Text
  pub accepted : Bool

-- How the handler goes on: a rejection, an error, or the copiers.
pub data Opened : Type 0 where
  prohibited connection_failed not_accepted : Opened
  not_connected : Text → Opened
  relaying : Text → Opened

module _ (D : Database) (network : Text → Text → Bool) (unmarshal : Text → Option ForwardMsg) where
  abbrev pub dest_of : ForwardMsg → Text
  dest_of msg = host_colon_port msg.dest_addr msg.dest_port

  unfoldable pub connect_channel : Option ForwardMsg → Bool → Opened
  connect_channel none accepted = connection_failed
  connect_channel (some msg) accepted =
      if accepted
      then (if dial network (dest_of msg)
          then relaying (dest_of msg)
          else not_connected (dest_of msg))
      else not_accepted

  -- The session is made before the payload is looked at.
  abbrev pub with_client : Option Client → NewChannel → Server D.State → Opened × Server D.State
  with_client none ch v = (prohibited, v)
  with_client (some client) ch v = (
    connect_channel (unmarshal ch.extra_data) ch.accepted,
    (get_or_create_session D ch.session_id client v).1,
  )

  unfoldable pub direct_tcpip_handler : NewChannel → Server D.State → Opened × Server D.State
  unfolding connect_channel
  direct_tcpip_handler ch v = with_client ch.client ch v

-- One of the two io.Copy of a channel: from the channel by a trafficReader, or to it by a trafficWriter.
pub record Copier : Type 0 where
  pub reading : Bool
  pub running : Bool

abbrev pub no_error : IoError → Bool
no_error nil = true
no_error eof = false
no_error short_write = false
no_error underlying = false

abbrev pub counted : Bool → ℕ → IoError → Tracker → Tracker × IoError
counted true n err t = traffic_read t n err
counted false n err t = traffic_write t n err

-- A copier that runs moves n bytes, and returns at the first error.
unfoldable pub pump : ℕ → IoError → Tracker → Copier → Tracker × Copier
unfolding traffic_read traffic_write
pump n err t c =
    let (t', e) = counted c.reading n err t in
    if c.running then (t', record c { running = no_error e }) else (t, c)

unfoldable pub advance : ℕ → ℕ → IoError → Tracker → List Copier → Tracker × List Copier
unfolding pump
advance i n err t [] = (t, [])
advance zero n err t (c ∷ cs) = let (t', c') = pump n err t c in (t', c' ∷ cs)
advance (suc i) n err t (c ∷ cs) = let (t', cs') = advance i n err t cs in (t', c ∷ cs')

-- What happens to the channels of one session: a channel is opened, a copier moves n bytes, the other side
-- of a copier fails. The steps of the flushes fall between such histories.
pub data ChannelEvent : Type 0 where
  channel_opened : ChannelEvent
  moved : ℕ → ℕ → IoError → ChannelEvent
  broken : ℕ → ChannelEvent

unfoldable pub halt : ℕ → List Copier → List Copier
halt i [] = []
halt zero (c ∷ cs) = record c { running = false } ∷ cs
halt (suc i) (c ∷ cs) = c ∷ halt i cs

-- A session's tracker, and the copiers of its channels, the newest first.
pub record Channels : Type 0 where
  pub tracker : Tracker
  pub copiers : List Copier

abbrev pub new_copiers : List Copier → List Copier
new_copiers cs =
    record { reading = true; running = true } ∷ record { reading = false; running = true } ∷ cs

unfoldable pub channel_step : Channels → ChannelEvent → Channels
unfolding advance halt
channel_step v channel_opened = record v { copiers = new_copiers v.copiers }
channel_step v (moved i n err) =
    let (t, cs) = advance i n err v.tracker v.copiers in record { tracker = t; copiers = cs }
channel_step v (broken i) = record v { copiers = halt i v.copiers }

unfoldable pub channel_run : Channels → List ChannelEvent → Channels
channel_run v [] = v
channel_run v (e ∷ es) = channel_run (channel_step v e) es
