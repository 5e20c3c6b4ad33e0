-- ===== src/Examples/Ledgers.antt =====
-- Histories of the SSH server, and channels.
use libersuite_panel.Prelude.{
  ℕ, ◌+◌, ◌^◌, ◌<◌, ◌≡◌, refl, Bool, true, false, Option, some, List, [], ◌∷◌, arith,
}
use libersuite_panel.Prelude.Int.{pos, ◌+ℤ◌}
use libersuite_panel.Prelude.Words.{add64, wrap64}
use libersuite_panel.Text.{Text}
use libersuite_panel.Database.Table.{Table, table, scan}
use libersuite_panel.Socks.Auth.Complete.{accepts}
use libersuite_panel.Ssh.{Server, nil, password_handler}
use libersuite_panel.Ssh.Sessions.{Event, reads, writes, channel_opened, transferred, start, run}
use libersuite_panel.Ssh.Ledger.{ledger_of, post_all, balance, run_refines}
use libersuite_panel.Ssh.Channels.{
  NewChannel, ForwardMsg, prohibited, relaying, not_connected, direct_tcpip_handler, Channels,
  ChannelEvent, moved, broken, channel_run,
}
use libersuite_panel.Ssh.Channels
use libersuite_panel.Ssh.Channels.Moves.{slack}
use libersuite_panel.Ssh.Channels.Admission.{direct_tcpip_handler_gate}
use libersuite_panel.Ssh.Channels.Bound.{room, session_bound}
use libersuite_panel.Ssh.Channels.Unbounded.{one_byte_each, channels_unbounded}
use libersuite_panel.Examples.{al, pw, alice, one_row, session}

abbrev history : List Event
history =
    channel_opened al alice ∷ transferred al (reads 5 nil) ∷ transferred al (writes 7 nil) ∷ []

abbrev server : Server Table
server = run table (start one_row) history

run_refines_example : ledger_of server.sessions ≡ post_all [] history
run_refines_example = run_refines table one_row history

abbrev everyone : Text → Text → Bool
everyone host port = true

abbrev unmarshal : Text → Option ForwardMsg
unmarshal extra = some (record { dest_addr = extra; dest_port = 80 })

abbrev channel : NewChannel
channel = record {
  client = (password_handler table 6 7 al pw one_row).context;
  session_id = al;
  extra_data = pw;
  accepted = true;
}

direct_tcpip_handler_gate_example :
    ((dest : Text)
      → (direct_tcpip_handler table everyone unmarshal channel server).0 ≡ relaying dest
      → accepts (scan one_row al 1) pw 6 ≡ true)
    × (accepts (scan one_row al 1) pw 6 ≡ false
        → direct_tcpip_handler table everyone unmarshal channel server ≡ (prohibited, server))
direct_tcpip_handler_gate_example =
    direct_tcpip_handler_gate table everyone unmarshal 6 7 al pw one_row channel server refl

abbrev moves : List ChannelEvent
moves = Channels.channel_opened ∷ moved 0 50 nil ∷ broken 1 ∷ []

balance-session : balance session ≡ pos 22
unfolding balance add64 wrap64 ◌+ℤ◌
balance-session = refl

abbrev opened : Channels
opened = record { tracker = session; copiers = record { reading = true; running = true } ∷ [] }

room-moves : 1000 + (slack 100 opened.copiers + room 100 moves) + 100 < 2 ^ 63
unfolding room slack
room-moves = omega arith

session_bound_example :
    (total : ℕ) × (balance (channel_run opened moves).tracker ≡ pos total)
    × (total < 1000 + (slack 100 opened.copiers + room 100 moves))
session_bound_example =
    session_bound 1000 100 (omega arith) opened 22 moves refl balance-session (omega arith)
      (omega arith) room-moves

channels_unbounded_example : balance (channel_run opened (one_byte_each 3)).tracker ≡ pos 25
channels_unbounded_example = channels_unbounded opened 22 3 balance-session (omega arith)
