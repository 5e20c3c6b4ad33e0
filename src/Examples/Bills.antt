-- ===== src/Examples/Bills.antt =====
-- Sessions of two clients, flushed in any order and billed to the end.

use mathlib.Core.List.Perm
use libersuite_panel.Prelude.{◌≡◌, refl, some, List, [], ◌∷◌, inl, inr, All, text_eq, arith}
use libersuite_panel.Prelude.Int.{pos}
use libersuite_panel.Prelude.Words.{add64}
use libersuite_panel.Client.{Client, is_active}
use libersuite_panel.Database.Table.{Table, table, scan, row}
use libersuite_panel.Database.Table.Laws.{table-IsLawful}
use libersuite_panel.Ssh.{Tracker, Server, nil, flush_all, watch_session, password_handler}
use libersuite_panel.Ssh.Sessions.{
  Event, channel_opened, transferred, flushed, connection_closed, reads, writes, start, run,
}
use libersuite_panel.Ssh.Flush.Order.{Entry, ClientsApart, flush_rows, flush_all_order}
use libersuite_panel.Ssh.Bill.Record.{GoesOn, all_moved}
use libersuite_panel.Ssh.Bill.Whole.{session_bills}
use libersuite_panel.Examples.{al, pw, alice, one_row, session}

abbrev bob : Client
bob = record alice { id = 2; username = pw }

abbrev bob_session : Tracker
bob_session = record session { client = bob }

abbrev both : List Entry
both = (al, session) ∷ (pw, bob_session) ∷ []

abbrev other_order : List Entry
other_order = (pw, bob_session) ∷ (al, session) ∷ []

abbrev server : Server Table
server = record {
  sessions = both;
  connections = al ∷ pw ∷ [];
  watchers = al ∷ pw ∷ [];
  db = one_row;
}

both-ClientsApart : ClientsApart both
both-ClientsApart = ((λ e. omega arith), ((λ e. omega arith), tt), ((λ e. omega arith), tt, tt))

flush_all_order_example :
    (table-IsLawful.row (flush_all table server).db 2
      ≡ flush_rows both (table-IsLawful.row one_row) 2)
    × (table-IsLawful.row (flush_all table (record server { sessions = other_order })).db 2
        ≡ table-IsLawful.row (flush_all table server).db 2)
flush_all_order_example =
    flush_all_order table table-IsLawful (λ s c. refl) server other_order
      (Perm.swap (pw, bob_session) (al, session) []) both-ClientsApart 2

abbrev stamped : Client
stamped = record alice { last_connection = 7 }

admitted : (password_handler table 6 7 al pw one_row).context ≡ some stamped
unfolding password_handler scan row text_eq is_active
admitted = refl

-- Alice's session is flushed once, while one of bob's opens and ends.
abbrev history : List Event
history =
    transferred al (reads 5 nil)
    ∷ channel_opened pw bob
    ∷ flushed
    ∷ channel_opened al stamped
    ∷ transferred pw (writes 9 nil)
    ∷ connection_closed pw
    ∷ transferred al (writes 7 nil)
    ∷ []

goes_on : All (GoesOn al stamped) history
unfolding text_eq
goes_on = (
  tt,
  (inr (refl, ((λ e. omega arith), (λ e. omega arith))), (tt, (inl refl, (tt, (refl, (tt, tt)))))),
)

session_bills_example :
    table-IsLawful.row
      (watch_session table al (
        run table
          (start (password_handler table 6 7 al pw one_row).table)
          (channel_opened al stamped ∷ history))).db
      1
    ≡ some (record stamped { traffic_used = add64 (pos 10) (pos (all_moved al history)) })
session_bills_example =
    session_bills table table-IsLawful (λ s c. refl) 6 7 al pw one_row stamped al history admitted
      (omega arith, omega arith) goes_on
