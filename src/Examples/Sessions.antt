-- ===== src/Examples/Sessions.antt =====
-- Sessions of the SSH server.
use libersuite_panel.Prelude.{◌≡◌, refl, true, false, some, [], ◌∷◌, text_eq, arith}
use libersuite_panel.Prelude.Int.{◌+ℤ◌}
use libersuite_panel.Prelude.Words.{add64, wrap64}
use libersuite_panel.Database.Table.{Table, table, row, put, matching}
use libersuite_panel.Database.Table.Laws.{table-IsLawful, table-IsLawful_row}
use libersuite_panel.Panel.Clients.{success, disable_client}
use libersuite_panel.Ssh.{Server, nil, settled, flush_one}
use libersuite_panel.Ssh.Overwrites.{Pending, flush_one_undoes_disable}
use libersuite_panel.Ssh.Sessions.{
  reads, channel_opened, transferred, flushed, connection_closed, start, run, Matched, run-Matched,
}
use libersuite_panel.Examples.{al, pw, alice, one_row, session}

session-Pending : Pending session
unfolding add64 wrap64 ◌+ℤ◌
session-Pending = (refl, λ e. omega arith)

abbrev off : Table
off = (disable_client table al one_row).0

alice_row : table-IsLawful.row one_row 1 ≡ some alice
unfolding row
alice_row = table-IsLawful_row one_row 1

disable_done : disable_client table al one_row ≡ (off, success)
unfolding disable_client matching row text_eq
disable_done = refl

flush_one_undoes_disable_example :
    (table-IsLawful.row off 1 ≡ some (record alice { enabled = false }))
    × ((table-IsLawful.row (flush_one table session off).1 1 ≡ some (settled session).client)
        × ((settled session).client.enabled ≡ true))
flush_one_undoes_disable_example =
    flush_one_undoes_disable table table-IsLawful session one_row off
      (put off 1 (settled session).client) alice session-Pending refl alice_row refl disable_done
      refl

abbrev server : Server Table
server = record {
  sessions = (al, session) ∷ [];
  connections = al ∷ [];
  watchers = al ∷ [];
  db = one_row;
}

run-Matched_example : Matched (
    run table (start one_row) (
      channel_opened al alice
      ∷ transferred al (reads 5 nil)
      ∷ flushed
      ∷ channel_opened pw alice
      ∷ connection_closed al
      ∷ []))
run-Matched_example = run-Matched table one_row (
    channel_opened al alice
    ∷ transferred al (reads 5 nil)
    ∷ flushed
    ∷ channel_opened pw alice
    ∷ connection_closed al
    ∷ [])
