-- ===== src/Examples/Requests.antt =====
-- Requests, what they cost, and the listener in front of both servers.
use libersuite_panel.Prelude.{
  ℕ, ◌+◌, ◌*◌, ◌<◌, ◌≡◌, ◌≢◌, refl, Bool, true, false, some, List, [], ◌∷◌, ◌∙◌, arith, text_eq,
}
use libersuite_panel.Prelude.Int.{pos, ◌+ℤ◌, ◌<ℤ◌, ◌≤ℤ◌}
use libersuite_panel.Prelude.Words.{add64, wrap64}
use libersuite_panel.Text.{Text}
use libersuite_panel.Text.Ip.{ipv6_text, is_mapped}
use libersuite_panel.Text.Decimal.{format_nat}
use libersuite_panel.Text.HostPort.{contains_byte, join_host_port}
use libersuite_panel.Database.Table.{Table, table, row}
use libersuite_panel.Database.Table.Laws.{table-IsLawful, table-IsLawful_row}
use libersuite_panel.Socks.Wire.{World, ok, err, connect_failed, whole}
use libersuite_panel.Socks.Quota.{quota_write}
use libersuite_panel.Socks.Relay.{Event, wrote, upstream, downstream, step, run, relay}
use libersuite_panel.Socks.Relay.Bound.{relay_bound}
use libersuite_panel.Socks.Address.{host_colon_port}
use libersuite_panel.Socks.Request.{handle_connect_request, reply, reply_general_failure, account}
use libersuite_panel.Socks.Request.Replies.{connect_request, ipv6_never_dialled, domain_dialled}
use libersuite_panel.Socks.Request.Billing.{session_bytes, served_request_bills}
use libersuite_panel.Mixed.{
  Config, nil, from_client, from_backend, ended, Copy, handle_connection, relayed,
}
use libersuite_panel.Mixed.Routing.{first_byte_relayed, streams, client_stream, backend_stream}
use libersuite_panel.Ssh.{used_bytes, settled, flush_one}
use libersuite_panel.Ssh.Overwrites.{Pending}
use libersuite_panel.Ssh.Overwrites.Billing.{flush_one_undoes_bill}
use libersuite_panel.Database.Table.{put}
use libersuite_panel.Examples.{session, al, alice, one_row, world}

abbrev everyone : Text → Text → Bool
everyone host port = true

-- Two chunks, one in each direction.
abbrev traffic : List Event
traffic = wrote upstream 100 false ∷ wrote downstream 200 false ∷ []

abbrev ip6 : Text
ip6 = 0x20 ∷ 0x01 ∷ 0x0d ∷ 0xb8 ∷ 0 ∷ 0 ∷ 0 ∷ 0 ∷ 0 ∷ 0 ∷ 0 ∷ 0 ∷ 0 ∷ 0 ∷ 0 ∷ 1 ∷ []

abbrev ip6_input : Text
ip6_input = connect_request 0 4 ip6 (1 ∷ 187 ∷ [])

abbrev name_input : Text
name_input = connect_request 0 3 (2 ∷ al) (1 ∷ 187 ∷ [])

abbrev failed : World Table
failed = record (world []) {
  wire = record (world []).wire { output = reply reply_general_failure };
}

not_mapped : is_mapped ip6 ≡ false
unfolding text_eq
not_mapped = refl

ipv6_never_dialled_example :
    handle_connect_request table everyone traffic alice (world ip6_input)
    ≡ (err (connect_failed (host_colon_port (ipv6_text ip6) 443)), failed)
ipv6_never_dialled_example =
    ipv6_never_dialled table everyone traffic alice (world ip6_input) refl 0 1 187 [] ip6 refl
      not_mapped refl

abbrev answered : World Table
answered = record (world []) { wire = record (world []).wire { output = reply 0 } }

no_colon : contains_byte b':' al ≡ false
unfolding contains_byte
no_colon = refl

no_opening : contains_byte b'[' al ≡ false
unfolding contains_byte
no_opening = refl

no_closing : contains_byte b']' al ≡ false
unfolding contains_byte
no_closing = refl

name_dialled :
    handle_connect_request table everyone traffic alice (world name_input)
    ≡ account table everyone traffic alice answered
name_dialled =
    domain_dialled table everyone traffic alice (world name_input) refl 0 1 187 [] al (λ e. cc)
      no_colon no_opening no_closing refl

session_bytes_300 : session_bytes table everyone traffic alice ≡ pos 300
unfolding relay run step quota_write add64 wrap64 ◌+ℤ◌
session_bytes_300 = refl

abbrev billed : World Table
billed = (account table everyone traffic alice answered).1

accounted : account table everyone traffic alice answered ≡ (ok tt, billed)
unfolding account
accounted = refl

served : handle_connect_request table everyone traffic alice (world name_input) ≡ (ok tt, billed)
served = name_dialled ∙ accounted

alice_row : table-IsLawful.row one_row 1 ≡ some alice
unfolding row
alice_row = table-IsLawful_row one_row 1

new_total : pos 10 +ℤ session_bytes table everyone traffic alice ≡ pos 310
unfolding ◌+ℤ◌
new_total = rw session_bytes_300 refl

served_request_bills_example :
    (pos 0 <ℤ session_bytes table everyone traffic alice
      → table-IsLawful.row billed.db 1
        ≡ some
            (record alice { traffic_used = pos 10 +ℤ session_bytes table everyone traffic alice }))
    × ((j : ℕ) → 1 ≢ j → table-IsLawful.row billed.db j ≡ table-IsLawful.row one_row j)
    × (session_bytes table everyone traffic alice ≤ℤ pos 0 → billed.db ≡ one_row)
served_request_bills_example =
    served_request_bills table everyone traffic alice table-IsLawful (world name_input) billed alice
      served refl alice_row (rw new_total (omega arith))

relay_bound_example :
    (count : ℕ) × (relay (record { base_used = pos 10; limit = pos 1000 }) traffic ≡ pos count)
    × (10 + count < 1000 + 2 * 256)
relay_bound_example = relay_bound 10 1000 256 (omega arith) (omega arith) traffic (omega arith)

abbrev config : Config
config = record { ssh_port = pos 22; socks_port = pos 1080; backend_host = al }

abbrev copies : List Copy
copies = from_client (1 ∷ 2 ∷ []) ∷ from_backend (9 ∷ []) ∷ ended ∷ []

first_byte_relayed_example :
    handle_connection config everyone (record { n = 1; buffer = 5; err = nil }) whole copies
    ≡ relayed
        (join_host_port al (format_nat 1080))
        (streams (5 ∷ client_stream copies) (backend_stream copies))
first_byte_relayed_example =
    first_byte_relayed config everyone copies no_opening no_closing 5 1080 22 whole refl refl

session-Pending : Pending session
unfolding add64 wrap64 ◌+ℤ◌
session-Pending = (refl, λ e. omega arith)

flush_one_undoes_bill_example :
    (table-IsLawful.row billed.db 1
      ≡ some (record alice { traffic_used = pos 10 +ℤ session_bytes table everyone traffic alice }))
    × (table-IsLawful.row (flush_one table session billed.db).1 1
        ≡ some (record alice { traffic_used = add64 (pos 10) (used_bytes session) }))
flush_one_undoes_bill_example =
    flush_one_undoes_bill table table-IsLawful everyone traffic session alice alice
      (world name_input) billed (put billed.db 1 (settled session).client) refl session-Pending
      served refl alice_row (rw new_total (omega arith)) (rw session_bytes_300 (ground arith)) refl
