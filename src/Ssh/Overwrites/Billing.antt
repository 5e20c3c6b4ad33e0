-- ===== src/Ssh/Overwrites/Billing.antt =====
-- What a flush of the SSH server does to the bill of the SOCKS server.
use libersuite_panel.Prelude.{◌≡◌, Bool, true, some, List}
use libersuite_panel.Prelude.Int.{pos, ◌<ℤ◌, ◌+ℤ◌}
use libersuite_panel.Prelude.Words.{IsInt64, add64}
use libersuite_panel.Text.{Text}
use libersuite_panel.Client.{Client}
use libersuite_panel.Database.{Database, IsLawful}
use libersuite_panel.Socks.Wire.{World, ok}
use libersuite_panel.Socks.Relay.{Event}
use libersuite_panel.Socks.Request.{handle_connect_request}
use libersuite_panel.Socks.Request.Billing.{session_bytes, served_request_bills}
use libersuite_panel.Ssh.{Tracker, used_bytes, settled, flush_one}
use libersuite_panel.Ssh.Overwrites.{Pending, own_row}

module _ (D : Database) (L : IsLawful D) (network : Text → Text → Bool) (events : List Event) where
  -- A client uses both servers at once: a SOCKS request that is served adds its bytes to the row; the next flush of an
  -- SSH session with unbilled bytes, if its save succeeds, takes them away again, since it writes the
  -- traffic of its own login and its own bytes.
  pub flush_one_undoes_bill :
      (t : Tracker) (client row : Client) (w w' : World D.State) (s' : D.State)
      → client.id ≡ t.client.id
      → Pending t
      → handle_connect_request D network events client w ≡ (ok tt, w')
      → (D.add_traffic_used w.db client.id (session_bytes D network events client)).1 ≡ true
      → L.row w.db client.id ≡ some row
      → IsInt64 (row.traffic_used +ℤ session_bytes D network events client)
      → pos 0 <ℤ session_bytes D network events client
      → D.save w'.db (settled t).client ≡ (s', true)
      → (L.row w'.db t.client.id
          ≡ some (record row {
            traffic_used = row.traffic_used +ℤ session_bytes D network events client;
          }))
        × (L.row (flush_one D t w'.db).1 t.client.id
            ≡ some (record t.client { traffic_used = add64 t.client.traffic_used (used_bytes t) }))
  flush_one_undoes_bill t client row w w' s' same p served saved e fits moved h =
      let (charged, _, _) =
        served_request_bills D network events client L w w' row served saved e fits in
      (rw (← same) (charged moved), own_row D L t w'.db s' p h)
