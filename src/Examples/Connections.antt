-- ===== src/Examples/Connections.antt =====
-- Whole connections of the SOCKS server.
use libersuite_panel.Prelude.{◌≡◌, refl, Bool, true, false, some, List, [], ◌∷◌, ◌++◌, text_eq}
use libersuite_panel.Text.{Text}
use libersuite_panel.Client.{Client, is_active}
use libersuite_panel.Database.Table.{table, scan, row, put}
use libersuite_panel.Socks.Auth.{has_method}
use libersuite_panel.Socks.Auth.Login.{encode_login}
use libersuite_panel.Socks.Auth.Complete.{accepts}
use libersuite_panel.Socks.Relay.{Event, wrote, upstream}
use libersuite_panel.Socks.Request.{reply, handle_connection}
use libersuite_panel.Socks.Request.Replies.{connect_request}
use libersuite_panel.Socks.Request.Billing.{charged}
use libersuite_panel.Database.Table.Laws.{table-IsLawful}
use libersuite_panel.Socks.Request.Billing.Frame.{Framed, handle_connection_frame}
use libersuite_panel.Socks.Request.Connection.{handle_connection_rejects, handle_connection_serves}
use libersuite_panel.Prelude.{false, drop}
use libersuite_panel.Prelude.Int.{pos}
use libersuite_panel.Text.Decimal.{format_nat}
use libersuite_panel.Text.HostPort.{contains_byte, join_host_port}
use libersuite_panel.Socks.Wire.{whole}
use libersuite_panel.Mixed.{Config, Copy, from_client, ended, relayed}
use libersuite_panel.Mixed
use libersuite_panel.Mixed.Routing.{client_stream, backend_stream, streams}
use libersuite_panel.Mixed.Served.{behind, mixed_serves}
use libersuite_panel.Examples.{al, pw, alice, one_row, login, wrong_login, world}

abbrev everyone : Text → Text → Bool
everyone host port = true

abbrev traffic : List Event
traffic = wrote upstream 100 false ∷ []

abbrev ip4 : Text
ip4 = 192 ∷ 0 ∷ 2 ∷ 1 ∷ []

abbrev served_input : Text
served_input = encode_login login ++ connect_request 0 1 ip4 (1 ∷ 187 ∷ 9 ∷ [])

abbrev rejected_input : Text
rejected_input = encode_login wrong_login ++ connect_request 0 1 ip4 (1 ∷ 187 ∷ [])

abbrev stamped_alice : Client
stamped_alice = record alice { last_connection = 7 }

found_alice : scan one_row al 1 ≡ some alice
unfolding scan row text_eq
found_alice = refl

alice_accepted : accepts (some alice) pw 6 ≡ true
unfolding text_eq is_active
alice_accepted = refl

alice_rejected : accepts (scan one_row al 1) al 6 ≡ false
unfolding scan row text_eq
alice_rejected = refl

login_offered : has_method login.methods 2 ≡ true
unfolding has_method
login_offered = refl

wrong_offered : has_method wrong_login.methods 2 ≡ true
unfolding has_method
wrong_offered = refl

handle_connection_rejects_example :
    handle_connection table everyone traffic 6 7 (world rejected_input)
    ≡ record (world (connect_request 0 1 ip4 (1 ∷ 187 ∷ []))) {
      wire = record (world (connect_request 0 1 ip4 (1 ∷ 187 ∷ []))).wire {
        output = 5 ∷ 2 ∷ 1 ∷ 1 ∷ [];
        closed = true;
      };
    }
handle_connection_rejects_example =
    handle_connection_rejects table everyone traffic 6 7 (world rejected_input) wrong_login
      (connect_request 0 1 ip4 (1 ∷ 187 ∷ [])) refl wrong_offered (λ e. cc) refl alice_rejected

handle_connection_serves_example :
    handle_connection table everyone traffic 6 7 (world served_input) ≡ record (world (9 ∷ [])) {
      wire = record (world (9 ∷ [])).wire {
        output = (5 ∷ 2 ∷ 1 ∷ 0 ∷ []) ++ reply 0;
        has_deadline = false;
        closed = true;
      };
      db = charged table everyone traffic stamped_alice (put one_row 1 stamped_alice);
    }
handle_connection_serves_example =
    handle_connection_serves table everyone traffic 6 7 (world served_input) login (9 ∷ []) refl
      login_offered (λ e. cc) alice 0 1 187 ip4 refl found_alice alice_accepted refl refl

-- A SOCKS client of the mixed listener, whose bytes come in two chunks after the first one.
abbrev mixed_config : Config
mixed_config = record { ssh_port = pos 22; socks_port = pos 1080; backend_host = al }

abbrev chunks : List Copy
chunks =
    from_client (drop 1 (encode_login login))
    ∷ from_client (connect_request 0 1 ip4 (1 ∷ 187 ∷ 9 ∷ []))
    ∷ ended
    ∷ []

chunks_joined : 5 ∷ client_stream chunks ≡ served_input
unfolding client_stream
chunks_joined = refl

no_opening : contains_byte b'[' al ≡ false
unfolding contains_byte
no_opening = refl

no_closing : contains_byte b']' al ≡ false
unfolding contains_byte
no_closing = refl

mixed_serves_example :
    let outcome =
      Mixed.handle_connection mixed_config everyone
        (record { n = 1; buffer = 5; err = Mixed.nil })
        whole
        chunks in
    (outcome
      ≡ relayed
          (join_host_port al (format_nat 1080))
          (streams (5 ∷ client_stream chunks) (backend_stream chunks)))
    × (behind table everyone traffic 6 7 outcome (world [])
        ≡ some (record (world (9 ∷ [])) {
          wire = record (world (9 ∷ [])).wire {
            output = (5 ∷ 2 ∷ 1 ∷ 0 ∷ []) ++ reply 0;
            has_deadline = false;
            closed = true;
          };
          db = charged table everyone traffic stamped_alice (put one_row 1 stamped_alice);
        }))
mixed_serves_example =
    mixed_serves table everyone traffic 6 7 mixed_config chunks 1080 22 no_opening no_closing refl
      refl refl (world []) login (9 ∷ []) refl login_offered (λ e. cc) alice 0 1 187 ip4
      chunks_joined found_alice alice_accepted refl refl

handle_connection_frame_example :
    Framed table table-IsLawful everyone traffic 6 7
      (world served_input)
      (handle_connection table everyone traffic 6 7 (world served_input)).db
handle_connection_frame_example =
    handle_connection_frame table table-IsLawful everyone traffic 6 7 (world served_input)
