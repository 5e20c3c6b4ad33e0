-- ===== src/Mixed/Served.antt =====
-- A SOCKS client that comes by the mixed listener.
use libersuite_panel.Prelude.{
  ℕ, ◌+◌, ◌*◌, ◌≡◌, ◌≢◌, refl, ap, ◌∙◌, Bool, true, false, Option, none, some, List, [], ◌∷◌, ◌++◌,
  length,
}
use libersuite_panel.Prelude.Int.{pos}
use libersuite_panel.Text.{Text}
use libersuite_panel.Text.Ip.{dotted}
use libersuite_panel.Text.Decimal.{format_nat}
use libersuite_panel.Text.HostPort.{NoByte, join_host_port}
use libersuite_panel.Client.{Client, Time}
use libersuite_panel.Database.{Database}
use libersuite_panel.Socks.Wire.{World, with_input, whole}
use libersuite_panel.Socks.Auth.{has_method, auth_method_user_pass}
use libersuite_panel.Socks.Auth.Login.{Login, encode_login}
use libersuite_panel.Socks.Auth.Complete.{accepts}
use libersuite_panel.Socks.Address.{addr_type_ipv4}
use libersuite_panel.Socks.Relay.{Event}
use libersuite_panel.Socks.Request.{reply, reply_succeeded}
use libersuite_panel.Socks.Request
use libersuite_panel.Socks.Request.Replies.{connect_request}
use libersuite_panel.Socks.Request.Billing.{charged}
use libersuite_panel.Socks.Request.Connection.{handle_connection_serves}
use libersuite_panel.Mixed.{
  Config, Copy, Outcome, dropped, dial_failed, forward_failed, relayed, nil, handle_connection,
}
use libersuite_panel.Mixed.Routing.{client_stream, backend_stream, streams, first_byte_relayed}

module _ (D : Database) (network : Text → Text → Bool) (events : List Event)
    (checked stamped : Time) where
  -- What the SOCKS server makes of a connection that the mixed listener has relayed.
  abbrev pub behind : Outcome → World D.State → Option (World D.State)
  behind dropped w = none
  behind (dial_failed addr) w = none
  behind (forward_failed addr) w = none
  behind (relayed addr s) w =
      some (Request.handle_connection D network events checked stamped (with_input s.to_backend w))

  -- A client that logs in and asks for an IPv4 address through the mixed listener, in whatever chunks its bytes come
  -- after the first one, is sent to the SOCKS port and served there just as on a connection of its own: both
  -- replies are written, the row has the new connection time, and it is charged for the session.
  pub mixed_serves :
      (cfg : Config) (es : List Copy) (socks ssh : ℕ)
      → NoByte b'[' cfg.backend_host
      → NoByte b']' cfg.backend_host
      → cfg.socks_port ≡ pos socks
      → cfg.ssh_port ≡ pos ssh
      → network cfg.backend_host (format_nat socks) ≡ true
      → (w : World D.State) (l : Login) (rest : Text) → w.wire.deliveries ≡ []
      → has_method l.methods auth_method_user_pass ≡ true
      → l.username ≢ []
      → (found : Client) (reserved p q : ℕ) (ip : Text)
      → 5 ∷ client_stream es
        ≡ encode_login l ++ connect_request reserved addr_type_ipv4 ip (p ∷ q ∷ rest)
      → D.find_first w.db l.username ≡ some found
      → accepts (some found) l.password checked ≡ true
      → length ip ≡ 4
      → network (dotted ip) (format_nat (p * 0x100 + q)) ≡ true
      → let c : Client = record found { last_connection = stamped } in
        let outcome =
          handle_connection cfg network (record { n = 1; buffer = 5; err = nil }) whole es in
        (outcome
          ≡ relayed
              (join_host_port cfg.backend_host (format_nat socks))
              (streams (5 ∷ client_stream es) (backend_stream es)))
        × (behind outcome w
            ≡ some (record w {
              wire = record w.wire {
                input = rest;
                output = (w.wire.output ++ 5 ∷ 2 ∷ 1 ∷ 0 ∷ []) ++ reply reply_succeeded;
                has_deadline = false;
                closed = true;
              };
              db = charged D network events c (D.save w.db c).0;
            }))
  mixed_serves cfg es socks ssh opening closing hs hh up w l rest quiet offered named found reserved
        p q ip bytes e good four answers =
      let sent =
        first_byte_relayed cfg network es opening closing 5 socks ssh whole hs hh ∙ rw up refl in
      let v = with_input (5 ∷ client_stream es) w in
      (
        sent,
        ap (λ o. behind o w) sent
            ∙ ap some (
                handle_connection_serves D network events checked stamped v l rest quiet offered
                  named found reserved p q ip bytes e good four answers),
      )
