-- ===== src/Socks/Request/Connection.antt =====
-- A connection from its first byte to its end.
use libersuite_panel.Prelude.{
  ℕ, ◌+◌, ◌*◌, ◌≡◌, ◌≢◌, refl, ap, ◌∙◌, Bool, true, false, some, List, [], ◌∷◌, ◌++◌, length,
}
use libersuite_panel.Text.{Text}
use libersuite_panel.Text.Ip.{dotted}
use libersuite_panel.Text.Decimal.{format_nat}
use libersuite_panel.Client.{Client, Time}
use libersuite_panel.Database.{Database}
use libersuite_panel.Socks.Wire.{World}
use libersuite_panel.Socks.Auth.{has_method, auth_method_user_pass}
use libersuite_panel.Socks.Auth.Login.{Login, encode_login}
use libersuite_panel.Socks.Auth.Complete.{accepts, authenticate-accepts, authenticate_rejects}
use libersuite_panel.Socks.Address.{addr_type_ipv4}
use libersuite_panel.Socks.Relay.{Event}
use libersuite_panel.Socks.Request.{
  account, reply, reply_succeeded, handle_connect_request, handle_connection, with_deadline,
  after_auth, close_conn,
}
use libersuite_panel.Socks.Request.Replies.{connect_request, ipv4_dialled}
use libersuite_panel.Socks.Request.Billing.{charged}

module _ (D : Database) (network : Text → Text → Bool) (events : List Event)
    (checked stamped : Time) (w : World D.State) (l : Login) (rest : Text)
    (quiet : w.wire.deliveries ≡ []) (offered : has_method l.methods auth_method_user_pass ≡ true)
    (named : l.username ≢ []) where
  -- A login that is not accepted ends the connection: the table is as it was, and of what the peer sent
  -- after it nothing is read and nothing is answered.
  pub handle_connection_rejects :
      w.wire.input ≡ encode_login l ++ rest
      → accepts (D.find_first w.db l.username) l.password checked ≡ false
      → handle_connection D network events checked stamped w ≡ record w {
        wire = record w.wire {
          input = rest;
          output = w.wire.output ++ 5 ∷ 2 ∷ 1 ∷ 1 ∷ [];
          has_deadline = true;
          closed = true;
        };
      }
  unfolding handle_connection
  handle_connection_rejects input wrong =
      ap (λ r. close_conn D network events (after_auth D network events r))
        (authenticate_rejects D checked stamped (with_deadline D network events true w) l rest quiet
          input offered named wrong)

  -- A login that is accepted, with a request for an IPv4 address that answers: both are answered, the deadline is
  -- lifted, the connection is closed in the end, and the table is the one with the new connection
  -- time, charged for the session.
  pub handle_connection_serves :
      (found : Client) (reserved p q : ℕ) (ip : Text)
      → w.wire.input ≡ encode_login l ++ connect_request reserved addr_type_ipv4 ip (p ∷ q ∷ rest)
      → D.find_first w.db l.username ≡ some found
      → accepts (some found) l.password checked ≡ true
      → length ip ≡ 4
      → network (dotted ip) (format_nat (p * 0x100 + q)) ≡ true
      → let c : Client = record found { last_connection = stamped } in
        handle_connection D network events checked stamped w ≡ record w {
          wire = record w.wire {
            input = rest;
            output = (w.wire.output ++ 5 ∷ 2 ∷ 1 ∷ 0 ∷ []) ++ reply reply_succeeded;
            has_deadline = false;
            closed = true;
          };
          db = charged D network events c (D.save w.db c).0;
        }
  unfolding handle_connection account
  handle_connection_serves found reserved p q ip input e good four answers =
      let c : Client = record found { last_connection = stamped } in
      let request = connect_request reserved addr_type_ipv4 ip (p ∷ q ∷ rest) in
      let v : World D.State = record w {
        wire = record w.wire {
          input = request;
          output = w.wire.output ++ 5 ∷ 2 ∷ 1 ∷ 0 ∷ [];
          has_deadline = false;
        };
        db = (D.save w.db c).0;
      } in
      let answered : World D.State = record v {
        wire = record v.wire { input = rest; output = v.wire.output ++ reply reply_succeeded };
      } in
      let dialled : handle_connect_request D network events c v
          ≡ account D network events c answered =
        ipv4_dialled D network events c v quiet reserved p q rest ip four refl ∙ rw answers refl in
      ap (λ r. close_conn D network events (after_auth D network events r))
        (authenticate-accepts D checked stamped (with_deadline D network events true w) l request
          quiet input offered named found e good)
      ∙ ap (λ r. close_conn D network events r.1) dialled
