-- ===== src/Socks/Request.antt =====
-- handleConnectRequest, writeReply and handleConnection.
pub mod Replies
pub mod Billing
pub mod Connection
pub mod Overdraw
use libersuite_panel.Prelude.{ℕ, Bool, true, false, List, [], ◌∷◌, none, some, ◌==◌, if◌then◌else◌}
use libersuite_panel.Prelude.Int.{ℤ, pos, ltb_ℤ}
use libersuite_panel.Text.{Text}
use libersuite_panel.Text.HostPort.{split_host_port}
use libersuite_panel.Client.{Client, Time}
use libersuite_panel.Database.{Database}
use libersuite_panel.Socks.Wire.{
  Error, bad_request_version, unsupported_command, connect_failed, Result, ok, err, World, M, fail,
  continue, ◌>>=◌, ◌>>◌, read_full, write, refuse, guard, byte_at,
}
use libersuite_panel.Socks.Auth.{socks_version5, authenticate}
use libersuite_panel.Socks.Address.{addr_type_ipv4, read_target_address}
use libersuite_panel.Socks.Relay.{Event, relay}

abbrev pub socks_cmd_connect : ℕ
socks_cmd_connect = 0x01

abbrev pub reply_succeeded : ℕ
reply_succeeded = 0x00

abbrev pub reply_general_failure : ℕ
reply_general_failure = 0x01

abbrev pub reply_cmd_not_support : ℕ
reply_cmd_not_support = 0x07

abbrev pub reply_addr_not_support : ℕ
reply_addr_not_support = 0x08

-- The message of writeReply.
abbrev pub reply : ℕ → Text
reply rep = socks_version5 ∷ rep ∷ 0x00 ∷ addr_type_ipv4 ∷ 0 ∷ 0 ∷ 0 ∷ 0 ∷ 0 ∷ 0 ∷ []

-- DialContext reads the address into host and port first; `network` tells which targets answer.
unfoldable pub dial : (Text → Text → Bool) → Text → Bool
dial network address = elim (split_host_port address) [
  | none ↦ false
  | some (host, port) ↦ network host port
]

-- An error of the step is answered with the reply, and returned.
abbrev pub refused : {S A : Type 0} → ℕ → Result A × World S → Result A × World S
refused rep (ok a, w) = (ok a, w)
refused rep (err e, w) = refuse (reply rep) e w

unfoldable pub or_refuse : {S A : Type 0} → ℕ → M S A → M S A
or_refuse rep m w = refused rep (m w)

module _ (D : Database) (network : Text → Text → Bool) (events : List Event) where
  -- The bytes of the session are added to the client's row; an error of the database is logged only.
  unfoldable pub account : Client → M D.State (Unit {0})
  account client w =
      let used =
        relay (record { base_used = client.traffic_used; limit = client.traffic_limit }) events in
      (
        ok tt,
        record w {
          wire = record w.wire { closed = true };
          db = if ltb_ℤ (pos 0) used then (D.add_traffic_used w.db client.id used).0 else w.db;
        },
      )

  unfoldable pub handle_connect_request : Client → M D.State (Unit {0})
  handle_connect_request client = do
    request_header ← read_full 4
    guard (byte_at request_header 0 == socks_version5) (fail bad_request_version)
    guard (byte_at request_header 1 == socks_cmd_connect)
        (refuse (reply reply_cmd_not_support) unsupported_command)
    address ← or_refuse reply_addr_not_support (read_target_address (byte_at request_header 3))
    guard (dial network address) (refuse (reply reply_general_failure) (connect_failed address))
    write (reply reply_succeeded)
    account client

  abbrev pub with_deadline : Bool → World D.State → World D.State
  with_deadline b w = record w { wire = record w.wire { has_deadline = b } }

  abbrev pub after_auth : Result Client × World D.State → World D.State
  after_auth (ok client, w) = (handle_connect_request client (with_deadline false w)).1
  after_auth (err e, w) = w

  abbrev pub close_conn : World D.State → World D.State
  close_conn w = record w { wire = record w.wire { closed = true } }

  -- The deadline holds for the login only; the connection is closed on every way out.
  unfoldable pub handle_connection : Time → Time → World D.State → World D.State
  handle_connection checked stamped w =
      close_conn (after_auth (authenticate D checked stamped (with_deadline true w)))
