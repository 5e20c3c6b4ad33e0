-- ===== src/Ssh/Start.antt =====
-- Start of sshserver/server.go: the options for the ssh library, and what it waits for.
use libersuite_panel.Prelude.{Bool, true, false, Option, none, some, List, [], ◌∷◌, if◌then◌else◌}
use libersuite_panel.Prelude.Int.{ℤ}
use libersuite_panel.Text.{Text, is_empty}
use libersuite_panel.Listener.Start.{listen_addr, Error, nil, Waited, cancelled, served}

pub record Config : Type 0 where
  pub host : Text
  pub port : ℤ
  pub host_key : Text

-- What the library is told: the address, the answers of the two callbacks, the types of channels that have a
-- handler, and the file of the host key if it could be read.
pub record ServerOptions : Type 0 where
  pub addr : Text
  pub local_port_forwarding : Bool
  pub reverse_port_forwarding : Bool
  pub channel_handlers : List Text
  pub host_key_file : Option Text

-- "direct-tcpip"
abbrev pub direct_tcpip : Text
direct_tcpip =
    b'd' ∷ b'i' ∷ b'r' ∷ b'e' ∷ b'c' ∷ b't' ∷ b'-' ∷ b't' ∷ b'c' ∷ b'p' ∷ b'i' ∷ b'p' ∷ []

-- A host key that cannot be read is left out, with a warning.
abbrev pub host_key_option : (Text → Bool) → Text → Option Text
host_key_option readable host_key =
    if is_empty host_key then none else if readable host_key then some host_key else none

unfoldable pub server_options : (Text → Bool) → Config → ServerOptions
unfolding listen_addr
server_options readable cfg = record {
  addr = listen_addr cfg.host cfg.port;
  local_port_forwarding = true;
  reverse_port_forwarding = false;
  channel_handlers = direct_tcpip ∷ [];
  host_key_file = host_key_option readable cfg.host_key;
}

-- What its select takes.
unfoldable pub start_result : Waited → Error
start_result cancelled = nil
start_result (served err) = err
