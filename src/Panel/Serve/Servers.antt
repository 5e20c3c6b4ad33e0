-- ===== src/Panel/Serve/Servers.antt =====
-- The servers that the command makes of its options, and what ends it.
use libersuite_panel.Prelude.{Bool, Option, none, some, List, [], ◌∷◌, ◌++◌}
use libersuite_panel.Text.{Text}
use libersuite_panel.Listener.Start.{
  listen, Error, nil, listen_failed, deadline_exceeded, underlying,
}
use libersuite_panel.Listener
use libersuite_panel.Ssh
use libersuite_panel.Ssh.Start.{server_options}
use libersuite_panel.Mixed
use libersuite_panel.Mixed.Start
use libersuite_panel.Panel.Flags.{ServerFlags}
use libersuite_panel.Panel.Serve.{
  Options, Ending, signalled, ssh_error, socks_error, mixed_error, dns_error,
}

pub data Part : Type 0 where
  ssh socks mixed dns : Part

-- "127.0.0.1"
abbrev pub loopback : Text
loopback = b'1' ∷ b'2' ∷ b'7' ∷ b'.' ∷ b'0' ∷ b'.' ∷ b'0' ∷ b'.' ∷ b'1' ∷ []

abbrev pub ssh_config : ServerFlags → Text → Ssh.Start.Config
ssh_config v host_key = record { host = v.host; port = v.options.ssh_port; host_key = host_key }

abbrev pub mixed_config : Options → Mixed.Config
mixed_config o = record {
  ssh_port = o.ssh_port;
  socks_port = o.socks_port;
  backend_host = loopback;
}

abbrev pub mixed_binding : ServerFlags → Mixed.Start.Binding
mixed_binding v = record { host = v.host; port = v.options.port }

-- A listener of the machine.
pub record Bound : Type 0 where
  pub part : Part
  pub host : Text
  pub port : Text

abbrev pub bound_as : Part → Option (Text × Text) → List Bound
bound_as part none = []
bound_as part (some (host, port)) = record { part = part; host = host; port = port } ∷ []

-- What the three servers listen on after their Starts.
unfoldable pub bound : (Text → Text → Option Text) → (Text → Bool) → Text → ServerFlags → List Bound
unfolding listen Listener.Start.start Ssh.Start.server_options Mixed.Start.start
bound bind readable host_key v =
    bound_as ssh (listen bind (server_options readable (ssh_config v host_key)).addr)
    ++ bound_as socks (Listener.Start.start bind v.host v.options.socks_port []).bound
    ++ bound_as mixed (Mixed.Start.start bind (mixed_binding v) []).bound

-- What happens until the select: a signal, or the end of one of the four Starts.
pub data Happening : Type 0 where
  interrupted : Happening
  returns : Part → Error → Happening

abbrev pub error_of : Part → Ending
error_of ssh = ssh_error
error_of socks = socks_error
error_of mixed = mixed_error
error_of dns = dns_error

-- A server that ends without an error is not noticed.
abbrev pub ended_by : Part → Error → Option Ending
ended_by part nil = none
ended_by part listen_failed = some (error_of part)
ended_by part deadline_exceeded = some (error_of part)
ended_by part underlying = some (error_of part)

abbrev pub or_later : Option Ending → Option Ending → Option Ending
or_later none later = later
or_later (some e) later = some e

unfoldable pub await : List Happening → Option Ending
await [] = none
await (interrupted ∷ hs) = some signalled
await (returns part err ∷ hs) = or_later (ended_by part err) (await hs)
