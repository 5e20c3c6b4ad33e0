-- ===== src/Panel/Serve.antt =====
-- The server command of cmd/panel/server.go: its options, the host key and the dispatcher, in this order, and
-- how the running servers end.
pub mod Servers
pub mod Machine
pub mod Reached
pub mod Ended
pub mod Ready
use libersuite_panel.Prelude.{ℕ, Bool, Option, List}
use libersuite_panel.Prelude.Int.{ℤ}
use libersuite_panel.Text.{Text}
use libersuite_panel.Database.{Database}
use libersuite_panel.Dns.{DomainRoute, new_dns_dispatcher}
use libersuite_panel.Dns
use libersuite_panel.Crypto.Calls.{Disk}
use libersuite_panel.Crypto.Calls
use libersuite_panel.Crypto.{Keys}
use libersuite_panel.Ssh.{Server}
use libersuite_panel.Ssh.Sessions.{Event}
use libersuite_panel.Ssh.Shutdown.{shutdown}
use libersuite_panel.Panel.Setup.{
  Setup, accepted, no_domain, no_dnstt_addr, no_slipstream_addr, equal_ports, setup,
}
use libersuite_panel.Panel.Keys.{host_key_step}

-- The flags, but for the address to listen on.
pub record Options : Type 0 where
  pub dns_domain : Text
  pub dnstt_addr : Text
  pub slipstream_domain : Text
  pub slipstream_addr : Text
  pub port : ℤ
  pub ssh_port : ℤ
  pub socks_port : ℤ
  pub host_key : Text
  pub regenerate_key : Bool
  pub key_size : ℤ

-- How the command goes up to the start of the servers.
pub data Launch (Addr : Type 0) : Type 0 where
  bad_options : Setup → Launch Addr
  key_error : Calls.Error → Launch Addr
  dispatcher_error : Dns.Error → Launch Addr
  serving : List (DomainRoute Addr) → Launch Addr

module _ {Addr : Type 0} where
  abbrev pub with_dispatcher : Dns.Result (List (DomainRoute Addr)) → Launch Addr
  with_dispatcher (Dns.ok routes) = serving routes
  with_dispatcher (Dns.err e) = dispatcher_error e

  abbrev pub with_host_key :
      Calls.Result (Unit {0}) × Disk → Dns.Result (List (DomainRoute Addr)) → Launch Addr × Disk
  with_host_key (Calls.ok u, d) dispatcher = (with_dispatcher dispatcher, d)
  with_host_key (Calls.err e, d) dispatcher = (key_error e, d)

abbrev pub setup_of : Options → Setup
setup_of o =
    setup o.dns_domain o.dnstt_addr o.slipstream_domain o.slipstream_addr o.port o.ssh_port
      o.socks_port

module _ (K : Keys) {Addr : Type 0} (resolve : Text → Option Addr) (lower : ℕ → ℕ)
    (default_key : Text) where
  abbrev pub with_setup : Setup → Options → Disk → Launch Addr × Disk
  with_setup (accepted domains addrs) o d =
      with_host_key (host_key_step K o.regenerate_key default_key o.host_key o.key_size d)
        (new_dns_dispatcher resolve lower domains addrs)
  with_setup no_domain o d = (bad_options no_domain, d)
  with_setup no_dnstt_addr o d = (bad_options no_dnstt_addr, d)
  with_setup no_slipstream_addr o d = (bad_options no_slipstream_addr, d)
  with_setup equal_ports o d = (bad_options equal_ports, d)

  unfoldable pub launch : Options → Disk → Launch Addr × Disk
  launch o d = with_setup (setup_of o) o d

-- What the select at the end takes: a signal, or an error of one of the four servers.
pub data Ending : Type 0 where
  signalled : Ending
  ssh_error socks_error mixed_error dns_error : Ending

pub data Exit : Type 0 where
  clean : Exit
  crashed : Ending → Exit
