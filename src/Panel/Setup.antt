-- ===== src/Panel/Setup.antt =====
-- The checks of the server command of cmd/panel/server.go on its options, and the lists that it passes
-- to the DNS dispatcher.
pub mod Routes
use libersuite_panel.Prelude.{Bool, false, not, ◌&&◌, ◌||◌, ◌==◌, List, ◌++◌, if◌then◌else◌, length}
use libersuite_panel.Prelude.Int.{ℤ, pos, negsuc}
use libersuite_panel.Text.{Text}
use libersuite_panel.Panel.Domains.{parse_domains}

-- The domains and the addresses for the dispatcher, or one of the errors.
pub data Setup : Type 0 where
  accepted : List Text → List Text → Setup
  no_domain no_dnstt_addr no_slipstream_addr equal_ports : Setup

-- len(l) == 0
abbrev pub none_given : List Text → Bool
none_given l = length l == 0

abbrev pub same_port : ℤ → ℤ → Bool
same_port (pos m) (pos n) = m == n
same_port (pos m) (negsuc n) = false
same_port (negsuc m) (pos n) = false
same_port (negsuc m) (negsuc n) = m == n

abbrev pub ports_clash : ℤ → ℤ → ℤ → Bool
ports_clash port ssh_port socks_port =
    same_port port ssh_port || (same_port port socks_port || same_port ssh_port socks_port)

unfoldable pub check_lists : List Text → List Text → List Text → List Text → Bool → Setup
check_lists dns_domains dnstt_addrs slipstream_domains slipstream_addrs clash =
    if none_given dns_domains && none_given slipstream_domains
    then no_domain
    else if not (none_given dns_domains) && none_given dnstt_addrs
    then no_dnstt_addr
    else if not (none_given slipstream_domains) && none_given slipstream_addrs
    then no_slipstream_addr
    else if clash
    then equal_ports
    else accepted (dns_domains ++ slipstream_domains) (dnstt_addrs ++ slipstream_addrs)

unfoldable pub setup : Text → Text → Text → Text → ℤ → ℤ → ℤ → Setup
unfolding check_lists
setup dns_domain dnstt_addr slipstream_domain slipstream_addr port ssh_port socks_port =
    check_lists (parse_domains dns_domain) (parse_domains dnstt_addr)
      (parse_domains slipstream_domain) (parse_domains slipstream_addr)
      (ports_clash port ssh_port socks_port)
