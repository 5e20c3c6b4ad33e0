-- ===== src/Socks/Address.antt =====
-- readTargetAddress: the address that a client asks for, as the text that the server dials.
use libersuite_panel.Prelude.{ℕ, ◌+◌, ◌*◌, true, false, ◌∷◌, ◌++◌, ◌==◌, if◌then◌else◌}
use libersuite_panel.Text.{Text}
use libersuite_panel.Text.Decimal.{format_nat}
use libersuite_panel.Text.Ip.{dotted, ip16_text}
use libersuite_panel.Socks.Wire.{
  M, pure, fail, ◌>>=◌, ◌>>◌, read_full, guard, byte_at, bad_domain_length, unsupported_address,
}

abbrev pub addr_type_ipv4 : ℕ
addr_type_ipv4 = 0x01

abbrev pub addr_type_domain : ℕ
addr_type_domain = 0x03

abbrev pub addr_type_ipv6 : ℕ
addr_type_ipv6 = 0x04

-- binary.BigEndian.Uint16
abbrev pub uint16 : Text → ℕ
uint16 bytes = byte_at bytes 0 * 0x100 + byte_at bytes 1

-- fmt.Sprintf("%s:%d", host, port)
unfoldable pub host_colon_port : Text → ℕ → Text
host_colon_port host port = host ++ (b':' ∷ format_nat port)

module _ {S : Type 0} where
  unfoldable pub read_ipv4 : M S Text
  read_ipv4 = do ip ← read_full 4; pure (dotted ip)

  unfoldable pub read_ipv6 : M S Text
  read_ipv6 = do ip ← read_full 16; pure (ip16_text ip)

  unfoldable pub read_domain : M S Text
  read_domain = do
    len_buf ← read_full 1
    guard (if byte_at len_buf 0 == 0 then false else true) (fail bad_domain_length)
    domain ← read_full (byte_at len_buf 0)
    pure domain

  unfoldable pub read_host : ℕ → M S Text
  read_host atyp =
      if atyp == addr_type_ipv4
      then read_ipv4
      else if atyp == addr_type_ipv6
      then read_ipv6
      else if atyp == addr_type_domain
      then read_domain
      else fail unsupported_address

  unfoldable pub read_target_address : ℕ → M S Text
  read_target_address atyp = do
    host ← read_host atyp
    port_buf ← read_full 2
    pure (host_colon_port host (uint16 port_buf))
