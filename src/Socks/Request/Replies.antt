-- ===== src/Socks/Request/Replies.antt =====
-- How a request is answered that is sent in full, to a peer that takes the reply.
use libersuite_panel.Prelude.{
  ℕ, ◌+◌, ◌*◌, ◌<◌, Bool-cases, inl, inr, ◌≡◌, ◌≢◌, refl, sym, ap, ◌∙◌, Bool, true, false, List, [],
  ◌∷◌, ◌++◌, ◌==◌, if◌then◌else◌, length, arith,
}
use libersuite_panel.Text.{Text}
use libersuite_panel.Text.Decimal.{format_nat, format_nat-IsDigit}
use libersuite_panel.Text.HostPort.{
  split_host_port_plain, split_host_port_colon, NoByte, contains_byte, contains_byte_above,
}
use libersuite_panel.Text.Ip.{
  dotted, ip16_text, ipv6_text, is_mapped, ip16_text_plain, dotted-IsDotted,
}
use libersuite_panel.Text.Ip.Colons.{ipv6_text_colon, ipv6_text_no_bracket}
use libersuite_panel.Client.{Client}
use libersuite_panel.Database.{Database}
use libersuite_panel.Socks.Wire.{
  connect_failed, Result, ok, err, World, continue, read_full, with_input, with_output,
}
use libersuite_panel.Socks.Wire.Moves.{read_full-append, write_whole, refuse_whole}
use libersuite_panel.Socks.Auth.{socks_version5}
use libersuite_panel.Socks.Address.{
  addr_type_domain, read_domain, addr_type_ipv4, addr_type_ipv6, host_colon_port, read_ipv4,
  read_ipv6, read_host, read_target_address,
}
use libersuite_panel.Socks.Relay.{Event}
use libersuite_panel.Socks.Request.{
  socks_cmd_connect, reply, reply_succeeded, reply_general_failure, dial, or_refuse, account,
  handle_connect_request,
}

module _ (network : Text → Text → Bool) where
  pub dial_plain :
      (host : Text) (port : ℕ)
      → NoByte b':' host
      → NoByte b'[' host
      → NoByte b']' host
      → dial network (host_colon_port host port) ≡ network host (format_nat port)
  unfolding dial host_colon_port
  dial_plain host port c o e =
      rw (split_host_port_plain (format_nat port) (format_nat-IsDigit port) host c o e, dial)

  pub dial_colon :
      (host : Text) (port : ℕ)
      → contains_byte b':' host ≡ true
      → NoByte b'[' host
      → dial network (host_colon_port host port) ≡ false
  unfolding dial host_colon_port
  dial_colon host port c o =
      rw (split_host_port_colon (format_nat port) (format_nat-IsDigit port) host c o, dial)

-- What a CONNECT request of this address type looks like.
abbrev pub connect_request : ℕ → ℕ → Text → Text → Text
connect_request reserved atyp address port =
    (socks_version5 ∷ socks_cmd_connect ∷ reserved ∷ atyp ∷ []) ++ (address ++ port)

filled : (s : Text) → s ≢ [] → (length s == 0) ≡ false
filled [] h = absurd (h refl)
filled (c ∷ s) h = ground arith

module _ {S : Type 0} (w : World S) (p q : ℕ) (rest : Text) where
  -- A read of the length that a buffer is known to have.
  read_of_length :
      (n : ℕ) (bs more : Text)
      → length bs ≡ n
      → read_full n (with_input (bs ++ more) w) ≡ (ok bs, with_input more w)
  read_of_length n bs more h =
      ap (λ k. read_full k (with_input (bs ++ more) w)) (sym h) ∙ read_full-append bs more w

  read_ipv6_target :
      (ip : Text)
      → length ip ≡ 16
      → read_target_address addr_type_ipv6 (with_input (ip ++ (p ∷ q ∷ rest)) w)
        ≡ (ok (host_colon_port (ip16_text ip) (p * 0x100 + q)), with_input rest w)
  unfolding read_target_address read_host read_ipv6
  read_ipv6_target ip h =
      rw (read_of_length 16 ip (p ∷ q ∷ rest) h, continue, read_full-append (p ∷ q ∷ []) rest w)

  read_ipv4_target :
      (ip : Text)
      → length ip ≡ 4
      → read_target_address addr_type_ipv4 (with_input (ip ++ (p ∷ q ∷ rest)) w)
        ≡ (ok (host_colon_port (dotted ip) (p * 0x100 + q)), with_input rest w)
  unfolding read_target_address read_host read_ipv4
  read_ipv4_target ip h =
      rw (read_of_length 4 ip (p ∷ q ∷ rest) h, continue, read_full-append (p ∷ q ∷ []) rest w)

  read_domain_target :
      (domain : Text)
      → domain ≢ []
      → read_target_address addr_type_domain
          (with_input ((length domain ∷ []) ++ (domain ++ (p ∷ q ∷ rest))) w)
        ≡ (ok (host_colon_port domain (p * 0x100 + q)), with_input rest w)
  unfolding read_target_address read_host read_domain
  read_domain_target domain h = rw (
    read_full-append (length domain ∷ []) (domain ++ (p ∷ q ∷ rest)) w,
    continue,
    filled domain h,
    read_full-append domain (p ∷ q ∷ rest) w,
    read_full-append (p ∷ q ∷ []) rest w,
  )

module _ (D : Database) (network : Text → Text → Bool) (events : List Event) (client : Client)
    (w : World D.State) (quiet : w.wire.deliveries ≡ []) where
  abbrev answered : Text → ℕ → World D.State
  answered rest rep = with_output (w.wire.output ++ reply rep) (with_input rest w)

  -- A request whose address is read, up to the dial.
  module _ (reserved atyp : ℕ) (body rest address : Text)
      (input : w.wire.input ≡ (socks_version5 ∷ socks_cmd_connect ∷ reserved ∷ atyp ∷ []) ++ body)
      (target : read_target_address atyp (with_input body w)
        ≡ (ok address, with_input rest w)) where
    request_answered :
        dial network address ≡ true
        → handle_connect_request D network events client w
          ≡ account D network events client (answered rest reply_succeeded)
    unfolding handle_connect_request or_refuse
    request_answered e =
        ap (handle_connect_request D network events client) (ap (λ t. with_input t w) input)
        ∙ rw (
          read_full-append (socks_version5 ∷ socks_cmd_connect ∷ reserved ∷ atyp ∷ []) body w,
          continue,
          target,
          e,
          write_whole (reply reply_succeeded) (with_input rest w) quiet,
        )

    request_unanswered :
        dial network address ≡ false
        → handle_connect_request D network events client w
          ≡ (err (connect_failed address), answered rest reply_general_failure)
    unfolding handle_connect_request or_refuse
    request_unanswered e =
        ap (handle_connect_request D network events client) (ap (λ t. with_input t w) input)
        ∙ rw (
          read_full-append (socks_version5 ∷ socks_cmd_connect ∷ reserved ∷ atyp ∷ []) body w,
          continue,
          target,
          e,
          refuse_whole (reply reply_general_failure) (connect_failed address) (with_input rest w)
              quiet,
        )

  module _ (reserved p q : ℕ) (rest : Text) where
    -- Whatever the network, no request for an IPv6 address is ever served, unless the address is an
    -- IPv4 address in sixteen bytes: the dialled text has no brackets, so that it cannot be read
    -- into host and port, and the client gets the reply of a general failure.
    pub ipv6_never_dialled :
        (ip : Text)
        → length ip ≡ 16
        → is_mapped ip ≡ false
        → w.wire.input ≡ connect_request reserved addr_type_ipv6 ip (p ∷ q ∷ rest)
        → handle_connect_request D network events client w ≡ (
          err (connect_failed (host_colon_port (ipv6_text ip) (p * 0x100 + q))),
          answered rest reply_general_failure,
        )
    ipv6_never_dialled ip len plain input =
        request_unanswered reserved addr_type_ipv6 (ip ++ (p ∷ q ∷ rest)) rest _ input
          (read_ipv6_target w p q rest ip len ∙ rw (ip16_text_plain ip plain))
          (dial_colon network (ipv6_text ip) (p * 0x100 + q) (ipv6_text_colon ip (omega arith))
            (ipv6_text_no_bracket ip))

    -- The answer to a request for a host whose name reads as one host.
    abbrev served : Text → Result (Unit {0}) × World D.State
    served host =
        if network host (format_nat (p * 0x100 + q))
        then account D network events client (answered rest reply_succeeded)
        else (
          err (connect_failed (host_colon_port host (p * 0x100 + q))),
          answered rest reply_general_failure,
        )

    serves :
        (atyp : ℕ) (body host : Text)
        → w.wire.input ≡ (socks_version5 ∷ socks_cmd_connect ∷ reserved ∷ atyp ∷ []) ++ body
        → read_target_address atyp (with_input body w)
          ≡ (ok (host_colon_port host (p * 0x100 + q)), with_input rest w)
        → NoByte b':' host
        → NoByte b'[' host
        → NoByte b']' host
        → handle_connect_request D network events client w ≡ served host
    serves atyp body host input target c o e =
        let d = dial_plain network host (p * 0x100 + q) c o e in
        elim (Bool-cases (network host (format_nat (p * 0x100 + q)))) [
          | inl up ↦ rw up (request_answered reserved atyp body rest _ input target (d ∙ up))
          | inr down ↦
              rw down (request_unanswered reserved atyp body rest _ input target (d ∙ down))
        ]

    -- A request for an IPv4 address dials just this address, in dotted decimal, and this port: it
    -- succeeds and is accounted for exactly if the target answers, and gets the reply of a general
    -- failure if not.
    pub ipv4_dialled :
        (ip : Text)
        → length ip ≡ 4
        → w.wire.input ≡ connect_request reserved addr_type_ipv4 ip (p ∷ q ∷ rest)
        → handle_connect_request D network events client w ≡ served (dotted ip)
    ipv4_dialled ip len input =
        serves addr_type_ipv4 (ip ++ (p ∷ q ∷ rest)) (dotted ip) input
          (read_ipv4_target w p q rest ip len) (above b':' (omega arith)) (above b'[' (omega arith))
          (above b']' (omega arith))
      where
        above : (b : ℕ) → b'9' < b → NoByte b (dotted ip)
        above b h = contains_byte_above b (dotted ip) (dotted-IsDotted ip) h

    -- A request for a domain name with no colon and no bracket dials that name and this port.
    pub domain_dialled :
        (domain : Text)
        → domain ≢ []
        → NoByte b':' domain
        → NoByte b'[' domain
        → NoByte b']' domain
        → w.wire.input
          ≡ connect_request reserved addr_type_domain
              ((length domain ∷ []) ++ domain)
              (p ∷ q ∷ rest)
        → handle_connect_request D network events client w ≡ served domain
    domain_dialled domain filled c o e input =
        serves addr_type_domain _ domain input (read_domain_target w p q rest domain filled) c o e
