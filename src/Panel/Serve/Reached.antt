-- ===== src/Panel/Serve/Reached.antt =====
-- Which server a connection by the mixed listener comes to, on a machine where nothing else listens.
use libersuite_panel.Prelude.{
  ℕ, ◌≡◌, ◌≢◌, refl, sym, ap, ◌∙◌, Bool, true, false, Bool-cases, inl, inr, Option, none, some,
  List, ◌==◌, get_elem?, if◌then◌else◌, arith,
}
use libersuite_panel.Prelude.Int.{ℤ, pos}
use libersuite_panel.Text.{Text}
use libersuite_panel.Text.Decimal.{format_nat}
use libersuite_panel.Text.HostPort.{
  NoByte, split_host_port, split_host_port_plain, split_host_port-join_host_port,
}
use libersuite_panel.Listener.Start.{listen_addr, listen}
use libersuite_panel.Mixed
use libersuite_panel.Mixed.{
  Probed, gone, no_byte, first_byte, probed, target_port, target_addr, Probe, Copy, Outcome,
  dropped, dial_failed, forward_failed, relayed, backend, connect, handle_connection,
}
use libersuite_panel.Socks.Wire.{Delivery}
use libersuite_panel.Socks.Request.{dial}
use libersuite_panel.Panel.Setup.{accepted, ports_clash}
use libersuite_panel.Panel.Setup.Routes.{setup_accepted}
use libersuite_panel.Panel.Flags.{ServerFlags}
use libersuite_panel.Panel.Serve.{setup_of}
use libersuite_panel.Panel.Serve.Servers.{Part, ssh, socks, Bound, bound, loopback, mixed_config}
use libersuite_panel.Panel.Serve.Machine.{
  Tcp, answering, wanted, at_port, listen_plain, IsOnly, settle, three, ssh-IsOnly, socks-IsOnly,
  answering_at, is_some, network, dial-answering,
}

ports_apart :
    (a b c : ℤ) (p s k : ℕ)
    → a ≡ pos p
    → b ≡ pos s
    → c ≡ pos k
    → ports_clash a b c ≡ false
    → (p ≢ s) × (p ≢ k) × (s ≢ k)
ports_apart a b c p s k ea eb ec h =
    let clash : ports_clash (pos p) (pos s) (pos k) ≡ false =
      ap (λ n. ports_clash n (pos s) (pos k)) (sym ea)
      ∙ ap (λ n. ports_clash a n (pos k)) (sym eb)
      ∙ ap (λ n. ports_clash a b n) (sym ec)
      ∙ h in
    ground arith

loopback_no_bracket : NoByte b'[' loopback × NoByte b']' loopback
unfolding libersuite_panel.Text.HostPort.contains_byte
loopback_no_bracket = (refl, refl)

abbrev pub is_relayed : Outcome → Bool
is_relayed dropped = false
is_relayed (dial_failed addr) = false
is_relayed (forward_failed addr) = false
is_relayed (relayed addr s) = true

not_connected :
    (cfg : Mixed.Config) (net : Text → Text → Bool) (p : Probed) (d : Delivery) (es : List Copy)
    → dial net (target_addr cfg p) ≡ false
    → is_relayed (connect cfg net p d es) ≡ false
unfolding connect backend
not_connected cfg net gone d es down = refl
not_connected cfg net no_byte d es down = rw down refl
not_connected cfg net (first_byte b) d es down = rw down refl

module _ (T : Tcp) (bind : Text → Text → Option Text) (readable : Text → Bool) (host_key : Text)
    (v : ServerFlags) (ds addrs : List Text) (port ssh_port socks_port : ℕ)
    (given : setup_of v.options ≡ accepted ds addrs)
    (ports : (v.options.port ≡ pos port)
      × (v.options.ssh_port ≡ pos ssh_port)
      × (v.options.socks_port ≡ pos socks_port))
    (plain : NoByte b':' v.host × NoByte b'[' v.host × NoByte b']' v.host)
    (free : (bind v.host (format_nat port) ≡ some (format_nat port))
      × (bind v.host (format_nat ssh_port) ≡ some (format_nat ssh_port))
      × (bind v.host (format_nat socks_port) ≡ some (format_nat socks_port))) where
  bound_three : bound bind readable host_key v ≡ three v.host port ssh_port socks_port
  unfolding bound
  bound_three =
      let (c, o, e) = plain in
      let (ep, es, ek) = ports in
      let (fp, fs, fk) = free in
      let at : (n : ℕ)
          → bind v.host (format_nat n) ≡ some (format_nat n)
          → listen bind (listen_addr v.host (pos n)) ≡ some (v.host, format_nat n) =
        λ n. listen_plain bind v.host n c o e in
      rw (ep, es, ek, at port fp, at ssh_port fs, at socks_port fk) refl

  apart : (port ≢ ssh_port) × (port ≢ socks_port) × (ssh_port ≢ socks_port)
  apart =
      let (ep, es, ek) = ports in
      let o = v.options in
      let (_, _, clash, _, _, _) =
        setup_accepted o.dns_domain o.dnstt_addr o.slipstream_domain o.slipstream_addr o.port
          o.ssh_port o.socks_port ds addrs given in
      ports_apart o.port o.ssh_port o.socks_port port ssh_port socks_port ep es ek clash

  abbrev listeners : List Bound
  listeners = bound bind readable host_key v

  taker :
      (part : Part) (q i : ℕ) (p : Probed)
      → target_port (mixed_config v.options) p ≡ pos q
      → get_elem? (three v.host port ssh_port socks_port) i ≡ some (at_port part v.host q)
      → IsOnly (three v.host port ssh_port socks_port) (at_port part v.host q)
      → answering T listeners (target_addr (mixed_config v.options) p)
        ≡ (if T.reaches v.host loopback then some (at_port part v.host q) else none)
  taker part q i p h g only =
      let ls = three v.host port ssh_port socks_port in
      let cfg = mixed_config v.options in
      let (no_open, no_close) = loopback_no_bracket in
      ap (λ l. answering T l (target_addr cfg p)) bound_three
      ∙ answering_at T ls cfg p q no_open no_close h
      ∙ settle T ls (at_port part v.host q) i loopback _ refl g only

  wanted_taker :
      (p : Probed)
      → answering T listeners (target_addr (mixed_config v.options) p)
        ≡ (if T.reaches v.host loopback then some (wanted v.host ssh_port socks_port p) else none)
  unfolding target_port
  wanted_taker (first_byte b) =
      let (ps, pk, sk) = apart in
      let (_, es, ek) = ports in
      elim (Bool-cases (b == 5)) [
        | inl e ↦ rw e (
            taker socks socks_port 1 (first_byte b) (rw e ek) refl
              (socks-IsOnly v.host port ssh_port socks_port pk sk))
        | inr e ↦ rw e (
            taker ssh ssh_port 0 (first_byte b) (rw e es) refl
              (ssh-IsOnly v.host port ssh_port socks_port ps sk))
      ]
  wanted_taker no_byte =
      let (ps, _, sk) = apart in
      taker ssh ssh_port 0 no_byte ports.1 refl (ssh-IsOnly v.host port ssh_port socks_port ps sk)
  wanted_taker gone =
      let (ps, _, sk) = apart in
      taker ssh ssh_port 0 gone ports.1 refl (ssh-IsOnly v.host port ssh_port socks_port ps sk)

  -- The servers of accepted options, on a host without a colon or a bracket, where each listener gets the port of its
  -- option (which port 0, for a port of the system's choice, does not get) and nothing else listens: if
  -- the listeners on that host take connections to 127.0.0.1, a connection by the mixed listener comes to
  -- the SOCKS server when its first byte is 5 and to the SSH server otherwise; if they do not, as on the
  -- address of one interface, no connection is ever relayed.
  pub mixed_reaches :
      ((p : Probed)
        → answering T listeners (target_addr (mixed_config v.options) p) ≡ (
            if T.reaches v.host loopback then some (wanted v.host ssh_port socks_port p) else none))
      × (T.reaches v.host loopback ≡ false
          → (probe : Probe) (d : Delivery) (es : List Copy)
          → is_relayed (handle_connection (mixed_config v.options) (network T listeners) probe d es)
            ≡ false)
  unfolding handle_connection
  mixed_reaches = (
    wanted_taker,
    λ far probe d es.
        not_connected (mixed_config v.options) (network T listeners) (probed probe) d es (
          dial-answering T listeners (target_addr (mixed_config v.options) (probed probe))
          ∙ ap is_some (wanted_taker (probed probe))
          ∙ rw far refl),
  )
