-- ===== src/Examples/Machines.antt =====
-- A machine with the three servers, and the end of the command on it.
use mathlib.Core.Option.{some-injective}
use libersuite_panel.Prelude.{
  ℕ, zero, suc, ◌≡◌, ◌≢◌, refl, sym, ap, ◌∙◌, Bool, true, false, ◌&&◌, ◌||◌, Bool-cases, inl, inr,
  Option, none, some, List, [], ◌∷◌, ◌++◌, map, get_elem?, if◌then◌else◌, text_eq, text_eq_iff,
  arith,
}
use libersuite_panel.Text.{Text}
use libersuite_panel.Text.HostPort.{NoByte}
use libersuite_panel.Database.Table.{table}
use libersuite_panel.Listener.{connects, counts, wait_over, handler_ends, started}
use libersuite_panel.Listener.Start.{Error, nil}
use libersuite_panel.Ssh.Sessions.{start}
use libersuite_panel.Ssh.Sessions
use libersuite_panel.Ssh.Ledger.{post_all}
use libersuite_panel.Ssh.Shutdown.{recorded}
use libersuite_panel.Socks.Wire.{Delivery}
use libersuite_panel.Mixed.{Probed, Probe, Copy, target_addr, handle_connection}
use libersuite_panel.Panel.Setup.{accepted}
use libersuite_panel.Panel.Flags.{ServerFlags, server_defaults}
use libersuite_panel.Panel.Serve.{setup_of, Exit, crashed}
use libersuite_panel.Panel.Serve
use libersuite_panel.Panel.Serve.Servers.{
  Part, dns, Bound, bound, loopback, mixed_config, interrupted, returns, error_of,
}
use libersuite_panel.Panel.Serve.Machine.{Tcp, answering, wanted, network}
use libersuite_panel.Panel.Serve.Reached.{is_relayed, mixed_reaches}
use libersuite_panel.Panel.Serve.Ended.{
  Running, Meanwhile, IsStopped, IsReleased, nil_return, serve_command, serve_command_ends,
}
use libersuite_panel.Examples.{al, pw, one_row}
use libersuite_panel.Examples.Serving.{options}

-- A listener on all addresses takes every connection, and another one those to its own address.
abbrev reaches : Text → Text → Bool
reaches bound host = text_eq bound server_defaults.host || text_eq bound host

abbrev takes : Bound → Text → Text → Bool
takes b host port = text_eq b.port port && reaches b.host host

abbrev first_of : List Bound → Text → Text → Option Bound
first_of [] host port = none
first_of (b ∷ ls) host port = if takes b host port then some b else first_of ls host port

first_of_taken :
    (ls : List Bound) (host port : Text) (b : Bound)
    → first_of ls host port ≡ some b
    → (i : ℕ) × (get_elem? ls i ≡ some b) × (b.port ≡ port) × (reaches b.host host ≡ true)
first_of_taken [] host port b e = absurd (cc)
first_of_taken (c ∷ ls) host port b e = elim (Bool-cases (takes c host port)) [
  | inl t ↦
      let here : c ≡ b = some-injective c b (sym (rw t refl) ∙ e) in
      let by_port : text_eq c.port port ≡ true = ground arith in
      let by_host : reaches c.host host ≡ true = ground arith in
      (
        0,
        ap some here,
        ap (λ x. x.port) (sym here) ∙ (text_eq_iff c.port port).0 by_port,
        ap (λ x. reaches x.host host) (sym here) ∙ by_host,
      )
  | inr t ↦
      let (i, there, by_port, by_host) = first_of_taken ls host port b (sym (rw t refl) ∙ e) in
      (suc i, there, by_port, by_host)
]

first_of_refused :
    (ls : List Bound) (host port : Text)
    → first_of ls host port ≡ none
    → (i : ℕ) (b : Bound) → get_elem? ls i ≡ some b
    → b.port ≡ port
    → reaches b.host host ≡ false
first_of_refused [] host port e i b g h = absurd (cc)
first_of_refused (c ∷ ls) host port e zero b g h =
    let here : c ≡ b = some-injective c b g in
    let by_port : text_eq c.port port ≡ true =
      (text_eq_iff c.port port).1 (ap (λ x. x.port) here ∙ h) in
    elim (Bool-cases (takes c host port)) [
      | inl t ↦ absurd (let no : some c ≡ none = sym (rw t refl) ∙ e in cc)
      | inr t ↦ ap (λ x. reaches x.host host) (sym here) ∙ ground arith
    ]
first_of_refused (c ∷ ls) host port e (suc i) b g h = elim (Bool-cases (takes c host port)) [
  | inl t ↦ absurd (let no : some c ≡ none = sym (rw t refl) ∙ e in cc)
  | inr t ↦ first_of_refused ls host port (sym (rw t refl) ∙ e) i b g h
]

abbrev machine : Tcp
machine = record {
  connects = first_of;
  reaches = reaches;
  taken = first_of_taken;
  refused = first_of_refused;
}

-- The servers are on one address, which is not the loopback address.
abbrev at_al : ServerFlags
at_al = record { host = al; options = options }

-- The servers are on all addresses.
abbrev at_all : ServerFlags
at_all = record { host = server_defaults.host; options = options }

given : setup_of options ≡ accepted (al ∷ []) (pw ∷ [])
unfolding libersuite_panel.Panel.Setup.setup libersuite_panel.Panel.Domains.parse_domains
    libersuite_panel.Text.split libersuite_panel.Text.Trim.trim_space
given = refl

plain : NoByte b':' al × NoByte b'[' al × NoByte b']' al
unfolding libersuite_panel.Text.HostPort.contains_byte
plain = (refl, refl, refl)

plain_all :
    NoByte b':' server_defaults.host
    × NoByte b'[' server_defaults.host
    × NoByte b']' server_defaults.host
unfolding libersuite_panel.Text.HostPort.contains_byte
plain_all = (refl, refl, refl)

-- Every port is free.
abbrev anywhere : Text → Text → Option Text
anywhere host port = some port

abbrev no_file : Text → Bool
no_file path = false

abbrev listeners : List Bound
listeners = bound anywhere no_file pw at_al

apart_al : reaches al loopback ≡ false
unfolding text_eq
apart_al = refl

stranded :
    (probe : Probe) (d : Delivery) (es : List Copy)
    → is_relayed (handle_connection (mixed_config options) (network machine listeners) probe d es)
      ≡ false
stranded =
    (mixed_reaches machine anywhere no_file pw at_al (al ∷ []) (pw ∷ []) 443 22 1080 given
        (refl, refl, refl) plain (refl, refl, refl)).1
      apart_al

abbrev everywhere : List Bound
everywhere = bound anywhere no_file pw at_all

mixed_reaches_example :
    ((p : Probed)
      → answering machine everywhere (target_addr (mixed_config options) p) ≡ (
          if reaches server_defaults.host loopback
          then some (wanted server_defaults.host 22 1080 p)
          else none))
    × (reaches server_defaults.host loopback ≡ false
        → (probe : Probe) (d : Delivery) (es : List Copy)
        → is_relayed
            (handle_connection (mixed_config options) (network machine everywhere) probe d es)
          ≡ false)
mixed_reaches_example =
    mixed_reaches machine anywhere no_file pw at_all (al ∷ []) (pw ∷ []) 443 22 1080 given
      (refl, refl, refl) plain_all (refl, refl, refl)

abbrev running : Running table.State
running = record {
  ssh_server = Sessions.run table (start one_row) [];
  socks_listener = started;
  mixed_listener = started;
}

-- A connection comes to the mixed listener and is served while its Shutdown waits.
abbrev meanwhile : Meanwhile table.State
meanwhile = record {
  crossed = none;
  last_flush = true;
  ssh_events = [];
  socks_before = [];
  socks_during = wait_over ∷ [];
  mixed_before = connects ∷ counts ∷ [];
  mixed_during = handler_ends ∷ wait_over ∷ [];
}

serve_command_ends_example :
    ((r : Running table.State) × (serve_command table
          (map nil_return (dns ∷ []) ++ (interrupted ∷ []))
          running
          meanwhile
        ≡ some (Serve.clean, r))
      × IsStopped r.socks_listener
      × IsStopped r.mixed_listener
      × (meanwhile.crossed ≡ none → recorded r.ssh_server.sessions ≡ post_all (post_all [] []) []))
    × ((p : Part) (err : Error)
        → err ≢ nil
        → (r : Running table.State) × (serve_command table
              (map nil_return (dns ∷ []) ++ (returns p err ∷ []))
              running
              meanwhile
            ≡ some (crashed (error_of p), r))
          × IsReleased running.socks_listener r.socks_listener
          × IsReleased running.mixed_listener r.mixed_listener)
serve_command_ends_example =
    serve_command_ends table one_row [] running refl meanwhile (dns ∷ []) []
