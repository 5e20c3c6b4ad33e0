-- ===== src/Panel/Serve/Machine.antt =====
-- A machine's network by its listeners, as the library and the operating system document it, and how a dial of the
-- mixed listener reads its address.
use libersuite_panel.Prelude.{
  ℕ, zero, suc, ◌≡◌, ◌≢◌, refl, sym, ap, subst, ◌∙◌, Bool, true, false, Option, none, some, List,
  [], ◌∷◌, ◌==◌, get_elem?, if◌then◌else◌,
}
use libersuite_panel.Prelude.Int.{pos}
use libersuite_panel.Text.{Text}
use libersuite_panel.Text.Decimal.{format_nat, format_nat-IsDigit, format_nat_value, value_from}
use libersuite_panel.Text.HostPort.{
  NoByte, split_host_port, split_host_port_plain, split_host_port-join_host_port,
}
use libersuite_panel.Listener.Start.{listen_addr, listen}
use libersuite_panel.Mixed
use libersuite_panel.Mixed.Routing.{target_addr_port}
use libersuite_panel.Mixed.{
  Probed, gone, no_byte, first_byte, probed, target_port, target_addr, Probe, Copy, Outcome,
  dropped, dial_failed, forward_failed, relayed, backend, connect, handle_connection,
}
use libersuite_panel.Socks.Request.{dial}
use libersuite_panel.Panel.Serve.Servers.{Part, ssh, socks, mixed, Bound}

-- The network of a machine by its listeners: which of them takes a connection to a host and port. `reaches` tells
-- whether a listener on one address takes connections to another, as one on all addresses does.
pub record Tcp : Type 0 where
  pub connects : List Bound → Text → Text → Option Bound
  pub reaches : Text → Text → Bool
  pub taken :
      (ls : List Bound) (host port : Text) (b : Bound)
      → connects ls host port ≡ some b
      → (i : ℕ) × (get_elem? ls i ≡ some b) × (b.port ≡ port) × (reaches b.host host ≡ true)
  pub refused :
      (ls : List Bound) (host port : Text)
      → connects ls host port ≡ none
      → (i : ℕ) (b : Bound) → get_elem? ls i ≡ some b
      → b.port ≡ port
      → reaches b.host host ≡ false

abbrev pub taken_at : Tcp → List Bound → Option (Text × Text) → Option Bound
taken_at T ls none = none
taken_at T ls (some (host, port)) = T.connects ls host port

-- A dial reads the address into host and port first.
abbrev pub answering : Tcp → List Bound → Text → Option Bound
answering T ls address = taken_at T ls (split_host_port address)

abbrev pub at_port : Part → Text → ℕ → Bound
at_port part host port = record { part = part; host = host; port = format_nat port }

-- The server that a probe asks for.
abbrev pub wanted : Text → ℕ → ℕ → Probed → Bound
wanted host ssh_port socks_port (first_byte b) =
    if b == 5 then at_port socks host socks_port else at_port ssh host ssh_port
wanted host ssh_port socks_port no_byte = at_port ssh host ssh_port
wanted host ssh_port socks_port gone = at_port ssh host ssh_port

pub format_nat_inj : (m n : ℕ) → format_nat m ≡ format_nat n → m ≡ n
format_nat_inj m n e = sym (format_nat_value m) ∙ ap (value_from 0) e ∙ format_nat_value n

pub listen_plain :
    (bind : Text → Text → Option Text) (host : Text) (port : ℕ)
    → NoByte b':' host
    → NoByte b'[' host
    → NoByte b']' host
    → bind host (format_nat port) ≡ some (format_nat port)
    → listen bind (listen_addr host (pos port)) ≡ some (host, format_nat port)
unfolding listen listen_addr libersuite_panel.Text.Decimal.format_int
listen_plain bind host port c o e free =
    rw (split_host_port_plain (format_nat port) (format_nat-IsDigit port) host c o e, listen, free)
      refl

-- Of the listeners at a port there is only one.
abbrev pub IsOnly : List Bound → Bound → Type 0
IsOnly ls b = (j : ℕ) (c : Bound) → get_elem? ls j ≡ some c → c.port ≡ b.port → c ≡ b

pub settle :
    (T : Tcp) (ls : List Bound) (b : Bound) (i : ℕ) (target : Text) (r : Option Bound)
    → T.connects ls target b.port ≡ r
    → get_elem? ls i ≡ some b
    → IsOnly ls b
    → T.connects ls target b.port ≡ (if T.reaches b.host target then some b else none)
settle T ls b i target none e g only = e ∙ rw (T.refused ls target b.port e i b g refl) refl
settle T ls b i target (some c) e g only =
    let (j, gc, pc, rc) = T.taken ls target b.port c e in
    let same = only j c gc pc in
    let up = subst (λ x. T.reaches x.host target ≡ true) same rc in e ∙ ap some same ∙ rw up refl

abbrev pub three : Text → ℕ → ℕ → ℕ → List Bound
three host p s k = at_port ssh host s ∷ at_port socks host k ∷ at_port mixed host p ∷ []

pub other_port :
    (part : Part) (host : Text) (m n : ℕ) (c b : Bound)
    → m ≢ n
    → some (at_port part host m) ≡ some c
    → c.port ≡ format_nat n
    → c ≡ b
other_port part host m n c b d g e =
    let here : at_port part host m ≡ c = cc in
    absurd (d (format_nat_inj m n (ap (λ x. x.port) here ∙ e)))

pub ssh-IsOnly :
    (host : Text) (p s k : ℕ) → p ≢ s → s ≢ k → IsOnly (three host p s k) (at_port ssh host s)
ssh-IsOnly host p s k ps sk zero c g e = cc
ssh-IsOnly host p s k ps sk (suc zero) c g e = other_port socks host k s c _ (λ q. sk (sym q)) g e
ssh-IsOnly host p s k ps sk (suc (suc zero)) c g e = other_port mixed host p s c _ ps g e
ssh-IsOnly host p s k ps sk (suc (suc (suc j))) c g e = absurd (cc)

pub socks-IsOnly :
    (host : Text) (p s k : ℕ) → p ≢ k → s ≢ k → IsOnly (three host p s k) (at_port socks host k)
socks-IsOnly host p s k pk sk zero c g e = other_port ssh host s k c _ sk g e
socks-IsOnly host p s k pk sk (suc zero) c g e = cc
socks-IsOnly host p s k pk sk (suc (suc zero)) c g e = other_port mixed host p k c _ pk g e
socks-IsOnly host p s k pk sk (suc (suc (suc j))) c g e = absurd (cc)

answering_read :
    (T : Tcp) (ls : List Bound) (address host port : Text)
    → split_host_port address ≡ some (host, port)
    → answering T ls address ≡ T.connects ls host port
answering_read T ls address host port h = ap (taken_at T ls) h

pub answering_at :
    (T : Tcp) (ls : List Bound) (cfg : Mixed.Config) (p : Probed) (port : ℕ)
    → NoByte b'[' cfg.backend_host
    → NoByte b']' cfg.backend_host
    → target_port cfg p ≡ pos port
    → answering T ls (target_addr cfg p) ≡ T.connects ls cfg.backend_host (format_nat port)
answering_at T ls cfg p port o c h =
    ap (answering T ls) (target_addr_port cfg p port h)
    ∙ answering_read T ls _ cfg.backend_host (format_nat port) (
        split_host_port-join_host_port (format_nat port) (format_nat-IsDigit port) cfg.backend_host
          o c)

abbrev pub is_some : {A : Type 0} → Option A → Bool
is_some none = false
is_some (some a) = true

-- A dial succeeds if a listener takes it.
abbrev pub network : Tcp → List Bound → Text → Text → Bool
network T ls host port = is_some (T.connects ls host port)

pub dial-answering :
    (T : Tcp) (ls : List Bound) (address : Text)
    → dial (network T ls) address ≡ is_some (answering T ls address)
unfolding dial
dial-answering T ls address =
    elim (split_host_port address)
      as (λ x.
        (elim x [ none ↦ false | some (host, port) ↦ network T ls host port ])
        ≡ is_some (taken_at T ls x)) [ none ↦ refl | some hp ↦ refl ]
