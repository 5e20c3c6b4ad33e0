-- ===== src/Panel/Serve/Ready.antt =====
-- What holds once the servers are started.
use libersuite_panel.Prelude.{ℕ, ◌≡◌, refl, ap, Option, some, List, length}
use libersuite_panel.Text.{Text}
use libersuite_panel.Dns.{DomainRoute, new_dns_dispatcher, normalized_domains, normalized_addrs}
use libersuite_panel.Dns
use libersuite_panel.Dns.Routes.{Routed, new_dns_dispatcher_ok}
use libersuite_panel.Crypto.Calls.{File, Disk}
use libersuite_panel.Crypto.Calls
use libersuite_panel.Crypto.{Keys}
use libersuite_panel.Panel.Setup.{
  Setup, accepted, no_domain, no_dnstt_addr, no_slipstream_addr, equal_ports,
}
use libersuite_panel.Panel.Keys.{path_or}
use libersuite_panel.Panel.Keys.Effects.{host_key_step_ready}
use libersuite_panel.Panel.Serve.{
  Options, serving, with_dispatcher, with_host_key, with_setup, setup_of, launch,
}

module _ (K : Keys) {Addr : Type 0} (resolve : Text → Option Addr) (lower : ℕ → ℕ)
    (default_key : Text) where
  -- The servers run only on accepted options, with a file at the path of the host key, and with a route for each
  -- domain of both groups.
  abbrev pub IsReady : Options → Disk → List (DomainRoute Addr) → Type 0
  IsReady o d routes =
      (domains : List Text) × (addrs : List Text) × (setup_of o ≡ accepted domains addrs)
      × ((f : File) × (d.files (path_or default_key o.host_key) ≡ some f))
      × Routed resolve (normalized_addrs addrs) (length (normalized_domains lower domains)) 0
          (normalized_domains lower domains) routes

  dispatched :
      (r : Dns.Result (List (DomainRoute Addr))) (routes : List (DomainRoute Addr))
      → with_dispatcher r ≡ serving routes
      → r ≡ Dns.ok routes
  dispatched (Dns.ok rs) routes h = cc
  dispatched (Dns.err e) routes h = absurd (cc)

  keyed :
      (k : Calls.Result (Unit {0}) × Disk) (r : Dns.Result (List (DomainRoute Addr))) (d' : Disk)
      (routes : List (DomainRoute Addr))
      → with_host_key k r ≡ (serving routes, d')
      → (k ≡ (Calls.ok tt, d')) × (r ≡ Dns.ok routes)
  keyed (Calls.ok u, d) r d' routes h = (cc, dispatched r routes (ap (λ p. p.0) h))
  keyed (Calls.err e, d) r d' routes h = absurd (cc)

  ready :
      (s : Setup) (o : Options) (d d' : Disk) (routes : List (DomainRoute Addr))
      → setup_of o ≡ s
      → with_setup K resolve lower default_key s o d ≡ (serving routes, d')
      → IsReady o d' routes
  ready (accepted domains addrs) o d d' routes e h =
      let (k, r) = keyed _ _ d' routes h in
      let (_, _, routed) = new_dns_dispatcher_ok resolve lower domains addrs routes r in
      (
        domains,
        addrs,
        e,
        host_key_step_ready K default_key o.host_key o.key_size o.regenerate_key d d' k,
        routed,
      )
  ready no_domain o d d' routes e h = absurd (cc)
  ready no_dnstt_addr o d d' routes e h = absurd (cc)
  ready no_slipstream_addr o d d' routes e h = absurd (cc)
  ready equal_ports o d d' routes e h = absurd (cc)

  -- Whenever the command gets to its servers, its options were accepted, there is a file at the path of the host
  -- key, and each domain of both groups of options has a route to an address that resolved.
  pub launch-IsReady :
      (o : Options) (d d' : Disk) (routes : List (DomainRoute Addr))
      → launch K resolve lower default_key o d ≡ (serving routes, d')
      → IsReady o d' routes
  unfolding launch
  launch-IsReady o d d' routes h = ready (setup_of o) o d d' routes refl h
