-- ===== src/Panel/Setup/Routes.antt =====
-- Which address the dispatcher takes for a domain of each group of options.
use libersuite_panel.Prelude.{
  ℕ, zero, suc, ◌+◌, ◌<◌, ◌≡◌, refl, ap, ◌∙◌, Bool, false, List, [], ◌∷◌, ◌++◌, length,
  length-append, All, All-append, get_elem?, arith,
}
use libersuite_panel.Prelude.Int.{ℤ}
use libersuite_panel.Text.{Text}
use libersuite_panel.Text.Trim.{trim_space_fixed}
use libersuite_panel.Dns.{addr_of, normalized_addrs, unless_empty}
use libersuite_panel.Panel.Domains.{parse_domains}
use libersuite_panel.Panel.Domains.RoundTrip.{IsEntry, parse_domains-IsEntry}
use libersuite_panel.Panel.Setup.{accepted, check_lists, setup, ports_clash}

get_elem?_front :
    (xs ys : List Text) (i : ℕ) → i < length xs → get_elem? (xs ++ ys) i ≡ get_elem? xs i
get_elem?_front [] ys i h = absurd (omega arith)
get_elem?_front (x ∷ xs) ys zero h = refl
get_elem?_front (x ∷ xs) ys (suc i) h = get_elem?_front xs ys i (omega arith)

get_elem?_back : (xs ys : List Text) (i : ℕ) → get_elem? (xs ++ ys) (length xs + i) ≡ get_elem? ys i
get_elem?_back [] ys i = ap (get_elem? ys) (omega arith)
get_elem?_back (x ∷ xs) ys i = ap (get_elem? (x ∷ (xs ++ ys))) later ∙ get_elem?_back xs ys i
  where
    later : suc (length xs) + i ≡ suc (length xs + i)
    later = omega arith

addr_of_matched :
    (addrs : List Text) (count i : ℕ)
    → length addrs ≡ count
    → addr_of addrs count i ≡ get_elem? addrs i
addr_of_matched addrs count i h = ground arith

check_lists_accepted :
    (dd da sd sa ds addrs : List Text) (clash : Bool)
    → check_lists dd da sd sa clash ≡ accepted ds addrs
    → (ds ≡ dd ++ sd)
      × (addrs ≡ da ++ sa)
      × (clash ≡ false)
      × (0 < length dd → 0 < length da)
      × (0 < length sd → 0 < length sa)
      × (0 < length dd + length sd)
unfolding check_lists
check_lists_accepted dd da sd sa ds addrs clash h = ground arith

normalized_addrs_fixed : (l : List Text) → All IsEntry l → normalized_addrs l ≡ l
unfolding normalized_addrs
normalized_addrs_fixed [] h = refl
normalized_addrs_fixed (p ∷ l) ((filled, trimmed, _), h) =
    ap (λ s. unless_empty (λ t. t) s (normalized_addrs l)) (trim_space_fixed p trimmed)
    ∙ ap (λ r. unless_empty (λ t. t) p r) (normalized_addrs_fixed l h)
    ∙ ground (arith, filled)

module _ (dns_domain dnstt_addr slipstream_domain slipstream_addr : Text)
    (port ssh_port socks_port : ℤ) (ds addrs : List Text)
    (h : setup dns_domain dnstt_addr slipstream_domain slipstream_addr port ssh_port socks_port
      ≡ accepted ds addrs) where
  abbrev dd : List Text
  dd = parse_domains dns_domain

  abbrev da : List Text
  da = parse_domains dnstt_addr

  abbrev sd : List Text
  sd = parse_domains slipstream_domain

  abbrev sa : List Text
  sa = parse_domains slipstream_addr

  -- Options that are accepted give the lists of both groups, those of dnstt first; there is a domain, a group
  -- with domains has addresses, and no two of the three ports are equal.
  pub setup_accepted :
      (ds ≡ dd ++ sd)
      × (addrs ≡ da ++ sa)
      × (ports_clash port ssh_port socks_port ≡ false)
      × (0 < length dd → 0 < length da)
      × (0 < length sd → 0 < length sa)
      × (0 < length dd + length sd)
  unfolding setup
  setup_accepted =
      check_lists_accepted dd da sd sa ds addrs (ports_clash port ssh_port socks_port) h

  kept : normalized_addrs addrs ≡ da ++ sa
  kept =
      let (_, eas, _, _, _, _) = setup_accepted in
      rw eas (
        normalized_addrs_fixed (da ++ sa) (
          All-append IsEntry da sa (parse_domains-IsEntry dnstt_addr)
            (parse_domains-IsEntry slipstream_addr)))

  counts :
      length dd + length sd ≡ length da + length sa → length (normalized_addrs addrs) ≡ length ds
  counts e =
      let (eds, _, _, _, _, _) = setup_accepted in
      rw (eds, kept) (omega (arith, length-append dd sd, length-append da sa))

  -- Where the totals agree and dnstt has more domains than addresses, the first domain of dnstt that has no
  -- address in its place is sent to the first address of slipstream.
  pub setup_crosses :
      length dd + length sd ≡ length da + length sa
      → length da < length dd
      → (get_elem? ds (length da) ≡ get_elem? dd (length da))
        × (addr_of (normalized_addrs addrs) (length ds) (length da) ≡ get_elem? sa 0)
  setup_crosses e lt =
      let (eds, eas, _, _, _, _) = setup_accepted in
      (
        rw eds (get_elem?_front dd sd (length da) lt),
        addr_of_matched (normalized_addrs addrs) (length ds) (length da) (counts e)
            ∙ rw kept (ap (get_elem? (da ++ sa)) (omega arith) ∙ get_elem?_back da sa 0),
      )
