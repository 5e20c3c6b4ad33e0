-- ===== src/Dns/Routes.antt =====
-- NewDnsDispatcher: the routes that it builds, and when it builds them.
use mathlib.Core.Option.{some-injective}
use libersuite_panel.Prelude.{
  ℕ, zero, suc, ◌+◌, ◌<◌, ◌≡◌, ◌≢◌, refl, sym, ap, Bool, true, false, not, Option, none, some, List,
  [], ◌∷◌, ◌==◌, if◌then◌else◌, length, get_elem?, arith, Bool-cases, inl, inr, ◌⊎◌,
}
use libersuite_panel.Text.{Text, is_empty}
use libersuite_panel.Dns.{
  DomainRoute, Error, no_domain, no_backend, count_mismatch, guard, Result, ok, err, ◌>>=◌, or_fail,
  index_out_of_range, unresolved, normalized_domains, normalized_addrs, addr_of, build_routes,
  new_dns_dispatcher,
}

get_elem?_lt : (xs : List Text) (i : ℕ) → i < length xs → (a : Text) × (get_elem? xs i ≡ some a)
get_elem?_lt [] i h = elim h [ ]
get_elem?_lt (x ∷ xs) zero h = (x, refl)
get_elem?_lt (x ∷ xs) (suc i) h = get_elem?_lt xs i (omega arith)

only :
    (addrs : List Text) (a : Text) → length addrs ≡ 1 → get_elem? addrs 0 ≡ some a → addrs ≡ a ∷ []
only [] a n h = absurd (omega arith)
only (b ∷ []) a n h = ap (λ c. c ∷ []) (some-injective b a h)
only (b ∷ c ∷ bs) a n h = absurd (omega arith)

-- One address for all the domains, or one for each.
abbrev pub CountsMatch : List Text → ℕ → Type 0
CountsMatch addrs count = (length addrs ≡ 1) ⊎ (length addrs ≡ count)

addr_of_lt :
    (addrs : List Text) (count i : ℕ)
    → i < count
    → CountsMatch addrs count
    → (a : Text) × (addr_of addrs count i ≡ some a)
addr_of_lt addrs count i h m = elim (Bool-cases (length addrs == count)) [
  | inl e ↦ rw e (get_elem?_lt addrs i (ground arith))
  | inr e ↦ rw e (get_elem?_lt addrs 0 (ground arith))
]

module _ {Addr : Type 0} (resolve : Text → Option Addr) where
  -- The address at place i: the only one, or the one in that place of as many as there are domains.
  abbrev pub IsOwn : List Text → ℕ → ℕ → Text → Type 0
  IsOwn addrs count i a = (addrs ≡ a ∷ []) ⊎ ((length addrs ≡ count) × (get_elem? addrs i ≡ some a))

  -- Each route has its domain, and the backend that its address resolves to.
  abbrev pub Routed : List Text → ℕ → ℕ → List Text → List (DomainRoute Addr) → Type 0
  Routed addrs count i [] [] = Unit {0}
  Routed addrs count i [] (r ∷ rs) = ⊥
  Routed addrs count i (d ∷ ds) [] = ⊥
  Routed addrs count i (d ∷ ds) (r ∷ rs) =
      (r.domain ≡ d)
      × ((a : Text) × IsOwn addrs count i a × (resolve a ≡ some r.backend))
      × Routed addrs count (suc i) ds rs

  addr_of-IsOwn :
      (addrs : List Text) (count i : ℕ) (a : Text)
      → CountsMatch addrs count
      → addr_of addrs count i ≡ some a
      → IsOwn addrs count i a
  addr_of-IsOwn addrs count i a m h = elim (Bool-cases (length addrs == count)) [
    | inl e ↦ inr (ground arith, rw e at h)
    | inr e ↦ inl (only addrs a (ground arith) (rw e at h))
  ]

  added_ok :
      (b : Addr) (rest : Result (List (DomainRoute Addr))) (d : Text)
      (routes : List (DomainRoute Addr))
      → (rest >>= λ rs. ok (record { domain = d; backend = b } ∷ rs)) ≡ ok routes
      → (rs : List (DomainRoute Addr)) × (rest ≡ ok rs)
        × (routes ≡ record { domain = d; backend = b } ∷ rs)
  added_ok b (ok rs) d routes h = (rs, refl, cc)
  added_ok b (err e) d routes h = cc

  resolved_ok :
      (ob : Option Addr) (k : Addr → Result (List (DomainRoute Addr)))
      (routes : List (DomainRoute Addr))
      → (or_fail ob unresolved >>= k) ≡ ok routes
      → (b : Addr) × (ob ≡ some b) × (k b ≡ ok routes)
  resolved_ok none k routes h = cc
  resolved_ok (some b) k routes h = (b, refl, h)

  build_routes_ok :
      (addrs : List Text) (count i : ℕ) (ds : List Text) (routes : List (DomainRoute Addr))
      → i + length ds ≡ count
      → CountsMatch addrs count
      → build_routes resolve addrs count i ds ≡ ok routes
      → Routed addrs count i ds routes
  unfolding build_routes
  build_routes_ok addrs count i [] [] n m h = tt
  build_routes_ok addrs count i [] (r ∷ rs) n m h = cc
  build_routes_ok addrs count i (d ∷ ds) routes n m h =
      let (a, ea) = addr_of_lt addrs count i (omega arith) m in
      let (b, eb, h1) = resolved_ok (resolve a) _ routes (rw (ea, build_routes) at h) in
      let (rs, er, e) = added_ok b (build_routes resolve addrs count (suc i) ds) d routes h1 in
      rw e (
        refl,
        (a, addr_of-IsOwn addrs count i a m ea, eb),
        build_routes_ok addrs count (suc i) ds rs (omega arith) m er,
      )

  build_routes_no_panic :
      (addrs : List Text) (count i : ℕ) (ds : List Text)
      → i + length ds ≡ count
      → CountsMatch addrs count
      → build_routes resolve addrs count i ds ≢ err index_out_of_range
  unfolding build_routes
  build_routes_no_panic addrs count i [] n m h = cc
  build_routes_no_panic addrs count i (d ∷ ds) n m h =
      let (a, ea) = addr_of_lt addrs count i (omega arith) m in
      let rest = build_routes_no_panic addrs count (suc i) ds (omega arith) m in ground arith

  guard_cases :
      (b : Bool) (e : Error) (k r : Result (List (DomainRoute Addr)))
      → guard b e k ≡ r
      → ((b ≡ true) × (k ≡ r)) ⊎ (r ≡ err e)
  guard_cases true e k r h = inl (refl, h)
  guard_cases false e k r h = inr (sym h)

  filled : (ds : List Text) → not (is_empty ds) ≡ true → ds ≢ []
  filled [] h e = cc
  filled (d ∷ ds) h e = cc

  -- The outcomes that the three guards leave.
  abbrev Guarded : List Text → List Text → Result (List (DomainRoute Addr)) → Type 0
  Guarded ds addrs r =
      ((e : Error) × (r ≡ err e) × (e ≢ index_out_of_range))
      ⊎ (CountsMatch addrs (length ds)
          × (ds ≢ [])
          × (build_routes resolve addrs (length ds) 0 ds ≡ r))

  guards_ok :
      (ds addrs : List Text) (r : Result (List (DomainRoute Addr)))
      → guard (not (is_empty ds)) no_domain (
          guard (not (is_empty addrs)) no_backend (
            guard
              (if length addrs == 1 then true else length addrs == length ds)
              count_mismatch
              (build_routes resolve addrs (length ds) 0 ds)))
        ≡ r
      → Guarded ds addrs r
  guards_ok ds addrs r h =
      let built = build_routes resolve addrs (length ds) 0 ds in
      let counts = if length addrs == 1 then true else length addrs == length ds in
      let k2 = guard counts count_mismatch built in
      let k1 = guard (not (is_empty addrs)) no_backend k2 in
      elim (guard_cases (not (is_empty ds)) no_domain k1 r h) [
        | inr e ↦ inl (no_domain, e, (λ k. cc))
        | inl (g1, h1) ↦ elim (guard_cases (not (is_empty addrs)) no_backend k2 r h1) [
          | inr e ↦ inl (no_backend, e, (λ k. cc))
          | inl (g2, h2) ↦ elim (guard_cases counts count_mismatch built r h2) [
            | inr e ↦ inl (count_mismatch, e, (λ k. cc))
            | inl (g3, h3) ↦ inr (ground arith, filled ds g1, h3)
          ]
        ]
      ]

  -- A dispatcher that is built has a route for each domain left after the tidying, at least one, in
  -- their order, and with them the backends of the addresses: of the one address for all of them, or
  -- of the address in the same place.
  pub new_dns_dispatcher_ok :
      (lower : ℕ → ℕ) (domains backend_addrs : List Text) (routes : List (DomainRoute Addr))
      → new_dns_dispatcher resolve lower domains backend_addrs ≡ ok routes
      → let ds = normalized_domains lower domains in
        let addrs = normalized_addrs backend_addrs in
        (ds ≢ []) × CountsMatch addrs (length ds) × Routed addrs (length ds) 0 ds routes
  unfolding new_dns_dispatcher
  new_dns_dispatcher_ok lower domains backend_addrs routes h =
      let ds = normalized_domains lower domains in
      let addrs = normalized_addrs backend_addrs in
      elim (guards_ok ds addrs (ok routes) h) [
        | inl (e, q, _) ↦ cc
        | inr (m, filled, b) ↦
            (filled, m, build_routes_ok addrs (length ds) 0 ds routes (omega arith) m b)
      ]

  -- The index into the addresses is in range, whatever the arguments.
  pub new_dns_dispatcher_no_panic :
      (lower : ℕ → ℕ) (domains backend_addrs : List Text)
      → new_dns_dispatcher resolve lower domains backend_addrs ≢ err index_out_of_range
  unfolding new_dns_dispatcher
  new_dns_dispatcher_no_panic lower domains backend_addrs h =
      let ds = normalized_domains lower domains in
      let addrs = normalized_addrs backend_addrs in
      elim (guards_ok ds addrs (err index_out_of_range) h) [
        | inl (e, q, other) ↦ other (cc)
        | inr (m, _, b) ↦ build_routes_no_panic addrs (length ds) 0 ds (omega arith) m b
      ]
