-- ===== src/Dns.antt =====
-- dnsdispatcher/dnsdispatcher.go: which backend a DNS query is forwarded to.
pub mod Match
pub mod Start
pub mod Routes
use libersuite_panel.Prelude.{
  ℕ, suc, ◌+◌, Bool, true, false, ◌&&◌, not, Option, none, some, List, [], ◌∷◌, ◌++◌, ◌==◌,
  if◌then◌else◌, length, get_elem?,
}
use libersuite_panel.Text.{Text, is_empty, to_lower}
use libersuite_panel.Text.Trim.{trim_space}
use libersuite_panel.Text.Suffix.{has_suffix}

pub record DomainRoute (Addr : Type 0) : Type 0 where
  pub domain : Text
  pub backend : Addr

-- The errors of NewDnsDispatcher, and the panic of an index out of range.
pub data Error : Type 0 where
  no_domain no_backend count_mismatch unresolved index_out_of_range : Error

pub data Result {ℓ} (A : Type ℓ) : Type ℓ where
  ok : A → Result A
  err : Error → Result A

infixl 5 ◌>>=◌
abbrev pub ◌>>=◌ {ℓ κ} : {A : Type ℓ} {B : Type κ} → Result A → (A → Result B) → Result B
ok a >>= f = f a
err e >>= f = err e

abbrev pub or_fail {ℓ} : {A : Type ℓ} → Option A → Error → Result A
or_fail none e = err e
or_fail (some a) e = ok a

abbrev pub guard {ℓ} : {A : Type ℓ} → Bool → Error → Result A → Result A
guard true e k = k
guard false e k = err e

unfoldable pub with_dot : Text → Text
with_dot domain = if has_suffix domain (b'.' ∷ []) then domain else domain ++ (b'.' ∷ [])

-- The two loops that tidy the arguments up: empty entries are dropped.
abbrev pub unless_empty : (Text → Text) → Text → List Text → List Text
unless_empty f s rest = if is_empty s then rest else f s ∷ rest

unfoldable pub normalized_domains : (ℕ → ℕ) → List Text → List Text
normalized_domains lower [] = []
normalized_domains lower (d ∷ ds) =
    unless_empty with_dot (trim_space (to_lower lower d)) (normalized_domains lower ds)

unfoldable pub normalized_addrs : List Text → List Text
normalized_addrs [] = []
normalized_addrs (a ∷ as') = unless_empty (λ s. s) (trim_space a) (normalized_addrs as')

-- The address of the domain at index i.
abbrev pub addr_of : List Text → ℕ → ℕ → Option Text
addr_of addrs count i = if length addrs == count then get_elem? addrs i else get_elem? addrs 0

module _ {Addr : Type 0} (resolve : Text → Option Addr) where
  -- The loop that builds the routes, from the domain at index i on.
  unfoldable pub build_routes : List Text → ℕ → ℕ → List Text → Result (List (DomainRoute Addr))
  build_routes addrs count i [] = ok []
  build_routes addrs count i (d ∷ ds) =
      let rest = build_routes addrs count (suc i) ds in
      or_fail (addr_of addrs count i) index_out_of_range >>= λ addr.
      or_fail (resolve addr) unresolved >>= λ backend.
      rest >>= λ routes. ok (record { domain = d; backend = backend } ∷ routes)

  unfoldable pub new_dns_dispatcher :
      (ℕ → ℕ) → List Text → List Text → Result (List (DomainRoute Addr))
  unfolding normalized_domains normalized_addrs build_routes
  new_dns_dispatcher lower domains backend_addrs =
      let ds = normalized_domains lower domains in
      let addrs = normalized_addrs backend_addrs in
      guard (not (is_empty ds)) no_domain (
        guard (not (is_empty addrs)) no_backend (
          guard (if length addrs == 1 then true else length addrs == length ds) count_mismatch
            (build_routes addrs (length ds) 0 ds)))

module _ {Addr : Type 0} where
  unfoldable pub match_target : List (DomainRoute Addr) → Text → Option Addr
  match_target [] q = none
  match_target (r ∷ rs) q = if has_suffix q r.domain then some r.backend else match_target rs q

-- A query: the names of its questions, and the rest of the message.
pub record Query (Body : Type 0) : Type 0 where
  pub questions : List Text
  pub body : Body

-- The handler of Start with forwardDNS: `exchange` is the DNS client, which answers or fails. The
-- result is the message that is written back.
module _ {Addr Body : Type 0} (exchange : Addr → Query Body → Option (Query Body)) where
  abbrev pub forward_dns : Option Addr → Query Body → Option (Query Body)
  forward_dns none query = none
  forward_dns (some target) query = exchange target query

  abbrev pub first_name : Query Body → Option Text
  first_name query = elim query.questions [ [] ↦ none | name ∷ rest ↦ some name ]

  unfoldable pub handle_query : (ℕ → ℕ) → List (DomainRoute Addr) → Query Body → Option (Query Body)
  unfolding match_target
  handle_query lower routes query = elim (first_name query) [
    | none ↦ none
    | some name ↦ forward_dns (match_target routes (to_lower lower name)) query
  ]
