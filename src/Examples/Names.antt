-- ===== src/Examples/Names.antt =====
-- Names that the dispatcher is asked for: a route of "a." with the backend 1, and one of ".a." with 2.
use libersuite_panel.Prelude.{ℕ, ◌≡◌, ◌≢◌, refl, some, text_eq, Option, List, [], ◌∷◌, ◌++◌, length}
use libersuite_panel.Text.{Text}
use libersuite_panel.Text.Suffix.{has_suffix}
use libersuite_panel.Text.Trim.{trim_space}
use libersuite_panel.Dns.{
  DomainRoute, ok, new_dns_dispatcher, normalized_domains, normalized_addrs, match_target, with_dot,
}
use libersuite_panel.Dns.Match.{FirstMatch, match_target_first}
use libersuite_panel.Dns.Routes.{CountsMatch, Routed, new_dns_dispatcher_ok}
use libersuite_panel.Examples.{al, pw}

abbrev short : DomainRoute ℕ
short = record { domain = b'a' ∷ b'.' ∷ []; backend = 1 }

abbrev long : DomainRoute ℕ
long = record { domain = b'.' ∷ b'a' ∷ b'.' ∷ []; backend = 2 }

-- "xa.", whose label only ends in an "a".
abbrev foreign : Text
foreign = b'x' ∷ b'a' ∷ b'.' ∷ []

match_target_first_example :
    FirstMatch (long ∷ short ∷ []) foreign (match_target (long ∷ short ∷ []) foreign)
match_target_first_example = match_target_first (long ∷ short ∷ []) foreign

abbrev same : ℕ → ℕ
same c = c

-- Every address resolves, to its length.
abbrev resolve : Text → Option ℕ
resolve a = some (length a)

abbrev routes : List (DomainRoute ℕ)
routes =
    record { domain = al ++ (b'.' ∷ []); backend = 2 }
    ∷ record { domain = pw ++ (b'.' ∷ []); backend = 2 }
    ∷ []

built : new_dns_dispatcher resolve same (al ∷ pw ∷ []) (al ∷ []) ≡ ok routes
unfolding new_dns_dispatcher trim_space libersuite_panel.Text.to_lower with_dot has_suffix text_eq
built = refl

new_dns_dispatcher_ok_example :
    (normalized_domains same (al ∷ pw ∷ []) ≢ [])
    × CountsMatch (normalized_addrs (al ∷ [])) (length (normalized_domains same (al ∷ pw ∷ [])))
    × Routed resolve
        (normalized_addrs (al ∷ []))
        (length (normalized_domains same (al ∷ pw ∷ [])))
        0
        (normalized_domains same (al ∷ pw ∷ []))
        routes
new_dns_dispatcher_ok_example =
    new_dns_dispatcher_ok resolve same (al ∷ pw ∷ []) (al ∷ []) routes built
