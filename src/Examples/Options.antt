-- ===== src/Examples/Options.antt =====
-- Options of the server command.
use libersuite_panel.Prelude.{◌+◌, ◌<◌, ◌≡◌, refl, [], ◌∷◌, length, get_elem?, arith}
use libersuite_panel.Prelude.Int.{pos}
use libersuite_panel.Text.{Text, split}
use libersuite_panel.Text.Trim.{trim_space}
use libersuite_panel.Dns.{addr_of, normalized_addrs}
use libersuite_panel.Panel.Domains.{parse_domains}
use libersuite_panel.Panel.Setup.{setup, accepted}
use libersuite_panel.Panel.Setup.Routes.{setup_crosses}
use libersuite_panel.Examples.{al, pw}

abbrev two : Text
two = b'a' ∷ b',' ∷ b'b' ∷ []

crossed :
    setup two pw al two (pos 1) (pos 2) (pos 3)
    ≡ accepted ((b'a' ∷ []) ∷ (b'b' ∷ []) ∷ al ∷ []) (pw ∷ (b'a' ∷ []) ∷ (b'b' ∷ []) ∷ [])
unfolding setup parse_domains trim_space split
crossed = refl

parsed_al : parse_domains al ≡ al ∷ []
unfolding parse_domains trim_space split
parsed_al = refl

parsed_pw : parse_domains pw ≡ pw ∷ []
unfolding parse_domains trim_space split
parsed_pw = refl

parsed_two : parse_domains two ≡ (b'a' ∷ []) ∷ (b'b' ∷ []) ∷ []
unfolding parse_domains trim_space split
parsed_two = refl

totals :
    length (parse_domains two) + length (parse_domains al)
    ≡ length (parse_domains pw) + length (parse_domains two)
totals = rw (parsed_two, parsed_al, parsed_pw) (omega arith)

fewer : length (parse_domains pw) < length (parse_domains two)
fewer = rw (parsed_two, parsed_pw) (omega arith)

-- The second domain of dnstt goes to "a", an address of slipstream.
setup_crosses_example :
    (get_elem? ((b'a' ∷ []) ∷ (b'b' ∷ []) ∷ al ∷ []) (length (parse_domains pw))
      ≡ get_elem? (parse_domains two) (length (parse_domains pw)))
    × (addr_of
          (normalized_addrs (pw ∷ (b'a' ∷ []) ∷ (b'b' ∷ []) ∷ []))
          3
          (length (parse_domains pw))
        ≡ get_elem? (parse_domains two) 0)
setup_crosses_example =
    setup_crosses two pw al two (pos 1) (pos 2) (pos 3) ((b'a' ∷ []) ∷ (b'b' ∷ []) ∷ al ∷ [])
      (pw ∷ (b'a' ∷ []) ∷ (b'b' ∷ []) ∷ []) crossed totals fewer
