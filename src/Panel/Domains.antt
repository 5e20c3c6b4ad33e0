-- ===== src/Panel/Domains.antt =====
-- parseDomains of cmd/panel/server.go: a comma-separated list of domains or addresses.
pub mod RoundTrip
use libersuite_panel.Prelude.{Bool, true, false, List, [], ◌∷◌, map, if◌then◌else◌}
use libersuite_panel.Text.{Text, is_empty, split}
use libersuite_panel.Text.Trim.{trim_space}

unfoldable pub non_empty_parts : List Text → List Text
non_empty_parts [] = []
non_empty_parts (part ∷ parts) =
    let rest = non_empty_parts parts in
    let domain = trim_space part in if is_empty domain then rest else domain ∷ rest

unfoldable pub parse_domains : Text → List Text
unfolding non_empty_parts
parse_domains value = non_empty_parts (split b',' value)
