-- ===== src/Examples/Commands.antt =====
-- Commands of the panel, and the checks on a client's record.
use libersuite_panel.Prelude.{◌≡◌, refl, [], ◌∷◌, All, List}
use libersuite_panel.Text.{Text}
use libersuite_panel.Text.Trim.{is_space}
use libersuite_panel.Text.HostPort.{contains_byte}
use libersuite_panel.Database.Table.{Table, table}
use libersuite_panel.Panel.Clients.{enable_client}
use libersuite_panel.Panel.Domains.{parse_domains}
use libersuite_panel.Panel.Domains.RoundTrip.{join_comma, IsEntry, parse_domains-join_comma}
use libersuite_panel.Examples.{al, pw, one_row}

abbrev on : Table
on = (enable_client table al one_row).0

abbrev two_names : List Text
two_names = al ∷ pw ∷ []

names_IsEntry : All IsEntry two_names
unfolding is_space contains_byte
names_IsEntry = (((λ e. cc), (refl, refl), refl), (((λ e. cc), (refl, refl), refl), tt))

parse_domains-join_comma_example : parse_domains (join_comma two_names) ≡ two_names
parse_domains-join_comma_example = parse_domains-join_comma two_names names_IsEntry
