-- ===== src/Panel/Flags/Reads.antt =====
-- Each flag that a command reads is declared for it, with the type that it is read with.
use libersuite_panel.Prelude.{◌≡◌, refl, some}
use libersuite_panel.Prelude.Int.{ℤ}
use libersuite_panel.Text.{Text}
use libersuite_panel.Panel.Export.{Flags}
use libersuite_panel.Panel.Flags.{
  ServerFlags, server_flags, read_server, AddFlags, add_flags, read_add, export_flags, read_export,
  KeyFlags, generate_flags, read_generate, regenerate_flags, read_regenerate, check_flags,
  read_check,
}

-- Each command reads back just the values that its declared flags have, whatever these are: no flag is read by a name
-- or with a type that was not declared, none in place of another, and the server command, which stops
-- at the first error, reads all of its flags.
pub flags_read :
    (server : ServerFlags) (add : AddFlags) (export : Flags) (key : KeyFlags) (path : Text)
    (size : ℤ)
    → (read_server (server_flags server) ≡ some server)
      × (read_add (add_flags add) ≡ add)
      × (read_export (export_flags export) ≡ export)
      × (read_generate (generate_flags key) ≡ key)
      × (read_regenerate (regenerate_flags path size) ≡ (path, size))
      × (read_check (check_flags path) ≡ path)
unfolding read_server server_flags read_add add_flags read_export export_flags read_generate
    generate_flags read_regenerate regenerate_flags read_check check_flags
flags_read server add export key path size = (refl, refl, refl, refl, refl, refl)
