-- ===== src/Panel/Keys.antt =====
-- The key commands of cmd/panel/keys.go, and the host key's part of the server command in cmd/panel/server.go.
pub mod Effects
use libersuite_panel.Prelude.{Bool, true, false, if◌then◌else◌}
use libersuite_panel.Prelude.Int.{ℤ}
use libersuite_panel.Text.{Text, is_empty}
use libersuite_panel.Crypto.Calls.{Disk, key_already_exists, Result, ok, err, M, stat}
use libersuite_panel.Crypto.{Keys, key_exists, generate_rsa_key_pair, regenerate_rsa_key_pair}

-- The path given, or the one in the configuration's directory.
abbrev pub path_or : Text → Text → Text
path_or default output = if is_empty output then default else output

module _ (K : Keys) where
  -- With force, an old pair is looked for again and replaced.
  abbrev pub replace_or_make : Bool × Disk → Text → ℤ → Result (Unit {0}) × Disk
  replace_or_make (true, d) key_path key_size = regenerate_rsa_key_pair K key_path key_size d
  replace_or_make (false, d) key_path key_size = generate_rsa_key_pair K key_path key_size d

  abbrev pub generate_checked : Bool → Text → ℤ → Bool × Disk → Result (Unit {0}) × Disk
  generate_checked true key_path key_size (found, d) =
      replace_or_make (stat key_path d) key_path key_size
  generate_checked false key_path key_size (true, d) = (err key_already_exists, d)
  generate_checked false key_path key_size (false, d) = generate_rsa_key_pair K key_path key_size d

  unfoldable pub generate_command : Text → Text → ℤ → Bool → M (Unit {0})
  unfolding key_exists
  generate_command default output key_size force d =
      let key_path = path_or default output in
      generate_checked force key_path key_size (key_exists K key_path d)

  unfoldable pub regenerate_command : Text → Text → ℤ → M (Unit {0})
  regenerate_command default output key_size d =
      regenerate_rsa_key_pair K (path_or default output) key_size d

  -- What `keys check` prints.
  unfoldable pub check_command : Text → Text → Disk → Bool × Disk
  unfolding key_exists
  check_command default path d = key_exists K (path_or default path) d

  abbrev pub make_unless : Bool × Disk → Text → ℤ → Result (Unit {0}) × Disk
  make_unless (true, d) host_key key_size = (ok tt, d)
  make_unless (false, d) host_key key_size = generate_rsa_key_pair K host_key key_size d

  -- The server command's host key.
  unfoldable pub host_key_step : Bool → Text → Text → ℤ → M (Unit {0})
  unfolding key_exists
  host_key_step regenerate_key default host_key key_size d =
      let key_path = path_or default host_key in
      if regenerate_key
      then regenerate_rsa_key_pair K key_path key_size d
      else make_unless (key_exists K key_path d) key_path key_size
