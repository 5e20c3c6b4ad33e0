-- ===== src/Panel/Entry.antt =====
-- The way from main of cmd/main.go to a command: the root command of cmd/panel/root.go, and
-- database/database.go. What cobra and gorm do is left to the parameters.
pub mod Exits
use libersuite_panel.Prelude.{ℕ, Bool, true, false, Option, none, some, ◌∷◌, []}
use libersuite_panel.Text.{Text}
use libersuite_panel.Crypto.Calls.{Disk, Result, ok, err, Error, directory_failed, mkdir_all}

-- gorm.Open of a path, AutoMigrate of the clients' table, DB.DB, and the Close of what this gives; `none` and `false`
-- are errors.
pub record Gorm : Type 1 where
  pub State : Type 0
  pub Handle : Type 0
  pub sql_db : State → Option Handle
  pub close_handle : Handle → Bool
  pub connect : Text → Option State
  pub auto_migrate : State → Option State

-- How Initialize ends.
pub data Init (S : Type 0) : Type 0 where
  ready : S → Init S
  failed_to_connect failed_to_migrate : Init S

-- How the process ends: the directory or the database is not to be had, and the command does not run; or it runs, and
-- leaves its table.
pub data Ended (S : Type 0) : Type 0 where
  no_directory : Ended S
  no_database : Init S → Ended S
  succeeded failed : S → Ended S

-- ".libersuite-panel"
abbrev pub config_name : Text
config_name =
    b'.' ∷ b'l' ∷ b'i' ∷ b'b' ∷ b'e' ∷ b'r' ∷ b's' ∷ b'u' ∷ b'i' ∷ b't' ∷ b'e' ∷ b'-' ∷ b'p' ∷ b'a'
    ∷ b'n' ∷ b'e' ∷ b'l' ∷ []

-- `none` is an error of os.UserHomeDir; `join` is filepath.Join.
abbrev pub config_dir : (Text → Text → Text) → Option Text → Text
config_dir join none = join (b'.' ∷ []) config_name
config_dir join (some home) = join home config_name

module _ (G : Gorm) where
  abbrev pub migrated : Option G.State → Init G.State
  migrated none = failed_to_migrate
  migrated (some s) = ready s

  abbrev pub opened : Option G.State → Init G.State
  opened none = failed_to_connect
  opened (some s) = migrated (G.auto_migrate s)

  unfoldable pub initialize : Text → Init G.State
  initialize db_path = opened (G.connect db_path)

  abbrev pub closed : Option G.Handle → Bool
  closed none = false
  closed (some handle) = G.close_handle handle

  -- Close of database.go, which no command calls.
  unfoldable pub close : G.State → Bool
  close s = closed (G.sql_db s)

  -- A command returns an error or none, and leaves the table.
  abbrev pub finished : Bool × G.State → Ended G.State
  finished (true, s) = succeeded s
  finished (false, s) = failed s

  abbrev pub with_database : Init G.State → (G.State → Bool × G.State) → Ended G.State
  with_database (ready s) command = finished (command s)
  with_database failed_to_connect command = no_database failed_to_connect
  with_database failed_to_migrate command = no_database failed_to_migrate

  abbrev pub with_directory : Result (Unit {0}) → Text → (G.State → Bool × G.State) → Ended G.State
  with_directory (err e) db_path command = no_directory
  with_directory (ok u) db_path command = with_database (initialize db_path) command

  -- PersistentPreRun, and then the command.
  unfoldable pub execute : Text → (G.State → Bool × G.State) → Disk → Ended G.State
  unfolding initialize
  execute db_path command d = with_directory (mkdir_all directory_failed d).0 db_path command

  abbrev pub exit_code : Ended G.State → ℕ
  exit_code no_directory = 1
  exit_code (no_database e) = 1
  exit_code (succeeded s) = 0
  exit_code (failed s) = 1

  -- The exit code of main.
  unfoldable pub main : Text → (G.State → Bool × G.State) → Disk → ℕ
  unfolding execute
  main db_path command d = exit_code (execute db_path command d)
