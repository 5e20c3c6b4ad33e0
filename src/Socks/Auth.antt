-- ===== src/Socks/Auth.antt =====
-- authenticate: the method negotiation of RFC 1928 and the user name and password of RFC 1929.
pub mod Login
pub mod Sound
pub mod Complete
use libersuite_panel.Prelude.{
  ℕ, Bool, true, false, ◌&&◌, [], ◌∷◌, none, some, ◌==◌, if◌then◌else◌, text_eq,
}
use libersuite_panel.Text.{Text}
use libersuite_panel.Client.{Client, Time, is_active}
use libersuite_panel.Database.{Database}
use libersuite_panel.Socks.Wire.{
  no_user_pass, bad_auth_version, empty_username, invalid_credentials, unsupported_version, ok, M,
  pure, fail, ◌>>=◌, ◌>>◌, read_full, write, refuse, guard, byte_at,
}

abbrev pub socks_version5 : ℕ
socks_version5 = 0x05

abbrev pub auth_method_user_pass : ℕ
auth_method_user_pass = 0x02

abbrev pub auth_method_no_accept : ℕ
auth_method_no_accept = 0xff

abbrev pub user_pass_version : ℕ
user_pass_version = 0x01

unfoldable pub has_method : Text → ℕ → Bool
has_method [] method = false
has_method (m ∷ methods) method = if m == method then true else has_method methods method

abbrev pub auth_failed : Text
auth_failed = user_pass_version ∷ 0x01 ∷ []

module _ {S : Type 0} where
  -- The greeting, up to the choice of the method.
  unfoldable pub negotiate : M S (Unit {0})
  unfolding has_method
  negotiate = do
    header ← read_full 2
    guard (byte_at header 0 == socks_version5) (fail (unsupported_version (byte_at header 0)))
    methods ← read_full (byte_at header 1)
    guard (has_method methods auth_method_user_pass)
        (refuse (socks_version5 ∷ auth_method_no_accept ∷ []) no_user_pass)
    write (socks_version5 ∷ auth_method_user_pass ∷ [])

  -- The user name and the password that the client sends.
  unfoldable pub read_credentials : M S (Text × Text)
  read_credentials = do
    up_header ← read_full 2
    guard (byte_at up_header 0 == user_pass_version) (refuse auth_failed bad_auth_version)
    guard (if byte_at up_header 1 == 0 then false else true) (refuse auth_failed empty_username)
    username ← read_full (byte_at up_header 1)
    pass_len_buf ← read_full 1
    password ← read_full (byte_at pass_len_buf 0)
    pure (username, password)

module _ (D : Database) (checked stamped : Time) where
  unfoldable pub find_client : Text → M D.State Client
  find_client username w = elim (D.find_first w.db username) [
    | none ↦ refuse auth_failed invalid_credentials w
    | some client ↦ (ok client, w)
  ]

  -- An error of Save is dropped.
  unfoldable pub save_client : Client → M D.State (Unit {0})
  save_client client w = (ok tt, record w { db = (D.save w.db client).0 })

  -- The check of the password and of the client's state, and the stamp of the connection.
  unfoldable pub admit : Text → Text → M D.State Client
  unfolding find_client save_client
  admit username password = do
    client ← find_client username
    guard (text_eq client.password password && is_active client checked)
        (refuse auth_failed invalid_credentials)
    let stamped_client = record client { last_connection = stamped }
    save_client stamped_client
    write (user_pass_version ∷ 0x00 ∷ [])
    pure stamped_client

  -- `checked` and `stamped` are the two readings of the clock.
  unfoldable pub authenticate : M D.State Client
  authenticate = do negotiate; (username, password) ← read_credentials; admit username password
