-- ===== src/Socks/Auth/Login.antt =====
-- What a client sends to log in, as bytes.
use libersuite_panel.Prelude.{[], ◌∷◌, ◌++◌, length}
use libersuite_panel.Text.{Text}
use libersuite_panel.Socks.Auth.{socks_version5, user_pass_version}

pub record Login : Type 0 where
  pub methods : Text
  pub username : Text
  pub password : Text

abbrev pub greeting : Text → Text
greeting methods = (socks_version5 ∷ length methods ∷ []) ++ methods

abbrev pub credentials : Text → Text → Text
credentials username password =
    (user_pass_version ∷ length username ∷ []) ++ (username ++ ((length password ∷ []) ++ password))

abbrev pub encode_login : Login → Text
encode_login l = greeting l.methods ++ credentials l.username l.password
