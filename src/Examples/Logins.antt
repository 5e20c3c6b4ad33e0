-- ===== src/Examples/Logins.antt =====
-- Logins of both servers.
use libersuite_panel.Prelude.{none, ◌≡◌, refl, true, false, some, [], ◌∷◌, ◌++◌, text_eq}
use libersuite_panel.Client.{Client, is_active}
use libersuite_panel.Database.Table.{Table, table, scan, row, put}
use libersuite_panel.Socks.Wire.{World, ok}
use libersuite_panel.Socks.Auth.{authenticate, has_method}
use libersuite_panel.Socks.Auth.Login.{Login, encode_login}
use libersuite_panel.Socks.Auth.Sound.{LoggedIn, authenticate_sound}
use libersuite_panel.Socks.Auth.Complete.{accepts, authenticate-accepts}
use libersuite_panel.Ssh.{password_handler}
use libersuite_panel.Ssh.Login.{password_handler_agrees}
use libersuite_panel.Examples.{al, pw, alice, one_row, login, world}

abbrev stamped_alice : Client
stamped_alice = record alice { last_connection = 7 }

abbrev logged_in : World Table
logged_in = record (world (1 ∷ [])) {
  wire = record (world (1 ∷ [])).wire { output = 5 ∷ 2 ∷ 1 ∷ 0 ∷ [] };
  db = put one_row 1 stamped_alice;
}

found_alice : scan one_row al 1 ≡ some alice
unfolding scan row text_eq
found_alice = refl

alice_accepted : accepts (some alice) pw 6 ≡ true
unfolding text_eq is_active
alice_accepted = refl

login_offered : has_method login.methods 2 ≡ true
unfolding has_method
login_offered = refl

login_succeeds :
    authenticate table 6 7 (world (encode_login login ++ (1 ∷ []))) ≡ (ok stamped_alice, logged_in)
login_succeeds =
    authenticate-accepts table 6 7 (world (encode_login login ++ (1 ∷ []))) login (1 ∷ []) refl refl
      login_offered (λ e. cc) alice found_alice alice_accepted

authenticate_sound_example :
    (l : Login) × (found : Client) × LoggedIn table 6 7
      (world (encode_login login ++ (1 ∷ [])))
      logged_in
      stamped_alice
      l
      found
authenticate_sound_example =
    authenticate_sound table 6 7 (world (encode_login login ++ (1 ∷ []))) logged_in stamped_alice
      login_succeeds

password_handler_agrees_example :
    (accepts (scan one_row al 1) pw 6 ≡ true
      → (c : Client) × (scan one_row al 1 ≡ some c)
        × (let fresh : Client = record c { last_connection = 7 } in
            password_handler table 6 7 al pw one_row
            ≡ record { table = (table.save one_row fresh).0; context = some fresh }))
    × (accepts (scan one_row al 1) pw 6 ≡ false
        → password_handler table 6 7 al pw one_row ≡ record { table = one_row; context = none })
password_handler_agrees_example = password_handler_agrees table 6 7 al pw one_row
