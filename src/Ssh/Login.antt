-- ===== src/Ssh/Login.antt =====
-- passwordHandler admits exactly the logins that the SOCKS server's check admits.
use libersuite_panel.Prelude.{◌≡◌, refl, true, false, none, some, arith, Option-cases, inl, inr}
use libersuite_panel.Text.{Text}
use libersuite_panel.Client.{Client, Time}
use libersuite_panel.Database.{Database}
use libersuite_panel.Socks.Auth.Complete.{accepts}
use libersuite_panel.Ssh.{password_handler}

-- A login that the SOCKS server's check of the same row and password accepts is admitted: the row is
-- saved with the new connection time, and put into the connection's context. Any other login gets no
-- context and leaves the table alone.
pub password_handler_agrees :
    (D : Database) (checked stamped : Time) (username password : Text) (s : D.State)
    → (accepts (D.find_first s username) password checked ≡ true
        → (c : Client) × (D.find_first s username ≡ some c)
          × (let fresh : Client = record c { last_connection = stamped } in
              password_handler D checked stamped username password s
              ≡ record { table = (D.save s fresh).0; context = some fresh }))
      × (accepts (D.find_first s username) password checked ≡ false
          → password_handler D checked stamped username password s
            ≡ record { table = s; context = none })
unfolding password_handler
password_handler_agrees D checked stamped username password s =
    elim (Option-cases (D.find_first s username)) [
      | inl e ↦ rw (e, password_handler) ((λ h. cc), (λ h. refl))
      | inr (c, e) ↦ rw (e, password_handler) ((λ h. (c, refl, ground arith)), (λ h. ground arith))
    ]
