-- ===== src/Socks/Auth/Complete.antt =====
-- What `authenticate` answers to a login that is sent in full, to a peer that takes every reply.
use mathlib.Core.List.{append_assoc}
use libersuite_panel.Prelude.{
  ◌≡◌, ◌≢◌, refl, ap, ◌∙◌, Bool, true, false, ◌&&◌, [], ◌∷◌, ◌++◌, Option, none, some, ◌==◌, length,
  text_eq, arith, Option-cases, inl, inr,
}
use libersuite_panel.Text.{Text}
use libersuite_panel.Client.{Client, Time, is_active}
use libersuite_panel.Database.{Database}
use libersuite_panel.Socks.Wire.{
  invalid_credentials, ok, err, World, continue, with_input, with_output,
}
use libersuite_panel.Socks.Wire.Moves.{read_full-append, write_whole, refuse_whole}
use libersuite_panel.Socks.Auth.{
  socks_version5, auth_method_user_pass, user_pass_version, has_method, auth_failed, negotiate,
  read_credentials, find_client, admit, authenticate,
}
use libersuite_panel.Socks.Auth.Login.{Login, greeting, credentials, encode_login}

filled : (s : Text) → s ≢ [] → (length s == 0) ≡ false
filled [] h = absurd (h refl)
filled (c ∷ s) h = ground arith

module _ {S : Type 0} (w : World S) (quiet : w.wire.deliveries ≡ []) where
  negotiate_run :
      (methods rest : Text)
      → has_method methods auth_method_user_pass ≡ true
      → negotiate (with_input (greeting methods ++ rest) w) ≡ (
        ok tt,
        with_output
            (w.wire.output ++ (socks_version5 ∷ auth_method_user_pass ∷ []))
            (with_input rest w),
      )
  unfolding negotiate
  negotiate_run methods rest h =
      rw
        (
          read_full-append (socks_version5 ∷ length methods ∷ []) (methods ++ rest) w,
          continue,
          read_full-append methods rest w,
          h,
        )
        (write_whole (socks_version5 ∷ auth_method_user_pass ∷ []) (with_input rest w) quiet)

  read_credentials_run :
      (username password rest : Text)
      → username ≢ []
      → read_credentials (with_input (credentials username password ++ rest) w)
        ≡ (ok (username, password), with_input rest w)
  unfolding read_credentials
  read_credentials_run username password rest h = rw (
    read_full-append (user_pass_version ∷ length username ∷ [])
        ((username ++ ((length password ∷ []) ++ password)) ++ rest) w,
    continue,
    filled username h,
    append_assoc username ((length password ∷ []) ++ password) rest,
    read_full-append username (((length password ∷ []) ++ password) ++ rest) w,
    read_full-append (length password ∷ []) (password ++ rest) w,
    read_full-append password rest w,
  )

-- The test of a login against the row that is found.
abbrev pub accepts : Option Client → Text → Time → Bool
accepts none password now = false
accepts (some found) password now = text_eq found.password password && is_active found now

module _ (D : Database) (checked stamped : Time) (w : World D.State)
    (quiet : w.wire.deliveries ≡ []) where
  find_client_run :
      (username : Text) (found : Client)
      → D.find_first w.db username ≡ some found
      → find_client D checked stamped username w ≡ (ok found, w)
  unfolding find_client
  find_client_run username found e = rw (e, find_client)

  admit-accepts :
      (username password : Text) (found : Client)
      → D.find_first w.db username ≡ some found
      → accepts (some found) password checked ≡ true
      → let c : Client = record found { last_connection = stamped } in
        admit D checked stamped username password w ≡ (
          ok c,
          record w {
            wire = record w.wire { output = w.wire.output ++ (user_pass_version ∷ 0x00 ∷ []) };
            db = (D.save w.db c).0;
          },
        )
  unfolding admit
  admit-accepts username password found e h =
      let c : Client = record found { last_connection = stamped } in
      rw (
        find_client_run username found e,
        continue,
        h,
        write_whole (user_pass_version ∷ 0x00 ∷ []) (record w { db = (D.save w.db c).0 }) quiet,
      )

  admit_rejects :
      (username password : Text)
      → accepts (D.find_first w.db username) password checked ≡ false
      → admit D checked stamped username password w
        ≡ (err invalid_credentials, with_output (w.wire.output ++ auth_failed) w)
  unfolding admit
  admit_rejects username password h = elim (Option-cases (D.find_first w.db username)) [
    | inl e ↦ rw (absent e, continue)
    | inr (found, e) ↦
        let differs : (text_eq found.password password && is_active found checked) ≡ false =
          rw e at h in
        rw (
          find_client_run username found e,
          continue,
          differs,
          refuse_whole auth_failed invalid_credentials w quiet,
          continue,
        )
  ]
    where
      absent :
          D.find_first w.db username ≡ none
          → find_client D checked stamped username w
            ≡ (err invalid_credentials, with_output (w.wire.output ++ auth_failed) w)
      absent e = rw (e, find_client) (refuse_whole auth_failed invalid_credentials w quiet)

module _ (D : Database) (checked stamped : Time) (w : World D.State) (l : Login) (rest : Text)
    (quiet : w.wire.deliveries ≡ []) (input : w.wire.input ≡ encode_login l ++ rest)
    (offered : has_method l.methods auth_method_user_pass ≡ true) (named : l.username ≢ []) where
  -- The world in which the credentials have been read.
  asked : World D.State
  asked = with_output (w.wire.output ++ 5 ∷ 2 ∷ []) (with_input rest w)

  authenticate-asked :
      authenticate D checked stamped w ≡ admit D checked stamped l.username l.password asked
  unfolding authenticate asked
  authenticate-asked =
      ap (authenticate D checked stamped)
        (ap (λ t. with_input t w) (input ∙ append_assoc (greeting l.methods) _ rest))
      ∙ rw (
        negotiate_run w quiet l.methods (credentials l.username l.password ++ rest) offered,
        continue,
        read_credentials_run (with_output (w.wire.output ++ 5 ∷ 2 ∷ []) w) quiet l.username
            l.password rest named,
      )

  -- A login sent in full, with a row of that name and password that is active, is accepted: the client
  -- is returned with the new connection time, exactly the login is read, the two success replies are
  -- written, and the row is saved.
  pub authenticate-accepts :
      (found : Client)
      → D.find_first w.db l.username ≡ some found
      → accepts (some found) l.password checked ≡ true
      → let c : Client = record found { last_connection = stamped } in
        authenticate D checked stamped w ≡ (
          ok c,
          record w {
            wire = record w.wire { input = rest; output = w.wire.output ++ 5 ∷ 2 ∷ 1 ∷ 0 ∷ [] };
            db = (D.save w.db c).0;
          },
        )
  unfolding asked
  authenticate-accepts found e h =
      authenticate-asked
      ∙ admit-accepts D checked stamped asked quiet l.username l.password found e h
      ∙ rw (append_assoc w.wire.output)

  -- A login sent in full that is not accepted, whether the name is unknown, the password differs or the
  -- client is inactive, gets one and the same answer, and the database is left alone.
  pub authenticate_rejects :
      accepts (D.find_first w.db l.username) l.password checked ≡ false
      → authenticate D checked stamped w ≡ (
        err invalid_credentials,
        record w {
          wire = record w.wire { input = rest; output = w.wire.output ++ 5 ∷ 2 ∷ 1 ∷ 1 ∷ [] };
        },
      )
  unfolding asked
  authenticate_rejects h =
      authenticate-asked
      ∙ admit_rejects D checked stamped asked quiet l.username l.password h
      ∙ rw (append_assoc w.wire.output)
