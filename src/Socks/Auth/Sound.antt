-- ===== src/Socks/Auth/Sound.antt =====
-- A client that `authenticate` returns has logged in.
use mathlib.Core.List.{append_assoc}
use libersuite_panel.Prelude.{
  ℕ, ◌≡◌, ◌≢◌, refl, sym, ap, subst, ◌∙◌, true, false, ◌&&◌, [], ◌∷◌, ◌++◌, Option, none, some,
  ◌==◌, ==_iff, if◌then◌else◌, length, text_eq, text_eq_iff, arith,
}
use libersuite_panel.Text.{Text}
use libersuite_panel.Client.{Client, Time, is_active}
use libersuite_panel.Database.{Database}
use libersuite_panel.Socks.Wire.{
  no_user_pass, bad_auth_version, empty_username, invalid_credentials, unsupported_version, ok,
  World, M, continue, refuse, byte_at,
}
use libersuite_panel.Socks.Wire.Moves.{
  Moved, Moved-read, Moved-write, after, write_ok, after_read, after_write, after_guard, two_bytes,
  one_byte,
}
use libersuite_panel.Socks.Auth.{
  socks_version5, auth_method_user_pass, user_pass_version, has_method, negotiate, read_credentials,
  find_client, admit, authenticate,
}
use libersuite_panel.Socks.Auth.Login.{Login, greeting, credentials, encode_login}

nonempty : (s : Text) (n : ℕ) → length s ≡ n → (if n == 0 then false else true) ≡ true → s ≢ []
nonempty s n h k e = ground (arith, ap length e)

module _ {S : Type 0} where
  -- A header of two bytes: a version that was checked, and a length that was used.
  version-Moved :
      {w w' : World S} (bs : Text) (version : ℕ) (used : Text)
      → length bs ≡ 2
      → (byte_at bs 0 == version) ≡ true
      → length used ≡ byte_at bs 1
      → Moved w w' bs []
      → Moved w w' (version ∷ length used ∷ []) []
  version-Moved {w} {w'} bs version used two same n =
      subst (λ t. Moved w w' t []) (two_bytes bs two ∙ heads)
    where
      heads : byte_at bs 0 ∷ byte_at bs 1 ∷ [] ≡ version ∷ length used ∷ []
      heads = cc ((==_iff (byte_at bs 0) version).0 same)

  length-Moved :
      {w w' : World S} (bs used : Text)
      → length bs ≡ 1
      → length used ≡ byte_at bs 0
      → Moved w w' bs []
      → Moved w w' (length used ∷ []) []
  length-Moved {w} {w'} bs used one n =
      subst (λ t. Moved w w' t []) (one_byte bs one ∙ ap (λ b. b ∷ []) (sym n))

  pub negotiate_ok :
      (w w' : World S)
      → negotiate w ≡ (ok tt, w')
      → (methods : Text) × (has_method methods auth_method_user_pass ≡ true)
        × Moved w w' (greeting methods) (socks_version5 ∷ auth_method_user_pass ∷ [])
  unfolding negotiate refuse
  negotiate_ok w w' h = after_read 2 w _ h λ header w1 len1 m1 h1.
      after_guard (byte_at header 0 == socks_version5) _ (unsupported_version (byte_at header 0)) w1
        _ refl h1
        λ g1 h2. after_read (byte_at header 1) w1 _ h2 λ methods w2 len2 m2 h3.
          after_guard (has_method methods auth_method_user_pass) _ no_user_pass w2 _ refl h3
            λ g3 h4.
              let asked = version-Moved header socks_version5 methods len1 g1 len2 m1 in
              (methods, g3, Moved-write (Moved-read asked m2) (write_ok _ w2 h4))

  pub read_credentials_ok :
      (w w' : World S) (username password : Text)
      → read_credentials w ≡ (ok (username, password), w')
      → (username ≢ []) × Moved w w' (credentials username password) []
  unfolding read_credentials refuse
  read_credentials_ok w w' username password h = after_read 2 w _ h λ header w1 len1 m1 h1.
      after_guard (byte_at header 0 == user_pass_version) _ bad_auth_version w1 _ refl h1 λ g1 h2.
        after_guard (if byte_at header 1 == 0 then false else true) _ empty_username w1 _ refl h2
          λ g2 h3. after_read (byte_at header 1) w1 _ h3 λ user w2 len2 m2 h4.
            after_read 1 w2 _ h4 λ buffer w3 len3 m3 h5.
              after_read (byte_at buffer 0) w3 _ h5 λ pass w4 len4 m4 h6.
                let parts : (user ≡ username) × (pass ≡ password) × (w4 ≡ w') = ground arith in
                let asked = version-Moved header user_pass_version user len1 g1 len2 m1 in
                let sent_length = length-Moved buffer pass len3 len4 m3 in
                rw (← parts.0, ← parts.1, ← parts.2)
                  (
                    nonempty user (byte_at header 1) len2 g2,
                    Moved-read asked (Moved-read m2 (Moved-read sent_length m4)),
                  )

module _ (D : Database) (checked stamped : Time) where
  after_find :
      {B P : Type 0} {b : B} {w' : World D.State} (username : Text) (w : World D.State)
      (f : Client → M D.State B)
      → continue (find_client D checked stamped username w) f ≡ (ok b, w')
      → ((found : Client) → D.find_first w.db username ≡ some found → f found w ≡ (ok b, w') → P)
      → P
  unfolding find_client refuse
  after_find {B} {P} {b} {w'} username w f h k = found (D.find_first w.db username) refl
    where
      found : (r : Option Client) → D.find_first w.db username ≡ r → P
      found none e = let h' = rw (e, find_client, continue) at h in cc
      found (some c) e = k c e (rw (e, find_client, continue) at h)

  admit_ok :
      (username password : Text) (w w' : World D.State) (c : Client)
      → admit D checked stamped username password w ≡ (ok c, w')
      → (found : Client) × (D.find_first w.db username ≡ some found)
        × (found.password ≡ password)
        × (is_active found checked ≡ true)
        × (c ≡ record found { last_connection = stamped })
        × (w'.wire.input ≡ w.wire.input)
        × (w'.wire.output ≡ w.wire.output ++ (user_pass_version ∷ 0x00 ∷ []))
        × (w'.db ≡ (D.save w.db c).0)
  unfolding admit refuse
  admit_ok username password w w' c h = after_find username w _ h λ found e h1.
      after_guard (text_eq found.password password && is_active found checked) _ invalid_credentials
        w _ refl h1
        λ g h2.
          let fresh = record found { last_connection = stamped } in
          let saved : World D.State = record w { db = (D.save w.db fresh).0 } in
          after_write (user_pass_version ∷ 0x00 ∷ []) saved _ h2 λ v m h3.
            let same : (fresh ≡ c) × (v ≡ w') = ground arith in
            rw (← same.0, ← same.1)
              (
                found,
                e,
                (text_eq_iff found.password password).0 (ground arith),
                ground arith,
                refl,
                sym m.read,
                m.wrote,
                m.same_db,
              )

  -- What a successful login is.
  abbrev pub LoggedIn : World D.State → World D.State → Client → Login → Client → Type 0
  LoggedIn w w' c l found =
      (w.wire.input ≡ encode_login l ++ w'.wire.input)
      × (has_method l.methods auth_method_user_pass ≡ true)
      × (l.username ≢ [])
      × (D.find_first w.db l.username ≡ some found)
      × (found.password ≡ l.password)
      × (is_active found checked ≡ true)
      × (c ≡ record found { last_connection = stamped })
      × (w'.wire.output ≡ w.wire.output ++ 5 ∷ 2 ∷ 1 ∷ 0 ∷ [])
      × (w'.db ≡ (D.save w.db c).0)

  logged_in :
      (methods username password : Text) (w v w' : World D.State) (c : Client)
      → has_method methods auth_method_user_pass ≡ true
      → username ≢ []
      → Moved w v (greeting methods ++ credentials username password) (5 ∷ 2 ∷ [])
      → admit D checked stamped username password v ≡ (ok c, w')
      → (l : Login) × (found : Client) × LoggedIn w w' c l found
  logged_in methods username password w v w' c offered filled m h =
      let (found, f, pw, active, same, input, output, db) = admit_ok username password v w' c h in
      (
        record { methods = methods; username = username; password = password },
        found,
        (
          rw input m.read,
          offered,
          filled,
          rw (← m.same_db) f,
          pw,
          active,
          same,
          output ∙ ap (λ t. t ++ 1 ∷ 0 ∷ []) m.wrote ∙ append_assoc w.wire.output _ _,
          db ∙ ap (λ s. (D.save s c).0) m.same_db,
        ),
      )

  -- `authenticate` returns a client only to a peer that sent a well-formed login: it offered the user
  -- name and password method, the name is not empty, the first row with that name has the password
  -- sent, and that row's client was active. The client is that row with the new connection time, just
  -- the login has been read, the two success replies have been written, and the row is saved.
  pub authenticate_sound :
      (w w' : World D.State) (c : Client)
      → authenticate D checked stamped w ≡ (ok c, w')
      → (l : Login) × (found : Client) × LoggedIn w w' c l found
  unfolding authenticate
  authenticate_sound w w' c h = after (negotiate w) _ h λ _ w1 e1 h1.
      after (read_credentials w1) _ h1 λ sent w2 e2 h2.
        let (methods, offered, m1) = negotiate_ok w w1 e1 in
        let (filled, m2) = read_credentials_ok w1 w2 sent.0 sent.1 e2 in
        logged_in methods sent.0 sent.1 w w2 w' c offered filled (Moved-read m1 m2) h2
