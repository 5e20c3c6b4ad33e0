-- ===== src/Socks/Request/Billing/Frame.antt =====
-- What no peer of the SOCKS5 server can do to the clients' table.
use libersuite_panel.Prelude.{
  ℕ, ◌≡◌, ◌≢◌, ◌⊎◌, inl, inr, refl, sym, ap, subst, ◌∙◌, Bool, true, false, ◌&&◌, Bool-cases,
  Option-cases, Option, none, some, List, [], ◌∷◌, ◌++◌, text_eq, text_eq_iff, arith,
}
use libersuite_panel.Prelude.Int.{pos, ltb_ℤ}
use libersuite_panel.Text.{Text}
use libersuite_panel.Client.{Client, Time, is_active}
use libersuite_panel.Database.{Database, IsLawful}
use libersuite_panel.Socks.Wire.{
  Error, Result, ok, err, World, M, continue, refuse, guard, pure, write, invalid_credentials,
}
use libersuite_panel.Socks.Wire.Moves.{Moved-read}
use libersuite_panel.Socks.Auth.{
  auth_failed, user_pass_version, negotiate, read_credentials, find_client, save_client, admit,
  authenticate,
}
use libersuite_panel.Socks.Auth.Login.{Login, encode_login}
use libersuite_panel.Socks.Auth.Sound.{authenticate_sound, negotiate_ok, read_credentials_ok}
use libersuite_panel.Socks.Relay.{Event}
use libersuite_panel.Socks.Request.{
  handle_connect_request, handle_connection, with_deadline, after_auth, close_conn,
}
use libersuite_panel.Socks.Request.Billing.{
  KeepsDb, keeps, charged, session_bytes, Charges, keeps-refuse, keeps-guard, keeps-continue,
  keeps-write, keeps-pure, request-Bills,
}

module _ {S : Type 0} where
  keeps-negotiate : KeepsDb {S = S} negotiate
  unfolding negotiate
  keeps-negotiate = search keeps depth 20

  keeps-read_credentials : KeepsDb {S = S} read_credentials
  unfolding read_credentials
  keeps-read_credentials = search keeps depth 20

module _ (D : Database) (L : IsLawful D) where
  save_others :
      (s : D.State) (c : Client) (j : ℕ) → c.id ≢ 0 → c.id ≢ j → L.row (D.save s c).0 j ≡ L.row s j
  save_others s c j k other = elim (Bool-cases (D.save s c).1) [
    | inl e ↦ L.row-save s (D.save s c).0 c j k (ap (λ b. ((D.save s c).0, b)) e) ∙ ground arith
    | inr e ↦ L.row-save_failed s (D.save s c).0 c j (ap (λ b. ((D.save s c).0, b)) e)
  ]

  module _ (network : Text → Text → Bool) (events : List Event) where
    charged_others :
        (c : Client) (s : D.State) (j : ℕ)
        → c.id ≢ j
        → L.row (charged D network events c s) j ≡ L.row s j
    charged_others c s j other =
        let n = session_bytes D network events c in
        let t = (D.add_traffic_used s c.id n).0 in
        let flagged : (b : Bool)
            → (D.add_traffic_used s c.id n).1 ≡ b
            → D.add_traffic_used s c.id n ≡ (t, b) =
          λ b e. ap (λ x. (t, x)) e in
        let same : L.row t j ≡ L.row s j = elim (Bool-cases (D.add_traffic_used s c.id n).1) [
          | inl e ↦ L.add_traffic_used_others s t c.id j n (flagged true e) other
          | inr e ↦ L.add_traffic_used_failed s t c.id j n (flagged false e)
        ] in
        elim (Bool-cases (ltb_ℤ (pos 0) n)) [ inl e ↦ rw e same | inr e ↦ rw e refl ]

module _ (D : Database) (checked stamped : Time) where
  -- The row that a login has found, if the password and the client's state are right.
  abbrev pub Known : D.State → Text → Text → Client → Type 0
  Known s username password found =
      (D.find_first s username ≡ some found)
      × (found.password ≡ password)
      × (is_active found checked ≡ true)

  abbrev stamp : Client → Client
  stamp found = record found { last_connection = stamped }

  -- The table after a step of the login: as it was, or with the row of a known client saved.
  abbrev Stamps : Text → Text → D.State → D.State → Type 0
  Stamps username password s t =
      (t ≡ s)
      ⊎ ((found : Client) × Known s username password found × (t ≡ (D.save s (stamp found)).0))

  find_client_found :
      (username : Text) (w v : World D.State) (c : Client)
      → find_client D checked stamped username w ≡ (ok c, v)
      → (D.find_first w.db username ≡ some c) × (v ≡ w)
  unfolding find_client refuse
  find_client_found username w v c h = found (D.find_first w.db username) refl
    where
      found :
          (r : Option Client)
          → D.find_first w.db username ≡ r
          → (D.find_first w.db username ≡ some c) × (v ≡ w)
      found none e = let h' = rw (e, find_client) at h in absurd (cc)
      found (some d) e = let h' = rw (e, find_client) at h in (cc, cc)

  keeps-find_client : (username : Text) → KeepsDb (find_client D checked stamped username)
  unfolding find_client
  keeps-find_client username = record {
    same = λ w. elim (Option-cases (D.find_first w.db username)) [
      | inl e ↦ rw (e, find_client, (keeps-refuse _ _).same w) refl
      | inr (c, e) ↦ rw (e, find_client) refl
    ];
  }

  -- A step that changes nothing by itself and ends the login unless it succeeds.
  continue-Stamps :
      {A B : Type 0} (r : Result A × World D.State) (f : A → M D.State B) (s : D.State)
      (username password : Text)
      → r.1.db ≡ s
      → ((a : A) (v : World D.State) → r ≡ (ok a, v) → Stamps username password s (f a v).1.db)
      → Stamps username password s (continue r f).1.db
  continue-Stamps (ok a, v) f s username password h k = k a v refl
  continue-Stamps (err e, v) f s username password h k = inl h

  guard_passed :
      (b : Bool) (m : M D.State (Unit {0})) (e : Error) (w v : World D.State) (u : Unit {0})
      → (m w).0 ≡ err e
      → guard b m w ≡ (ok u, v)
      → (b ≡ true) × (v ≡ w)
  guard_passed true m e w v u never h = (refl, cc)
  guard_passed false m e w v u never h = absurd (let no : (m w).0 ≡ ok u = ap (λ r. r.0) h in cc)

  admit-Stamps :
      (username password : Text) (w : World D.State)
      → Stamps username password w.db (admit D checked stamped username password w).1.db
  unfolding admit save_client refuse
  admit-Stamps username password w =
      continue-Stamps (find_client D checked stamped username w) _ w.db username password
        ((keeps-find_client username).same w)
        λ c v e.
          let (first, same) = find_client_found username w v c e in
          let good = text_eq c.password password && is_active c checked in
          continue-Stamps (guard good (refuse auth_failed invalid_credentials) v) _ w.db username
            password
            ((keeps-guard good _ (keeps-refuse auth_failed invalid_credentials)).same v
              ∙ ap (λ x. x.db) same)
            λ u v' e'.
              let (g, same') = guard_passed good _ invalid_credentials v v' u refl e' in
              let saved : World D.State = record v' { db = (D.save v'.db (stamp c)).0 } in
              let db : (D.save v'.db (stamp c)).0 ≡ (D.save w.db (stamp c)).0 =
                ap (λ x. (D.save x.db (stamp c)).0) (same' ∙ same) in
              inr (
                c,
                (first, (text_eq_iff c.password password).0 (ground arith), ground arith),
                keeps-continue (write (user_pass_version ∷ 0x00 ∷ []) saved) (λ _. pure (stamp c))
                      saved.db (λ _. keeps-pure (stamp c))
                      ((keeps-write (user_pass_version ∷ 0x00 ∷ [])).same saved)
                    ∙ db,
              )

  -- What a login that was sent has to do with the table before and after.
  abbrev pub Stamped : World D.State → D.State → Type 0
  Stamped w t =
      (l : Login) × (rest : Text) × (found : Client) × (w.wire.input ≡ encode_login l ++ rest)
      × Known w.db l.username l.password found
      × (t ≡ (D.save w.db (stamp found)).0)

  authenticate_stamps :
      (w : World D.State)
      → ((authenticate D checked stamped w).1.db ≡ w.db)
        ⊎ Stamped w (authenticate D checked stamped w).1.db
  unfolding authenticate
  authenticate_stamps w = begun (negotiate w) (keeps-negotiate.same w) refl
    where
      asked :
          (w1 : World D.State) (r : Result (Text × Text) × World D.State)
          → negotiate w ≡ (ok tt, w1)
          → r.1.db ≡ w.db
          → read_credentials w1 ≡ r
          → let t = continue r (λ sent. admit D checked stamped sent.0 sent.1) in
            (t.1.db ≡ w.db) ⊎ Stamped w t.1.db
      asked w1 (ok (username, password), w2) e1 k e2 =
          let (methods, offered, m1) = negotiate_ok w w1 e1 in
          let (filled, m2) = read_credentials_ok w1 w2 username password e2 in
          let m = Moved-read m1 m2 in
          elim (admit-Stamps username password w2) [
            | inl same ↦ inl (same ∙ k)
            | inr (found, known, db) ↦ inr (
              record { methods = methods; username = username; password = password },
              w2.wire.input,
              found,
              m.read,
              (subst (λ s. D.find_first s username ≡ some found) k known.0, known.1, known.2),
              db ∙ ap (λ s. (D.save s (stamp found)).0) k,
            )
          ]
      asked w1 (err e, w2) e1 k e2 = inl k

      begun :
          (r : Result (Unit {0}) × World D.State)
          → r.1.db ≡ w.db
          → negotiate w ≡ r
          → let t = continue r (λ _ w1.
            continue (read_credentials w1) (λ sent. admit D checked stamped sent.0 sent.1)) in
            (t.1.db ≡ w.db) ⊎ Stamped w t.1.db
      begun (ok u, w1) k e =
          asked w1 (read_credentials w1) e (keeps-read_credentials.same w1 ∙ k) refl
      begun (err e', w1) k e = inl k

module _ (D : Database) (L : IsLawful D) (network : Text → Text → Bool) (events : List Event)
    (checked stamped : Time) where
  abbrev Kept : D.State → D.State → Type 0
  Kept s t = (i : ℕ) → L.row t i ≡ L.row s i

  -- What a connection leaves of the rows: all of them, or all but that of a client whose name and password
  -- its peer has sent.
  abbrev pub Framed : World D.State → D.State → Type 0
  Framed w t =
      ((i : ℕ) → L.row t i ≡ L.row w.db i)
      ⊎ ((l : Login) × (rest : Text) × (found : Client) × (w.wire.input ≡ encode_login l ++ rest)
          × Known D checked stamped w.db l.username l.password found
          × ((i : ℕ) → found.id ≢ i → L.row t i ≡ L.row w.db i))

  found_id :
      (s : D.State) (username : Text) (c : Client) → D.find_first s username ≡ some c → c.id ≢ 0
  found_id s username c e z =
      L.row_pos s c (subst (λ i. L.row s i ≡ some c) z (L.find_first_row s username c e).0)

  login_frames :
      (w : World D.State) (t : D.State) → (t ≡ w.db) ⊎ Stamped D checked stamped w t → Framed w t
  login_frames w t (inl same) = inl (λ i. ap (λ s. L.row s i) same)
  login_frames w t (inr (l, rest, found, input, known, db)) = inr (
    l,
    rest,
    found,
    input,
    known,
    λ i other.
        ap (λ s. L.row s i) db
        ∙ save_others D L w.db _ i (found_id w.db l.username found known.0) other,
  )

  request_frames :
      (c : Client) (s : D.State) (r : Result (Unit {0}) × World D.State)
      → Charges D network events c s r.0 r.1.db
      → (i : ℕ) → c.id ≢ i
      → L.row r.1.db i ≡ L.row s i
  request_frames c s (ok u, v) h i other =
      ap (λ t. L.row t i) h ∙ charged_others D L network events c s i other
  request_frames c s (err e, v) h i other = ap (λ t. L.row t i) h

  served_frames :
      (w v : World D.State) (c : Client)
      → authenticate D checked stamped (with_deadline D network events true w) ≡ (ok c, v)
      → Framed w
          (handle_connect_request D network events c (with_deadline D network events false v)).1.db
  served_frames w v c e =
      let (l, found, sent) = authenticate_sound D checked stamped _ v c e in
      let (input, _, _, first, pw, active, same, _, db) = sent in
      let id : c.id ≡ found.id = ap (λ d. d.id) same in
      let u = with_deadline D network events false v in
      let bills = (request-Bills D network events c).bill u in
      inr (
        l,
        v.wire.input,
        found,
        input,
        (first, pw, active),
        λ i other.
            request_frames c v.db (handle_connect_request D network events c u) bills i
              (λ k. other (sym id ∙ k))
            ∙ ap (λ s. L.row s i) db
            ∙ save_others D L w.db c i (λ z. found_id w.db l.username found first (sym id ∙ z))
                (λ k. other (sym id ∙ k)),
      )

  -- Whatever a peer sends, whichever writes and calls of the database fail, and whatever is relayed, a connection changes
  -- no row of the table but that of a client who was active and whose name and password the peer has
  -- sent, as a login in full at the start of its bytes.
  pub handle_connection_frame :
      (w : World D.State) → Framed w (handle_connection D network events checked stamped w).db
  unfolding handle_connection
  handle_connection_frame w =
      through (authenticate D checked stamped (with_deadline D network events true w)) refl
    where
      through :
          (r : Result Client × World D.State)
          → authenticate D checked stamped (with_deadline D network events true w) ≡ r
          → Framed w (close_conn D network events (after_auth D network events r)).db
      through (ok c, v) e = served_frames w v c e
      through (err d, v) e =
          subst (λ r. Framed w r.1.db) e
            (login_frames w _
              (authenticate_stamps D checked stamped (with_deadline D network events true w)))
