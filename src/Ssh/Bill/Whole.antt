-- ===== src/Ssh/Bill/Whole.antt =====
-- The bill of one session, from its login to its end.
use libersuite_panel.Prelude.{
  ℕ, ◌+◌, ◌≡◌, ◌≢◌, refl, sym, ap, subst, ◌∙◌, true, Bool-cases, inl, inr, Option, none, some, List,
  [], ◌∷◌, All, if◌then◌else◌, text_eq, text_eq_iff, text_eq_refl, arith,
}
use libersuite_panel.Prelude.Int.{pos}
use libersuite_panel.Prelude.Words.{add64, add64_zero, IsInt64, add64-IsInt64}
use libersuite_panel.Text.{Text}
use libersuite_panel.Client.{Client, Time}
use libersuite_panel.Database.{Database, IsLawful}
use libersuite_panel.Ssh.{
  Tracker, Server, lookup, found_or_new, flush_all, flush_found, watch_session, password_handler,
  get_or_create_session,
}
use libersuite_panel.Ssh.Sessions.{
  client_kept, Event, channel_opened, transferred, flushed, connection_closed, Transfer, transfer,
  step, run, start,
}
use libersuite_panel.Ssh.Ledger.{amount, balance, balance-transfer, balance-flush_one}
use libersuite_panel.Ssh.Bill.{
  Foreign, Others, Holding, lookup-Holding, lookup_away, Holding-update, Holding-erase, own_flush,
  flush_list-Holding, flush_away,
}
use libersuite_panel.Ssh.Bill
use libersuite_panel.Ssh.Login.{password_handler_agrees}
use libersuite_panel.Socks.Auth.Complete.{accepts}
use libersuite_panel.Ssh.Bill.Record.{
  GoesOn, moved, all_moved, add64_more, Own, with_traffic, flushed-Own, flushed_record,
}

module _ (D : Database) (L : IsLawful D)
    (saves : (s : D.State) (d : Client) → (D.save s d).1 ≡ true) (id : Text) (c : Client)
    (keyed : c.id ≢ 0) where
  balance-flushed : (t : Tracker) (s : D.State) → balance (Bill.flushed t) ≡ balance t
  balance-flushed t s = ap balance (sym (Bill.flush_one_tracker D t s)) ∙ balance-flush_one D t s

  -- The session is open with m bytes counted since its login, and the row is its record.
  abbrev Billing : ℕ → Server D.State → Type 0
  Billing m v =
      (t : Tracker) × Holding id c t v.sessions
      × Own c t.client
      × (L.row v.db c.id ≡ some t.client)
      × (balance t ≡ add64 c.traffic_used (pos m))

  id_kept : (t : Tracker) → Own c t.client → t.client.id ≡ c.id
  id_kept t (e, i) = ap (λ d. d.id) e

  opened :
      (j : Text) (d : Client) (v : Server D.State) (o : Option Tracker) (m : ℕ)
      → lookup j v.sessions ≡ o
      → GoesOn id c (channel_opened j d)
      → Billing m v
      → Billing m (found_or_new D o j d v).1
  opened j d v (some u) m q g b = b
  opened j d v none m q (inr (n, f)) (t, h, own, r, e) = (t, inr (n, f, h), own, r, e)
  opened j d v none m q (inl n) (t, h, own, r, e) =
      let found : lookup j v.sessions ≡ some t =
        rw ((text_eq_iff j id).0 n) (lookup-Holding id c t v.sessions h) in
      absurd (cc)

  balance-IsInt64 : (t : Tracker) → IsInt64 (balance t)
  unfolding balance
  balance-IsInt64 t = add64-IsInt64 (add64 t.client.traffic_used t.bytes_read) t.bytes_written

  share :
      (j : Text) (x : Transfer) (t : Tracker)
      → balance (if text_eq id j then transfer x t else t)
        ≡ add64 (balance t) (pos (if text_eq id j then amount x else 0))
  share j x t = elim (Bool-cases (text_eq id j)) [
    | inl e ↦ rw e (balance-transfer x t)
    | inr e ↦ rw e (sym (add64_zero (balance t) (balance-IsInt64 t)))
  ]

  same_record :
      (j : Text) (x : Transfer) (t : Tracker)
      → (if text_eq id j then transfer x t else t).client ≡ t.client
  same_record j x t = elim (Bool-cases (text_eq id j)) [
    | inl e ↦ rw e (client_kept x t)
    | inr e ↦ rw e refl
  ]

  -- The end of another client's session leaves the row alone.
  end_away :
      (s : D.State) (o : Option Tracker)
      → ((u : Tracker) → o ≡ some u → Foreign id c u.client)
      → L.row (flush_found D o s) c.id ≡ L.row s c.id
  end_away s none f = refl
  end_away s (some u) f = (flush_away D L saves id c u s (f u refl)).1

  still : (m : ℕ) (v : Server D.State) → Billing m v → Billing (m + 0) v
  still m v b = subst (λ k. Billing k v) (omega arith) b

  step-Billing :
      (v : Server D.State) (e : Event) (m : ℕ)
      → GoesOn id c e
      → Billing m v
      → Billing (m + moved id e) (step D v e)
  unfolding step get_or_create_session flush_all watch_session
  step-Billing v (channel_opened j d) m g b =
      still m (step D v (channel_opened j d)) (opened j d v (lookup j v.sessions) m refl g b)
  step-Billing v (transferred j x) m g (t, h, own, r, e) = (
    if text_eq id j then transfer x t else t,
    Holding-update id c j (transfer x) t v.sessions (client_kept x) h,
    subst (Own c) (sym (same_record j x t)) own,
    r ∙ ap some (sym (same_record j x t)),
    share j x t
        ∙ ap (λ n. add64 n (pos (if text_eq id j then amount x else 0))) e
        ∙ add64_more c.traffic_used m _,
  )
  step-Billing v flushed m g (t, h, own, r, e) =
      let (h', r') =
        flush_list-Holding D L saves id c t v.sessions v.db (id_kept t own) keyed h r in
      still m (step D v flushed)
        (Bill.flushed t, h', flushed-Own c t own, r', balance-flushed t v.db ∙ e)
  step-Billing v (connection_closed j) m g (t, h, own, r, e) =
      still m (step D v (connection_closed j)) (
        t,
        Holding-erase id c j t v.sessions g h,
        own,
        end_away v.db (lookup j v.sessions) (λ u q. lookup_away id c j t u v.sessions g h q) ∙ r,
        e,
      )

  run-Billing :
      (v : Server D.State) (es : List Event) (m : ℕ)
      → All (GoesOn id c) es
      → Billing m v
      → Billing (m + all_moved id es) (run D v es)
  unfolding run all_moved
  run-Billing v [] m g b = still m v b
  run-Billing v (e ∷ es) m (g, gs) b =
      subst (λ k. Billing k (run D (step D v e) es)) (omega arith)
        (run-Billing (step D v e) es (m + moved id e) gs (step-Billing v e m g b))

  closes :
      (v : Server D.State) (m : ℕ)
      → Billing m v
      → L.row (watch_session D id v).db c.id ≡ some (with_traffic (add64 c.traffic_used (pos m)) c)
  unfolding watch_session
  closes v m (t, h, own, r, e) = rw (lookup-Holding id c t v.sessions h) (
      own_flush D L saves id c t v.db (id_kept t own) keyed r
      ∙ ap some (flushed_record c t own ∙ ap (λ n. with_traffic n c) e))

  begins :
      (s : D.State)
      → L.row s c.id ≡ some c
      → IsInt64 c.traffic_used
      → Billing 0 (step D (start s) (channel_opened id c))
  unfolding step get_or_create_session lookup balance
  begins s r i = (
    record { client = c; bytes_read = pos 0; bytes_written = pos 0 },
    inl (text_eq_refl id, refl, tt),
    (refl, i),
    r,
    add64_zero (add64 c.traffic_used (pos 0)) (add64-IsInt64 c.traffic_used (pos 0)),
  )

module _ (D : Database) (L : IsLawful D)
    (saves : (s : D.State) (d : Client) → (D.save s d).1 ≡ true) where
  keyed_row : (s : D.State) (u : Text) (d : Client) → D.find_first s u ≡ some d → d.id ≢ 0
  keyed_row s u d e z =
      let (r, _) = L.find_first_row s u d e in L.row_pos s d (ap (L.row s) (sym z) ∙ r)

  stamped_row : (s : D.State) (d : Client) → d.id ≢ 0 → L.row (D.save s d).0 d.id ≡ some d
  stamped_row s d k =
      L.row-save s (D.save s d).0 d d.id k (ap (λ b. ((D.save s d).0, b)) (saves s d))
      ∙ ground arith

  logged_in :
      (checked stamped : Time) (username password : Text) (s : D.State) (c : Client)
      → (password_handler D checked stamped username password s).context ≡ some c
      → (c.id ≢ 0)
        × (L.row (password_handler D checked stamped username password s).table c.id ≡ some c)
  logged_in checked stamped username password s c h =
      let (good, bad) = password_handler_agrees D checked stamped username password s in
      elim (Bool-cases (accepts (D.find_first s username) password checked)) [
        | inl e ↦
            let (d, found, handled) = good e in
            let d' : Client = record d { last_connection = stamped } in
            let taken : some d' ≡ some c = ap (λ r. r.context) (sym handled) ∙ h in
            let same : c ≡ d' = cc in
            let k = keyed_row s username d found in rw (handled, same) (k, stamped_row s d' k)
        | inr e ↦ let gone : none ≡ some c = ap (λ r. r.context) (sym (bad e)) ∙ h in absurd (cc)
      ]

  -- From a login to the end of its connection: a login that is accepted, the first channel of its session, and then
  -- any history in which other sessions are of other clients. When the connection ends, and the saves
  -- succeed, the client's row is the record of the login with all the bytes that the session has moved added to
  -- its traffic, as int64, however often it was flushed in between.
  pub session_bills :
      (checked stamped : Time) (username password : Text) (s : D.State) (c : Client) (id : Text)
      (es : List Event)
      → (password_handler D checked stamped username password s).context ≡ some c
      → IsInt64 c.traffic_used
      → All (GoesOn id c) es
      → let s' = (password_handler D checked stamped username password s).table in
        L.row (watch_session D id (run D (start s') (channel_opened id c ∷ es))).db c.id
        ≡ some (record c { traffic_used = add64 c.traffic_used (pos (all_moved id es)) })
  unfolding run
  session_bills checked stamped username password s c id es h i g =
      let (keyed, r) = logged_in checked stamped username password s c h in
      let s' = (password_handler D checked stamped username password s).table in
      closes D L saves id c keyed (run D (start s') (channel_opened id c ∷ es)) (all_moved id es) (
        subst (λ k. Billing D L saves id c keyed k (run D (start s') (channel_opened id c ∷ es)))
          (omega arith)
          (run-Billing D L saves id c keyed (step D (start s') (channel_opened id c)) es 0 g
            (begins D L saves id c keyed s' r i)))
