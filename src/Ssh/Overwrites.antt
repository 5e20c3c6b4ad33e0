-- ===== src/Ssh/Overwrites.antt =====
-- What flushOne's Save of a whole record does to a row that changed since the login.
pub mod Billing
use libersuite_panel.Prelude.{
  ℕ, ◌≡◌, ◌≢◌, sym, ap, ◌∙◌, true, false, Option, none, some, ◌==◌, if◌then◌else◌, text_eq_iff,
  arith,
}
use libersuite_panel.Prelude.Int.{ℤ, is_zero}
use libersuite_panel.Client.{Client}
use libersuite_panel.Database.{Database, IsLawful}
use libersuite_panel.Prelude.Words.{add64}
use libersuite_panel.Panel.Clients.{success, remove_client, disable_client}
use libersuite_panel.Panel.Clients.Effects.{affected_success}
use libersuite_panel.Ssh.{Tracker, used_bytes, settled, flush_one}

-- The tracker holds bytes to be billed, and its record came from a row.
abbrev pub Pending : Tracker → Type 0
Pending t = (is_zero (used_bytes t) ≡ false) × (t.client.id ≢ 0)

abbrev billed_for : ℤ → Client → Option Client
billed_for n c = some (record c { traffic_used = add64 c.traffic_used n })

module _ (D : Database) (L : IsLawful D) where
  open_flush :
      (t : Tracker) (s s' : D.State)
      → is_zero (used_bytes t) ≡ false
      → D.save s (settled t).client ≡ (s', true)
      → (flush_one D t s).1 ≡ s'
  unfolding flush_one
  open_flush t s s' e h = rw e (ap (λ p. p.0) h)

  -- A flush that saves writes the record of the session over the row of its client and leaves the other
  -- rows: whatever the row held, or if there was none, it is the record as it was at the login
  -- with the session's own traffic added.
  pub flush_one_overwrites :
      (t : Tracker) (s s' : D.State) (i : ℕ)
      → Pending t
      → D.save s (settled t).client ≡ (s', true)
      → L.row (flush_one D t s).1 i
        ≡ (if t.client.id == i then some (settled t).client else L.row s i)
  flush_one_overwrites t s s' i (e, k) h =
      ap (λ q. L.row q i) (open_flush t s s' e h) ∙ L.row-save s s' (settled t).client i k h

  pub own_row :
      (t : Tracker) (s s' : D.State)
      → Pending t
      → D.save s (settled t).client ≡ (s', true)
      → L.row (flush_one D t s).1 t.client.id ≡ some (settled t).client
  own_row t s s' p h = flush_one_overwrites t s s' t.client.id p h ∙ ground arith

  -- An operator deletes a client while a session of it holds unbilled bytes: the row is gone, and the
  -- session's next flush that saves inserts it again, with the password and the flag of the login.
  pub flush_one_undoes_remove :
      (t : Tracker) (s gone s' : D.State) (c : Client)
      → Pending t
      → L.row s t.client.id ≡ some c
      → c.username ≡ t.client.username
      → remove_client D t.client.username s ≡ (gone, success)
      → D.save gone (settled t).client ≡ (s', true)
      → (L.row gone t.client.id ≡ none)
        × (L.row (flush_one D t gone).1 t.client.id ≡ some (settled t).client)
  unfolding remove_client
  flush_one_undoes_remove t s gone s' c p r u d h =
      let (n, e) = affected_success (D.delete s t.client.username) gone d in
      let k = L.row-delete s gone t.client.username n t.client.id c e r in
      (ground (arith, text_eq_iff c.username t.client.username), own_row t gone s' p h)

  -- An operator disables a client while a session of it holds unbilled bytes: the row is not enabled, and the
  -- session's next flush that saves enables it again.
  pub flush_one_undoes_disable :
      (t : Tracker) (s off s' : D.State) (c : Client)
      → Pending t
      → t.client.enabled ≡ true
      → L.row s t.client.id ≡ some c
      → c.username ≡ t.client.username
      → disable_client D t.client.username s ≡ (off, success)
      → D.save off (settled t).client ≡ (s', true)
      → (L.row off t.client.id ≡ some (record c { enabled = false }))
        × ((L.row (flush_one D t off).1 t.client.id ≡ some (settled t).client)
            × ((settled t).client.enabled ≡ true))
  unfolding disable_client
  flush_one_undoes_disable t s off s' c p on r u d h =
      let (n, e) = affected_success (D.update_enabled s t.client.username false) off d in
      let k = L.row-update_enabled s off t.client.username false n t.client.id c e r in
      (ground (arith, text_eq_iff c.username t.client.username), (own_row t off s' p h, on))

  -- Two sessions of one client that logged in with the same record: when both have flushed and both saves
  -- succeeded, the row's traffic is that of the login plus the bytes of the second session alone.
  pub flush_one_loses :
      (t u : Tracker) (s s1 s2 : D.State)
      → u.client ≡ t.client
      → Pending t
      → Pending u
      → D.save s (settled t).client ≡ (s1, true)
      → D.save (flush_one D t s).1 (settled u).client ≡ (s2, true)
      → L.row (flush_one D u (flush_one D t s).1).1 t.client.id
        ≡ some (record t.client { traffic_used = add64 t.client.traffic_used (used_bytes u) })
  flush_one_loses t u s s1 s2 e p q h h' =
      ap (λ c. L.row (flush_one D u (flush_one D t s).1).1 c.id) (sym e)
      ∙ own_row u (flush_one D t s).1 s2 q h'
      ∙ ap (billed_for (used_bytes u)) e
