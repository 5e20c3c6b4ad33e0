-- ===== src/Ssh/Ledger.antt =====
-- A ledger, which is all that the accounting of the sessions promises: one balance for each open session. The
-- server splits it over the client's record and two counters, and moves it about by flushes.
use libersuite_panel.Prelude.{
  ℕ, zero, suc, true, ◌≡◌, refl, sym, ap, ◌∙◌, Option, none, some, List, [], ◌∷◌, arith, Bool-cases,
  inl, inr,
}
use libersuite_panel.Prelude.Int.{ℤ, pos, is_zero}
use libersuite_panel.Prelude.Words.{add64, add64_comm, add64_assoc, add64_zero, add64-IsInt64}
use libersuite_panel.Text.{Text}
use libersuite_panel.Client.{Client}
use libersuite_panel.Database.{Database}
use libersuite_panel.Ssh.{
  Tracker, Server, IoError, traffic_read, traffic_write, used_bytes, lookup, erase, flush_one,
  flush_list, flush_all, found_or_new, watch_session,
}
use libersuite_panel.Ssh.Sessions.{
  Transfer, reads, writes, transfer, update, Event, channel_opened, transferred, flushed,
  connection_closed, step, run, start,
}

abbrev pub Ledger : Type 0
Ledger = List (Text × ℤ)

abbrev pub amount : Transfer → ℕ
amount (reads n err) = n
amount (writes n err) = n

-- A new session opens with what its client's record says; one that is open keeps its balance.
abbrev pub open_account : Option ℤ → Text → ℤ → Ledger → Ledger
open_account none id used l = (id, add64 used (pos 0)) ∷ l
open_account (some b) id used l = l

unfoldable pub post : Ledger → Event → Ledger
unfolding update lookup erase
post l (channel_opened id client) = open_account (lookup id l) id client.traffic_used l
post l (transferred id x) = update id (λ b. add64 b (pos (amount x))) l
post l flushed = l
post l (connection_closed id) = erase id l

unfoldable pub post_all : Ledger → List Event → Ledger
post_all l [] = l
post_all l (e ∷ es) = post_all (post l e) es

-- The balance that a tracker stands for.
unfoldable pub balance : Tracker → ℤ
balance t = add64 (add64 t.client.traffic_used t.bytes_read) t.bytes_written

unfoldable pub ledger_of : List (Text × Tracker) → Ledger
unfolding balance
ledger_of [] = []
ledger_of ((id, t) ∷ rest) = (id, balance t) ∷ ledger_of rest

pub zero_of : (z : ℤ) → is_zero z ≡ true → z ≡ pos 0
zero_of z h = ground arith

unchanged : (a b : ℤ) → add64 (add64 a b) (pos 0) ≡ add64 a b
unchanged a b = add64_zero (add64 a b) (add64-IsInt64 a b)

-- n more in the first of two counters
swap_in : (u r w n : ℤ) → add64 (add64 u (add64 r n)) w ≡ add64 (add64 (add64 u r) w) n
swap_in u r w n =
    ap (λ k. add64 k w) (sym (add64_assoc u r n))
    ∙ add64_assoc (add64 u r) n w
    ∙ ap (add64 (add64 u r)) (add64_comm n w)
    ∙ sym (add64_assoc (add64 u r) w n)

pub read_counts :
    (t : Tracker) (n : ℕ) (err : IoError)
    → (traffic_read t (suc n) err).0 ≡ record t { bytes_read = add64 t.bytes_read (pos (suc n)) }
unfolding traffic_read
read_counts t n err = ground arith

pub write_counts :
    (t : Tracker) (n : ℕ) (err : IoError)
    → (traffic_write t (suc n) err).0
      ≡ record t { bytes_written = add64 t.bytes_written (pos (suc n)) }
unfolding traffic_write
write_counts t n err = ground arith

pub balance-transfer :
    (x : Transfer) (t : Tracker) → balance (transfer x t) ≡ add64 (balance t) (pos (amount x))
unfolding transfer balance traffic_read traffic_write
balance-transfer (reads zero err) t = sym (unchanged _ _)
balance-transfer (reads (suc n) err) t =
    ap balance (read_counts t n err)
    ∙ swap_in t.client.traffic_used t.bytes_read t.bytes_written (pos (suc n))
balance-transfer (writes zero err) t = sym (unchanged _ _)
balance-transfer (writes (suc n) err) t =
    ap balance (write_counts t n err)
    ∙ sym (add64_assoc (add64 t.client.traffic_used t.bytes_read) t.bytes_written (pos (suc n)))

ledger_of-update :
    (id : Text) (x : Transfer) (l : List (Text × Tracker))
    → ledger_of (update id (transfer x) l) ≡ update id (λ b. add64 b (pos (amount x))) (ledger_of l)
unfolding ledger_of update
ledger_of-update id x [] = refl
ledger_of-update id x ((j, t) ∷ l) = ground (arith, balance-transfer x t, ledger_of-update id x l)

ledger_of-erase :
    (id : Text) (l : List (Text × Tracker)) → ledger_of (erase id l) ≡ erase id (ledger_of l)
unfolding ledger_of erase
ledger_of-erase id [] = refl
ledger_of-erase id ((j, t) ∷ l) = ground (arith, ledger_of-erase id l)

abbrev balance_in : Option Tracker → Option ℤ
balance_in none = none
balance_in (some t) = some (balance t)

lookup-ledger_of :
    (id : Text) (l : List (Text × Tracker)) → lookup id (ledger_of l) ≡ balance_in (lookup id l)
unfolding ledger_of lookup
lookup-ledger_of id [] = refl
lookup-ledger_of id ((j, t) ∷ l) = ground (arith, lookup-ledger_of id l)

module _ (D : Database) where
  pub balance-flush_one : (t : Tracker) (s : D.State) → balance (flush_one D t s).0 ≡ balance t
  unfolding flush_one balance
  balance-flush_one t s =
      let u = t.client.traffic_used in
      let total = add64_assoc u t.bytes_read t.bytes_written in
      elim (Bool-cases (is_zero (used_bytes t))) [
        | inl e ↦
            rw e (unchanged u (pos 0) ∙ ap (add64 u) (sym (zero_of (used_bytes t) e)) ∙ sym total)
        | inr e ↦
            rw e
              (unchanged (add64 u (used_bytes t)) (pos 0) ∙ unchanged u (used_bytes t) ∙ sym total)
      ]

  pub ledger_of-flush_list :
      (l : List (Text × Tracker)) (s : D.State) → ledger_of (flush_list D l s).0 ≡ ledger_of l
  unfolding flush_list ledger_of
  ledger_of-flush_list [] s = refl
  ledger_of-flush_list ((id, t) ∷ l) s =
      let b = balance-flush_one t s in rw (b, ledger_of-flush_list l (flush_one D t s).1)

  opened :
      (id : Text) (client : Client) (v : Server D.State) (o : Option Tracker)
      → ledger_of (found_or_new D o id client v).1.sessions
        ≡ open_account (balance_in o) id client.traffic_used (ledger_of v.sessions)
  unfolding ledger_of balance
  opened id client v none = ap (λ b. (id, b) ∷ ledger_of v.sessions) (unchanged _ _)
  opened id client v (some t) = refl

  step_posts :
      (v : Server D.State) (e : Event)
      → ledger_of (step D v e).sessions ≡ post (ledger_of v.sessions) e
  unfolding step post flush_all watch_session
  step_posts v (channel_opened id client) =
      opened id client v (lookup id v.sessions)
      ∙ ap (λ o. open_account o id client.traffic_used (ledger_of v.sessions))
          (sym (lookup-ledger_of id v.sessions))
  step_posts v (transferred id x) = ledger_of-update id x v.sessions
  step_posts v flushed = ledger_of-flush_list v.sessions v.db
  step_posts v (connection_closed id) = ledger_of-erase id v.sessions

  pub run_posts :
      (v : Server D.State) (es : List Event)
      → ledger_of (run D v es).sessions ≡ post_all (ledger_of v.sessions) es
  unfolding run post_all
  run_posts v [] = refl
  run_posts v (e ∷ es) = run_posts (step D v e) es ∙ ap (λ l. post_all l es) (step_posts v e)

  -- The sessions of a new server, after any history, stand for the ledger that posts the same history: for each
  -- open session the traffic of the record that opened it and all bytes moved since, in int64, whatever
  -- the flushes did in between and whether their saves succeeded.
  pub run_refines :
      (s : D.State) (es : List Event) → ledger_of (run D (start s) es).sessions ≡ post_all [] es
  unfolding ledger_of
  run_refines s es = run_posts (start s) es
