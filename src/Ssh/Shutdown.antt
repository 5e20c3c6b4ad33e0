-- ===== src/Ssh/Shutdown.antt =====
-- usageFlusher and Shutdown of sshserver/server.go: what is saved by the time that the server is gone.
use libersuite_panel.Prelude.{
  ◌≡◌, refl, ap, ◌∙◌, Bool-cases, inl, inr, Option, none, some, List, [], ◌∷◌,
}
use libersuite_panel.Prelude.Int.{pos, is_zero}
use libersuite_panel.Prelude.Words.{add64}
use libersuite_panel.Text.{Text}
use libersuite_panel.Database.{Database}
use libersuite_panel.Ssh.{Tracker, Server, used_bytes, flush_one, flush_list, flush_all}
use libersuite_panel.Ssh.Sessions.{Event, run, start}
use libersuite_panel.Ssh.Ledger.{
  Ledger, post_all, ledger_of, balance, run_posts, run_refines, ledger_of-flush_list,
}

-- What the select of usageFlusher waits for.
pub data Tick : Type 0 where
  ticked cancelled : Tick

module _ (D : Database) where
  -- usageFlusher: a flush for each tick, and a last one when the context is cancelled.
  unfoldable pub usage_flusher : Server D.State → List Tick → Server D.State
  usage_flusher v [] = v
  usage_flusher v (ticked ∷ ts) = usage_flusher (flush_all D v) ts
  usage_flusher v (cancelled ∷ ts) = flush_all D v

  abbrev pub unless_crossed : Option (Server D.State) → Server D.State → Server D.State
  unless_crossed none alone = alone
  unless_crossed (some left) alone = left

  -- Shutdown, while whose wait the events happen; it flushes all sessions whether the wait is over or has
  -- met its deadline. At a deadline the flusher can be in the middle of a flush of its own, which this flush
  -- then crosses: `crossed` is what the two leave, which Interleaved is about.
  unfoldable pub shutdown : Option (Server D.State) → Server D.State → List Event → Server D.State
  shutdown crossed v es = unless_crossed crossed (flush_all D (run D v es))

-- What the records of the sessions say, with nothing of the counters.
unfoldable pub recorded : List (Text × Tracker) → Ledger
recorded [] = []
recorded ((id, t) ∷ rest) =
    (id, add64 (add64 t.client.traffic_used (pos 0)) (pos 0)) ∷ recorded rest

module _ (D : Database) where
  recorded-flush_one :
      (t : Tracker) (s : D.State)
      → add64 (add64 (flush_one D t s).0.client.traffic_used (pos 0)) (pos 0)
        ≡ balance (flush_one D t s).0
  unfolding flush_one balance
  recorded-flush_one t s = elim (Bool-cases (is_zero (used_bytes t))) [
    | inl e ↦ rw e refl
    | inr e ↦ rw e refl
  ]

  recorded-flush_list :
      (l : List (Text × Tracker)) (s : D.State)
      → recorded (flush_list D l s).0 ≡ ledger_of (flush_list D l s).0
  unfolding recorded ledger_of flush_list
  recorded-flush_list [] s = refl
  recorded-flush_list ((id, t) ∷ l) s =
      rw (recorded-flush_one t s, recorded-flush_list l (flush_one D t s).1) refl

  recorded-flush_all :
      (v : Server D.State) → recorded (flush_all D v).sessions ≡ ledger_of v.sessions
  unfolding flush_all
  recorded-flush_all v =
      recorded-flush_list v.sessions v.db ∙ ledger_of-flush_list D v.sessions v.db

  -- After any history before a shutdown whose flush crosses no other, and any during its wait, the records of the sessions that are left hold
  -- the whole balance of the ledger: no byte is in a counter only.
  pub shutdown_records :
      (s : D.State) (es later : List Event)
      → recorded (shutdown D none (run D (start s) es) later).sessions
        ≡ post_all (post_all [] es) later
  unfolding shutdown
  shutdown_records s es later =
      let v = run D (start s) es in
      recorded-flush_all (run D v later)
      ∙ run_posts D v later
      ∙ ap (λ l. post_all l later) (run_refines D s es)

  -- The flusher, for any number of ticks, changes no balance.
  pub usage_flusher_keeps :
      (v : Server D.State) (ts : List Tick)
      → ledger_of (usage_flusher D v ts).sessions ≡ ledger_of v.sessions
  unfolding usage_flusher flush_all
  usage_flusher_keeps v [] = refl
  usage_flusher_keeps v (ticked ∷ ts) =
      usage_flusher_keeps (flush_all D v) ts ∙ ledger_of-flush_list D v.sessions v.db
  usage_flusher_keeps v (cancelled ∷ ts) = ledger_of-flush_list D v.sessions v.db
