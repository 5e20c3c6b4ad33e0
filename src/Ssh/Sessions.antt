-- ===== src/Ssh/Sessions.antt =====
-- The two maps of the server, over any history of channels, transfers, flushes and closed connections.
use libersuite_panel.Prelude.{
  ℕ, ◌≡◌, refl, sym, ap, ◌∙◌, false, Option, none, some, List, [], ◌∷◌, if◌then◌else◌, text_eq,
  arith, All,
}
use libersuite_panel.Text.{Text}
use libersuite_panel.Client.{Client}
use libersuite_panel.Database.{Database}
use libersuite_panel.Ssh.{
  Tracker, Server, IoError, traffic_read, traffic_write, lookup, erase, erase_id, flush_one,
  flush_list, flush_all, found_or_new, get_or_create_session, watch_session,
}

-- What a channel of the session with an id counts: a read or a write of n bytes.
pub data Transfer : Type 0 where
  reads writes : ℕ → IoError → Transfer

unfoldable pub transfer : Transfer → Tracker → Tracker
unfolding traffic_read traffic_write
transfer (reads n err) t = (traffic_read t n err).0
transfer (writes n err) t = (traffic_write t n err).0

pub client_kept : (x : Transfer) (t : Tracker) → (transfer x t).client ≡ t.client
unfolding transfer traffic_read traffic_write
client_kept (reads n err) t = ground arith
client_kept (writes n err) t = ground arith

unfoldable pub update {ℓ} : {A : Type ℓ} → Text → (A → A) → List (Text × A) → List (Text × A)
update id f [] = []
update id f ((j, t) ∷ rest) = (j, if text_eq j id then f t else t) ∷ update id f rest

pub data Event : Type 0 where
  channel_opened : Text → Client → Event
  transferred : Text → Transfer → Event
  flushed : Event
  connection_closed : Text → Event

abbrev pub ids : List (Text × Tracker) → List Text
ids [] = []
ids ((j, t) ∷ rest) = j ∷ ids rest

module _ (D : Database) where
  unfoldable pub step : Server D.State → Event → Server D.State
  unfolding update get_or_create_session
  step v (channel_opened id client) = (get_or_create_session D id client v).1
  step v (transferred id x) = record v { sessions = update id (transfer x) v.sessions }
  step v flushed = flush_all D v
  step v (connection_closed id) = watch_session D id v

  unfoldable pub run : Server D.State → List Event → Server D.State
  run v [] = v
  run v (e ∷ es) = run (step v e) es

abbrev pub start : {S : Type 0} → S → Server S
start s = record { sessions = []; connections = []; watchers = []; db = s }

-- No id is listed twice.
abbrev pub Fresh : Text → List Text → Type 0
Fresh id l = All (λ j. text_eq j id ≡ false) l

abbrev pub Distinct : List Text → Type 0
Distinct [] = Unit {0}
Distinct (j ∷ l) = Fresh j l × Distinct l

-- The sessions, the connections and the watchers have the same ids, and each id once.
pub record Matched {S : Type 0} (v : Server S) : Type 0 where
  pub same_ids : v.connections ≡ ids v.sessions
  pub same_watchers : v.watchers ≡ ids v.sessions
  pub distinct : Distinct (ids v.sessions)

ids-update :
    (id : Text) (f : Tracker → Tracker) (l : List (Text × Tracker)) → ids (update id f l) ≡ ids l
unfolding update
ids-update id f [] = refl
ids-update id f ((j, t) ∷ l) = ap (◌∷◌ j) (ids-update id f l)

ids-erase : (id : Text) (l : List (Text × Tracker)) → ids (erase id l) ≡ erase_id id (ids l)
unfolding erase erase_id
ids-erase id [] = refl
ids-erase id ((j, t) ∷ l) = ground (arith, ids-erase id l)

erase_id-Fresh : (id k : Text) (l : List Text) → Fresh k l → Fresh k (erase_id id l)
unfolding erase_id
erase_id-Fresh id k [] h = tt
erase_id-Fresh id k (j ∷ l) h = ground (arith, erase_id-Fresh id k l h.1)

erase_id-Distinct : (id : Text) (l : List Text) → Distinct l → Distinct (erase_id id l)
unfolding erase_id
erase_id-Distinct id [] h = tt
erase_id-Distinct id (j ∷ l) h =
    ground (arith, erase_id-Distinct id l h.1, erase_id-Fresh id j l h.0)

lookup-none : (id : Text) (l : List (Text × Tracker)) → lookup id l ≡ none → Fresh id (ids l)
unfolding lookup
lookup-none id [] h = tt
lookup-none id ((j, t) ∷ l) h = ground (arith, lookup-none id l)

module _ (D : Database) where
  ids-flush_list : (l : List (Text × Tracker)) (s : D.State) → ids (flush_list D l s).0 ≡ ids l
  unfolding flush_list
  ids-flush_list [] s = refl
  ids-flush_list ((j, t) ∷ l) s = ap (◌∷◌ j) (ids-flush_list l (flush_one D t s).1)

  open_Matched :
      (id : Text) (client : Client) (v : Server D.State) (o : Option Tracker)
      → lookup id v.sessions ≡ o
      → Matched v
      → Matched (found_or_new D o id client v).1
  open_Matched id client v none e m = record {
    same_ids = ap (◌∷◌ id) m.same_ids;
    same_watchers = ap (◌∷◌ id) m.same_watchers;
    distinct = (lookup-none id v.sessions e, m.distinct);
  }
  open_Matched id client v (some t) e m = m

  -- Every event keeps the two maps and the watchers in step.
  step-Matched : (v : Server D.State) (e : Event) → Matched v → Matched (step D v e)
  unfolding step flush_all watch_session
  step-Matched v (channel_opened id client) m =
      open_Matched id client v (lookup id v.sessions) refl m
  step-Matched v (transferred id x) m = record {
    same_ids = m.same_ids ∙ sym (ids-update id (transfer x) v.sessions);
    same_watchers = m.same_watchers ∙ sym (ids-update id (transfer x) v.sessions);
    distinct = rw (ids-update id (transfer x) v.sessions) m.distinct;
  }
  step-Matched v flushed m = record {
    same_ids = m.same_ids ∙ sym (ids-flush_list v.sessions v.db);
    same_watchers = m.same_watchers ∙ sym (ids-flush_list v.sessions v.db);
    distinct = rw (ids-flush_list v.sessions v.db) m.distinct;
  }
  step-Matched v (connection_closed id) m = record {
    same_ids = ap (erase_id id) m.same_ids ∙ sym (ids-erase id v.sessions);
    same_watchers = ap (erase_id id) m.same_watchers ∙ sym (ids-erase id v.sessions);
    distinct = rw (ids-erase id v.sessions) (erase_id-Distinct id (ids v.sessions) m.distinct);
  }

  run-Matched' : (v : Server D.State) (es : List Event) → Matched v → Matched (run D v es)
  unfolding run
  run-Matched' v [] m = m
  run-Matched' v (e ∷ es) m = run-Matched' (step D v e) es (step-Matched v e m)

  -- After any history of a new server, each session has one connection and one running watcher, and no
  -- connection and no watcher is left of a session that is gone: the three lists hold the same ids, each once.
  pub run-Matched : (s : D.State) (es : List Event) → Matched (run D (start s) es)
  run-Matched s es =
      run-Matched' (start s) es (record { same_ids = refl; same_watchers = refl; distinct = tt })
