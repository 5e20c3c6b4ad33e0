-- ===== src/Ssh.antt =====
-- sshserver/server.go: the logins, the sessions and the accounting of the SSH server. A login makes a
-- record of the client of its own, which the session and its channels share from then on.
pub mod Start
pub mod Login
pub mod Flush
pub mod Sessions
pub mod Ledger
pub mod Channels
pub mod Shutdown
pub mod Interleaved
pub mod Sockets
pub mod Bill
pub mod Overwrites
use libersuite_panel.Prelude.{
  ℕ, ◌≡◌, Bool, true, false, not, ◌&&◌, Option, none, some, List, [], ◌∷◌, ◌++◌, leb, if◌then◌else◌,
  text_eq,
}
use libersuite_panel.Prelude.Int.{ℤ, pos, ltb_ℤ, leb_ℤ, is_zero}
use libersuite_panel.Prelude.Words.{add64}
use libersuite_panel.Text.{Text}
use libersuite_panel.Client.{Client, Time, is_active}
use libersuite_panel.Database.{Database}

-- A sessionTracker, with the client's record that it points to.
pub record Tracker : Type 0 where
  pub client : Client
  pub bytes_read : ℤ
  pub bytes_written : ℤ

-- The server's two maps, the ids that the running watchSession goroutines have, and the table. The order of
-- `sessions` is that in which a range over the map happens to go.
pub record Server (S : Type 0) : Type 0 where
  pub sessions : List (Text × Tracker)
  pub connections : List Text
  pub watchers : List Text
  pub db : S

-- The outcome of a login: the table, and the record that is put into the connection's context.
pub record Handled (S : Type 0) : Type 0 where
  pub table : S
  pub context : Option Client

-- The error with which a Read or a Write ends.
pub data IoError : Type 0 where
  nil eof short_write underlying : IoError

module _ (D : Database) (checked stamped : Time) where
  abbrev pub admitted : D.State → Client → Handled D.State
  admitted s client =
      let stamped_client = record client { last_connection = stamped } in
      record { table = (D.save s stamped_client).0; context = some stamped_client }

  abbrev pub refused : D.State → Handled D.State
  refused s = record { table = s; context = none }

  unfoldable pub password_handler : Text → Text → D.State → Handled D.State
  password_handler username password s = elim (D.find_first s username) [
    | none ↦ refused s
    | some client ↦
        if not (text_eq client.password password)
        then refused s
        else if not (is_active client checked)
        then refused s
        else admitted s client
  ]

-- The test that Read and Write make after they have counted their bytes.
unfoldable pub over_limit : Tracker → Bool
over_limit t =
    ltb_ℤ (pos 0) t.client.traffic_limit
    && leb_ℤ t.client.traffic_limit
        (add64 (add64 t.client.traffic_used t.bytes_read) t.bytes_written)

-- trafficReader.Read and trafficWriter.Write, where the channel below moved n bytes and failed or not.
unfoldable pub traffic_read : Tracker → ℕ → IoError → Tracker × IoError
unfolding over_limit
traffic_read t n err =
    let t' = record t { bytes_read = add64 t.bytes_read (pos n) } in
    if leb n 0 then (t, err) else if over_limit t' then (t', eof) else (t', err)

unfoldable pub traffic_write : Tracker → ℕ → IoError → Tracker × IoError
unfolding over_limit
traffic_write t n err =
    let t' = record t { bytes_written = add64 t.bytes_written (pos n) } in
    if leb n 0 then (t, err) else if over_limit t' then (t', short_write) else (t', err)

-- A Go map with texts for keys, as a list of pairs.
unfoldable pub lookup {ℓ} : {A : Type ℓ} → Text → List (Text × A) → Option A
lookup id [] = none
lookup id ((j, t) ∷ rest) = if text_eq j id then some t else lookup id rest

unfoldable pub erase {ℓ} : {A : Type ℓ} → Text → List (Text × A) → List (Text × A)
erase id [] = []
erase id ((j, t) ∷ rest) =
    let others = erase id rest in if text_eq j id then others else (j, t) ∷ others

unfoldable pub erase_id : Text → List Text → List Text
erase_id id [] = []
erase_id id (j ∷ rest) =
    let others = erase_id id rest in if text_eq j id then others else j ∷ others

abbrev pub used_bytes : Tracker → ℤ
used_bytes t = add64 t.bytes_read t.bytes_written

-- What flushOne makes of a tracker: the counters are set to 0, and their sum is added to the record.
abbrev pub settled : Tracker → Tracker
settled t = record {
  client = record t.client { traffic_used = add64 t.client.traffic_used (used_bytes t) };
  bytes_read = pos 0;
  bytes_written = pos 0;
}

abbrev pub reset : Tracker → Tracker
reset t = record t { bytes_read = pos 0; bytes_written = pos 0 }

module _ (D : Database) where
  -- flushOne: the whole record is saved; an error of Save is dropped.
  unfoldable pub flush_one : Tracker → D.State → Tracker × D.State
  flush_one t s =
      if is_zero (used_bytes t) then (reset t, s) else (settled t, (D.save s (settled t).client).0)

  -- flushAll
  unfoldable pub flush_list : List (Text × Tracker) → D.State → List (Text × Tracker) × D.State
  flush_list [] s = ([], s)
  flush_list ((id, t) ∷ rest) s =
      let (t', s') = flush_one t s in
      let (rest', s'') = flush_list rest s' in ((id, t') ∷ rest', s'')

  unfoldable pub flush_all : Server D.State → Server D.State
  unfolding flush_list flush_one
  flush_all v =
      let (sessions, s) = flush_list v.sessions v.db in record v { sessions = sessions; db = s }

  -- getOrCreateSession. A new session starts a watcher; what it counts starts at 0.
  abbrev pub found_or_new :
      Option Tracker → Text → Client → Server D.State → Tracker × Server D.State
  found_or_new (some t) id client v = (t, v)
  found_or_new none id client v =
      let t : Tracker = record { client = client; bytes_read = pos 0; bytes_written = pos 0 } in
      (
        t,
        record v {
          sessions = (id, t) ∷ v.sessions;
          connections = id ∷ v.connections;
          watchers = id ∷ v.watchers;
        },
      )

  unfoldable pub get_or_create_session : Text → Client → Server D.State → Tracker × Server D.State
  unfolding lookup
  get_or_create_session id client v = found_or_new (lookup id v.sessions) id client v

  abbrev pub flush_found : Option Tracker → D.State → D.State
  flush_found none s = s
  flush_found (some t) s = (flush_one t s).1

  -- watchSession, once the connection has ended, which ends each watcher of it.
  unfoldable pub watch_session : Text → Server D.State → Server D.State
  unfolding lookup erase erase_id flush_one
  watch_session id v = record {
    sessions = erase id v.sessions;
    connections = erase_id id v.connections;
    watchers = erase_id id v.watchers;
    db = flush_found (lookup id v.sessions) v.db;
  }
