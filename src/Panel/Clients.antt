-- ===== src/Panel/Clients.antt =====
-- The client commands of cmd/panel/client.go, over the clients' table. What they print is left out, but
-- for the status column of the list.
pub mod Effects
pub mod Limits
use libersuite_panel.Prelude.{
  ℕ, zero, suc, Bool, true, false, not, Option, none, some, if◌then◌else◌,
}
use libersuite_panel.Prelude.Int.{ℤ, pos, ltb_ℤ}
use libersuite_panel.Prelude.Words.{mul64}
use libersuite_panel.Text.{Text}
use libersuite_panel.Client.{Client, Time, is_expired, has_traffic_remaining}
use libersuite_panel.Database.{Database}

-- How a command ends: well, with an error of the database, or with "client not found".
pub data Outcome : Type 0 where
  success database_error not_found : Outcome

-- trafficLimit * 1024 * 1024 * 1024, in int64.
unfoldable pub gb_to_bytes : ℤ → ℤ
gb_to_bytes gb = mul64 (mul64 (mul64 gb (pos 1024)) (pos 1024)) (pos 1024)

-- The record that `client add` creates; `add_date` is time.AddDate in days, of the local calendar.
unfoldable pub new_client : (Time → ℤ → Time) → Time → Text → Text → ℤ → ℤ → Client
new_client add_date now username password traffic_limit expires_in = record {
  id = 0;
  username = username;
  password = password;
  traffic_limit = gb_to_bytes traffic_limit;
  traffic_used = pos 0;
  expires_at = if ltb_ℤ (pos 0) expires_in then add_date now expires_in else 0;
  enabled = true;
  last_connection = 0;
}

abbrev pub created : {S : Type 0} → S × Option ℕ → S × Outcome
created (s, none) = (s, database_error)
created (s, some id) = (s, success)

-- The check of Error and of RowsAffected.
abbrev pub affected : {S : Type 0} → S × Option ℕ → S × Outcome
affected (s, none) = (s, database_error)
affected (s, some zero) = (s, not_found)
affected (s, some (suc n)) = (s, success)

module _ (D : Database) where
  unfoldable pub add_client : Client → D.State → D.State × Outcome
  add_client client s = created (D.create s client)

  unfoldable pub remove_client : Text → D.State → D.State × Outcome
  remove_client username s = affected (D.delete s username)

  unfoldable pub enable_client : Text → D.State → D.State × Outcome
  enable_client username s = affected (D.update_enabled s username true)

  unfoldable pub disable_client : Text → D.State → D.State × Outcome
  disable_client username s = affected (D.update_enabled s username false)

-- The status column of `client list`.
pub data Status : Type 0 where
  active disabled expired no_traffic : Status

unfoldable pub status : Client → Time → Status
status c now =
    if not c.enabled
    then disabled
    else if is_expired c now
    then expired
    else if not (has_traffic_remaining c)
    then no_traffic
    else active
