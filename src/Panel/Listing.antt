-- ===== src/Panel/Listing.antt =====
-- `client list` of cmd/panel/client.go: one row of text for each client.
pub mod Total
use libersuite_panel.Prelude.{ℕ, Option, none, some, List, [], ◌∷◌, ◌==◌, if◌then◌else◌}
use libersuite_panel.Prelude.Int.{ℤ, pos, ltb_ℤ}
use libersuite_panel.Text.{Text}
use libersuite_panel.Client.{Client, Time}
use libersuite_panel.Database.{Database}
use libersuite_panel.Panel.Clients.{Status, status}
use libersuite_panel.Panel.Format.{format_bytes}

pub record Row : Type 0 where
  pub id : ℕ
  pub username : Text
  pub state : Status
  pub traffic_used : Text
  pub traffic_limit : Text
  pub expires_at : Text

-- "Unlimited" and "Never"
abbrev pub unlimited : Text
unlimited = b'U' ∷ b'n' ∷ b'l' ∷ b'i' ∷ b'm' ∷ b'i' ∷ b't' ∷ b'e' ∷ b'd' ∷ []

abbrev pub never : Text
never = b'N' ∷ b'e' ∷ b'v' ∷ b'e' ∷ b'r' ∷ []

-- What the command prints: the note that there are no clients, or the rows.
pub data Listing : Type 0 where
  database_error no_clients : Listing
  rows : List Row → Listing

-- `ratio` is `%.1f` of a quotient, and `format_date` is time.Format; `none` is a panic of formatBytes.
module _ (ratio : ℕ → ℕ → Text) (format_date : Time → Text) where
  unfoldable pub limit_text : ℤ → Option Text
  limit_text limit = if ltb_ℤ (pos 0) limit then format_bytes ratio limit else some unlimited

  abbrev pub expiry_text : Time → Text
  expiry_text at = if at == 0 then never else format_date at

  abbrev pub row_with : Client → Time → Text → Text → Row
  row_with c now used limit = record {
    id = c.id;
    username = c.username;
    state = status c now;
    traffic_used = used;
    traffic_limit = limit;
    expires_at = expiry_text c.expires_at;
  }

  abbrev pub with_texts : Client → Time → Option Text → Option Text → Option Row
  with_texts c now none limit = none
  with_texts c now (some used) none = none
  with_texts c now (some used) (some limit) = some (row_with c now used limit)

  unfoldable pub row_of : Client → Time → Option Row
  unfolding limit_text
  row_of c now = with_texts c now (format_bytes ratio c.traffic_used) (limit_text c.traffic_limit)

  abbrev pub and_row : Option Row → Option (List Row) → Option (List Row)
  and_row none rs = none
  and_row (some r) none = none
  and_row (some r) (some rs) = some (r ∷ rs)

  -- The status is taken at a time of its own for each row.
  unfoldable pub all_rows : List Client → (ℕ → Time) → Option (List Row)
  unfolding row_of
  all_rows [] now = some []
  all_rows (c ∷ cs) now = and_row (row_of c (now c.id)) (all_rows cs now)

  abbrev pub listing : Option (List Row) → Option Listing
  listing none = none
  listing (some rs) = some (rows rs)

  abbrev pub listed : Option (List Client) → (ℕ → Time) → Option Listing
  listed none now = some database_error
  listed (some []) now = some no_clients
  listed (some (c ∷ cs)) now = listing (all_rows (c ∷ cs) now)

  unfoldable pub list_command : (D : Database) → (ℕ → Time) → D.State → Option Listing
  list_command D now s = listed (D.find s) now
