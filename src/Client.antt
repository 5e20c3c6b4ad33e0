-- ===== src/Client.antt =====
-- database/models/client.go: a client's record, and the checks on its date and its quota.
pub mod Quota
use libersuite_panel.Prelude.{ℕ, Bool, true, false, not, ◌&&◌, ltb, ◌==◌, if◌then◌else◌}
use libersuite_panel.Prelude.Int.{ℤ, pos, negsuc, ltb_ℤ, is_zero}
use libersuite_panel.Prelude.Words.{sub64}
use libersuite_panel.Text.{Text}

-- A time.Time, in nanoseconds since its zero, the first of January of the year 1.
abbrev pub Time : Type 0
Time = ℕ

-- Of gorm.Model only the primary key: the program never reads the three time stamps.
pub record Client : Type 0 where
  pub id : ℕ
  pub username : Text
  pub password : Text
  pub traffic_limit : ℤ
  pub traffic_used : ℤ
  pub expires_at : Time
  pub enabled : Bool
  pub last_connection : Time

unfoldable pub is_expired : Client → Time → Bool
is_expired c now = if c.expires_at == 0 then false else ltb c.expires_at now

unfoldable pub has_traffic_remaining : Client → Bool
has_traffic_remaining c =
    if is_zero c.traffic_limit then true else ltb_ℤ c.traffic_used c.traffic_limit

unfoldable pub is_active : Client → Time → Bool
unfolding is_expired has_traffic_remaining
is_active c now = c.enabled && (not (is_expired c now) && has_traffic_remaining c)

unfoldable pub remaining_traffic : Client → ℤ
remaining_traffic c =
    let remaining = sub64 c.traffic_limit c.traffic_used in
    if is_zero c.traffic_limit
    then negsuc 0
    else if ltb_ℤ remaining (pos 0)
    then pos 0
    else remaining
