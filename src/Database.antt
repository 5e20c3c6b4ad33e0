-- ===== src/Database.antt =====
-- The clients' table behind gorm and SQLite, which are not part of the program: the calls that the
-- program makes, over an unknown state, and what the documentation of gorm says that they do.
pub mod Table
use libersuite_panel.Prelude.{
  ℕ, ◌≡◌, ◌≢◌, ◌↔◌, Bool, true, false, Option, none, some, List, ◌==◌, if◌then◌else◌, text_eq,
}
use libersuite_panel.Prelude.Int.{ℤ, ◌+ℤ◌}
use libersuite_panel.Prelude.Words.{IsInt64}
use libersuite_panel.Text.{Text}
use libersuite_panel.Client.{Client}

-- `none` and `false` stand for an `Error` that is not nil.
pub record Database : Type 1 where
  pub State : Type 0
  -- DB.Where("username = ?", u).First(&client)
  pub find_first : State → Text → Option Client
  -- DB.Find(&clients)
  pub find : State → Option (List Client)
  -- DB.Create(client), with the new primary key
  pub create : State → Client → State × Option ℕ
  -- DB.Save(&client)
  pub save : State → Client → State × Bool
  -- DB.Unscoped().Where("username = ?", u).Delete(&models.Client{}), with RowsAffected
  pub delete : State → Text → State × Option ℕ
  -- DB.Model(&models.Client{}).Where("username = ?", u).Update("enabled", b), with RowsAffected
  pub update_enabled : State → Text → Bool → State × Option ℕ
  -- DB.Model(&models.Client{}).Where("id = ?", id)
  --   .UpdateColumn("traffic_used", gorm.Expr("traffic_used + ?", n))
  pub add_traffic_used : State → ℕ → ℤ → State × Bool

-- The row that an `Update("enabled", b)` leaves of a row.
abbrev pub with_enabled : Text → Bool → Client → Client
with_enabled u b c = if text_eq c.username u then record c { enabled = b } else c

abbrev pub unless_named : Text → Client → Option Client
unless_named u c = if text_eq c.username u then none else some c

-- The laws are about the row of each primary key.
pub record IsLawful (D : Database) : Type 0 where
  pub row : D.State → ℕ → Option Client
  pub row_id : (s : D.State) (i : ℕ) (c : Client) → row s i ≡ some c → c.id ≡ i
  pub find_first_row :
      (s : D.State) (u : Text) (c : Client)
      → D.find_first s u ≡ some c
      → (row s c.id ≡ some c) × (c.username ≡ u)
  -- Keys are counted from 1.
  pub row_pos : (s : D.State) (c : Client) → row s 0 ≢ some c
  -- Save writes every column of the row with the client's key, and inserts the row if there is none.
  pub row-save :
      (s t : D.State) (c : Client) (i : ℕ)
      → c.id ≢ 0
      → D.save s c ≡ (t, true)
      → row t i ≡ (if c.id == i then some c else row s i)
  pub row-save_failed :
      (s t : D.State) (c : Client) (i : ℕ) → D.save s c ≡ (t, false) → row t i ≡ row s i
  pub row-create :
      (s t : D.State) (c : Client) (n i : ℕ)
      → D.create s c ≡ (t, some n)
      → (row s n ≡ none) × (row t i ≡ (if n == i then some (record c { id = n }) else row s i))
  pub row-create_failed :
      (s t : D.State) (c : Client) (i : ℕ) → D.create s c ≡ (t, none) → row t i ≡ row s i
  -- A unique index: no two rows have one user name.
  pub create_unique :
      (s t : D.State) (c d : Client) (n i : ℕ)
      → D.create s c ≡ (t, some n)
      → row s i ≡ some d
      → d.username ≢ c.username
  pub row-delete :
      (s t : D.State) (u : Text) (n i : ℕ) (c : Client)
      → D.delete s u ≡ (t, some n)
      → row s i ≡ some c
      → row t i ≡ unless_named u c
  pub delete_absent :
      (s t : D.State) (u : Text) (n i : ℕ)
      → D.delete s u ≡ (t, some n)
      → row s i ≡ none
      → row t i ≡ none
  pub row-delete_failed :
      (s t : D.State) (u : Text) (i : ℕ) → D.delete s u ≡ (t, none) → row t i ≡ row s i
  pub delete_affected :
      (s t : D.State) (u : Text)
      → D.delete s u ≡ (t, some 0)
      → (i : ℕ) (c : Client) → row s i ≡ some c
      → c.username ≢ u
  pub row-update_enabled :
      (s t : D.State) (u : Text) (b : Bool) (n i : ℕ) (c : Client)
      → D.update_enabled s u b ≡ (t, some n)
      → row s i ≡ some c
      → row t i ≡ some (with_enabled u b c)
  pub update_enabled_absent :
      (s t : D.State) (u : Text) (b : Bool) (n i : ℕ)
      → D.update_enabled s u b ≡ (t, some n)
      → row s i ≡ none
      → row t i ≡ none
  pub row-update_enabled_failed :
      (s t : D.State) (u : Text) (b : Bool) (i : ℕ)
      → D.update_enabled s u b ≡ (t, none)
      → row t i ≡ row s i
  pub update_enabled_affected :
      (s t : D.State) (u : Text) (b : Bool)
      → D.update_enabled s u b ≡ (t, some 0)
      → (i : ℕ) (c : Client) → row s i ≡ some c
      → c.username ≢ u
  -- The sum is made in the database, from the row as it stands there.
  pub row-add_traffic_used :
      (s t : D.State) (i : ℕ) (n : ℤ) (c : Client)
      → D.add_traffic_used s i n ≡ (t, true)
      → row s i ≡ some c
      → IsInt64 (c.traffic_used +ℤ n)
      → row t i ≡ some (record c { traffic_used = c.traffic_used +ℤ n })
  pub add_traffic_used_absent :
      (s t : D.State) (i : ℕ) (n : ℤ)
      → D.add_traffic_used s i n ≡ (t, true)
      → row s i ≡ none
      → row t i ≡ none
  pub add_traffic_used_others :
      (s t : D.State) (i j : ℕ) (n : ℤ)
      → D.add_traffic_used s i n ≡ (t, true)
      → i ≢ j
      → row t j ≡ row s j
  pub add_traffic_used_failed :
      (s t : D.State) (i j : ℕ) (n : ℤ) → D.add_traffic_used s i n ≡ (t, false) → row t j ≡ row s j
