-- ===== src/Panel/Entry/Exits.antt =====
-- What an exit code of 0 says.
use libersuite_panel.Prelude.{zero, suc, ◌≡◌, refl, Bool, true, false, some, Option-cases, inl, inr}
use libersuite_panel.Text.{Text}
use libersuite_panel.Crypto.Calls.{Disk, Result, ok, err, directory_failed, mkdir_all}
use libersuite_panel.Panel.Entry.{
  Gorm, initialize, with_database, with_directory, finished, execute, exit_code, main,
}

module _ (G : Gorm) (db_path : Text) (command : G.State → Bool × G.State) where
  -- The table that was opened and migrated, on which the command ran without an error.
  abbrev pub RanWell : Type 0
  RanWell =
      (s : G.State) × (t : G.State) × (u : G.State) × (G.connect db_path ≡ some s)
      × (G.auto_migrate s ≡ some t)
      × (command t ≡ (true, u))

  ended_well :
      (r : Bool × G.State) → exit_code G (finished G r) ≡ 0 → (u : G.State) × (r ≡ (true, u))
  ended_well (true, u) h = (u, refl)
  ended_well (false, u) h = absurd (cc)

  database_well : exit_code G (with_database G (initialize G db_path) command) ≡ 0 → RanWell
  unfolding initialize
  database_well h = elim (Option-cases (G.connect db_path)) [
    | inl e ↦ let k : suc zero ≡ zero = rw e at h in absurd (cc)
    | inr (s, e) ↦ elim (Option-cases (G.auto_migrate s)) [
      | inl f ↦ let k : suc zero ≡ zero = rw (e, f) at h in absurd (cc)
      | inr (t, f) ↦ let (u, g) = ended_well (command t) (rw (e, f) at h) in (s, t, u, e, f, g)
    ]
  ]

  directory_well :
      (r : Result (Unit {0}))
      → exit_code G (with_directory G r db_path command) ≡ 0
      → (r ≡ ok tt) × RanWell
  directory_well (ok u) h = (refl, database_well h)
  directory_well (err e) h = absurd (cc)

  -- The process exits with 0 only if the directory could be made, the database was opened and migrated, and the
  -- command ran on it without an error.
  pub main_zero :
      (d : Disk)
      → main G db_path command d ≡ 0
      → ((mkdir_all directory_failed d).0 ≡ ok tt) × RanWell
  unfolding main execute
  main_zero d h = directory_well (mkdir_all directory_failed d).0 h
