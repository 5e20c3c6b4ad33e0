-- ===== src/Panel/Listing/Total.antt =====
-- The list is printed for all clients whose traffic are int64, and what it says of a negative limit.
use libersuite_panel.Prelude.{
  ℕ, ◌≡◌, refl, true, false, Bool-cases, inl, inr, some, List, [], ◌∷◌, ◌++◌, All, ltb, arith,
}
use libersuite_panel.Prelude.Int.{ℤ, pos, negsuc, ◌<ℤ◌, ◌≤ℤ◌, ltb_ℤ}
use libersuite_panel.Prelude.Words.{IsInt64}
use libersuite_panel.Text.{Text}
use libersuite_panel.Text.Decimal.{format_int}
use libersuite_panel.Client.{Client, Time, is_active}
use libersuite_panel.Database.{Database}
use libersuite_panel.Panel.Clients.{status}
use libersuite_panel.Panel.Format.{format_bytes}
use libersuite_panel.Panel.Format.Scale.{format_bytes_scaled}
use libersuite_panel.Panel.Listing.{
  Row, rows, unlimited, limit_text, row_with, row_of, all_rows, list_command,
}

-- The traffic columns of a client are int64.
abbrev pub InRange : Client → Type 0
InRange c = IsInt64 c.traffic_used × IsInt64 c.traffic_limit

module _ (ratio : ℕ → ℕ → Text) (format_date : Time → Text) where
  small : (n : ℤ) → ltb_ℤ n (pos 1024) ≡ true → (t : Text) × (format_bytes ratio n ≡ some t)
  unfolding format_bytes
  small n e = (format_int n ++ (b' ' ∷ b'B' ∷ []), rw e refl)

  formatted : (n : ℤ) → IsInt64 n → (t : Text) × (format_bytes ratio n ≡ some t)
  formatted (negsuc n) h = small (negsuc n) (ground arith)
  formatted (pos n) h = elim (Bool-cases (ltb n 1024)) [
    | inl e ↦ small (pos n) (ground arith)
    | inr e ↦ let (d, e1, p, f, _, _) = format_bytes_scaled ratio n (ground arith) h.0 in (_, f)
  ]

  limited : (n : ℤ) → IsInt64 n → (t : Text) × (limit_text ratio format_date n ≡ some t)
  unfolding limit_text
  limited n h = elim (Bool-cases (ltb_ℤ (pos 0) n)) [
    | inl e ↦ let (t, f) = formatted n h in (t, rw e f)
    | inr e ↦ (unlimited, rw e refl)
  ]

  -- Of which client a row is.
  abbrev pub Describes : (ℕ → Time) → Client → Row → Type 0
  Describes now c r = (r.id ≡ c.id) × (r.username ≡ c.username) × (r.state ≡ status c (now c.id))

  -- One row for each client, in their order.
  abbrev pub DescribesAll : (ℕ → Time) → List Client → List Row → Type 0
  DescribesAll now [] [] = Unit {0}
  DescribesAll now [] (r ∷ rs) = ⊥
  DescribesAll now (c ∷ cs) [] = ⊥
  DescribesAll now (c ∷ cs) (r ∷ rs) = Describes now c r × DescribesAll now cs rs

  rowed :
      (c : Client) (now : ℕ → Time)
      → InRange c
      → (r : Row) × (row_of ratio format_date c (now c.id) ≡ some r) × Describes now c r
  unfolding row_of
  rowed c now (u, l) =
      let (used, e) = formatted c.traffic_used u in
      let (limit, f) = limited c.traffic_limit l in
      (row_with ratio format_date c (now c.id) used limit, rw (e, f) refl, (refl, refl, refl))

  rowed-All :
      (cs : List Client) (now : ℕ → Time)
      → All InRange cs
      → (rs : List Row) × (all_rows ratio format_date cs now ≡ some rs) × DescribesAll now cs rs
  unfolding all_rows
  rowed-All [] now h = ([], refl, tt)
  rowed-All (c ∷ cs) now (h, hs) =
      let (r, e, d) = rowed c now h in
      let (rs, es, ds) = rowed-All cs now hs in (r ∷ rs, rw (e, es) refl, (d, ds))

  -- Where the table is read and not empty, and the traffic of its clients are int64, the command does not panic:
  -- it prints one row for each client, in the table's order, with its number, its name and its status.
  pub list_command_total :
      (D : Database) (now : ℕ → Time) (s : D.State) (c : Client) (cs : List Client)
      → D.find s ≡ some (c ∷ cs)
      → All InRange (c ∷ cs)
      → (rs : List Row) × (list_command ratio format_date D now s ≡ some (rows rs))
        × DescribesAll now (c ∷ cs) rs
  unfolding list_command
  list_command_total D now s c cs e h =
      let (rs, f, d) = rowed-All (c ∷ cs) now h in (rs, rw (e, f) refl, d)

  -- A negative limit is listed as no limit at all, while its client, whose traffic is not negative, cannot connect
  -- at any time.
  pub negative_limit_listed :
      (c : Client) (now : Time)
      → c.traffic_limit <ℤ pos 0
      → pos 0 ≤ℤ c.traffic_used
      → (limit_text ratio format_date c.traffic_limit ≡ some unlimited) × (is_active c now ≡ false)
  unfolding limit_text is_active
  negative_limit_listed c now h k = ground arith
