-- ===== src/Database/Table.antt =====
-- A table in memory that keeps the laws of the database, to run the program's operations on.
pub mod Laws
use libersuite_panel.Prelude.{
  ℕ, zero, suc, ◌+◌, ◌≤◌, ◌<◌, ◌≡◌, refl, sym, ap, ◌∙◌, ◌≢◌, ◌↔◌, Bool, true, false, ◌&&◌, leb,
  ◌++◌, Option, none, some, List, [], ◌∷◌, ◌==◌, if◌then◌else◌, text_eq, text_eq_iff, ltb, arith,
  Bool-cases, Option-cases, inl, inr,
}
use libersuite_panel.Prelude.Int.{ℤ, ◌+ℤ◌}
use libersuite_panel.Text.{Text}
use libersuite_panel.Client.{Client}
use libersuite_panel.Database.{Database, IsLawful, with_enabled, unless_named}

-- The rows by primary key, all below `size`.
pub record Table : Type 0 where
  pub rows : ℕ → Option Client
  pub size : ℕ

abbrev stored : ℕ → Option Client → Option Client
stored i none = none
stored i (some c) = some (record c { id = i })

unfoldable pub row : Table → ℕ → Option Client
row t i = if ltb 0 i && leb i t.size then stored i (t.rows i) else none

abbrev pub named : Text → Option Client → Bool
named u none = false
named u (some c) = text_eq c.username u

-- The first row with the name.
abbrev or_row : Text → Option Client → Option Client → Option Client
or_row u (some c) r = some c
or_row u none r = if named u r then r else none

unfoldable pub scan : Table → Text → ℕ → Option Client
unfolding row
scan t u zero = none
scan t u (suc n) = or_row u (scan t u n) (row t (suc n))

unfoldable pub matching : Table → Text → ℕ → ℕ
unfolding row
matching t u zero = 0
matching t u (suc n) = matching t u n + (if named u (row t (suc n)) then 1 else 0)

abbrev then_row : List Client → Option Client → List Client
then_row cs none = cs
then_row cs (some c) = cs ++ (c ∷ [])

unfoldable pub entries : Table → ℕ → List Client
unfolding row
entries t zero = []
entries t (suc n) = then_row (entries t n) (row t (suc n))

unfoldable pub put : Table → ℕ → Client → Table
unfolding row
put t i c = record {
  rows = λ j. if i == j then some c else row t j;
  size = if leb i t.size then t.size else i;
}

abbrev mapped : (Client → Option Client) → Option Client → Option Client
mapped f none = none
mapped f (some c) = f c

unfoldable pub remap : Table → (Client → Option Client) → Table
unfolding row
remap t f = record t { rows = λ j. mapped f (row t j) }

abbrev pub credit : ℕ → ℤ → Client → Client
credit i n c = if c.id == i then record c { traffic_used = c.traffic_used +ℤ n } else c

unfoldable pub insert : Table → Client → Table × Option ℕ
unfolding matching put
insert t c =
    if matching t c.username t.size == 0
    then (put t (suc t.size) c, some (suc t.size))
    else (t, none)

abbrev pub table : Database
table = record {
  State = Table;
  find_first = λ t u. scan t u t.size;
  find = λ t. some (entries t t.size);
  create = insert;
  save = λ t c. (put t c.id c, true);
  delete = λ t u. (remap t (unless_named u), some (matching t u t.size));
  update_enabled = λ t u b. (remap t (λ c. some (with_enabled u b c)), some (matching t u t.size));
  add_traffic_used = λ t i n. (remap t (λ c. some (credit i n c)), true);
}
