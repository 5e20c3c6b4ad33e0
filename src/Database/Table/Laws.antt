-- ===== src/Database/Table/Laws.antt =====
-- The table in memory keeps the laws of the database.
use libersuite_panel.Prelude.{
  ℕ, zero, suc, ◌≤◌, ◌<◌, ◌≡◌, refl, sym, ap, subst, ◌≢◌, ◌⊎◌, Bool, false, ◌&&◌, Option, none,
  some, ◌==◌, if◌then◌else◌, text_eq_iff, ltb, leb, arith, Bool-cases, inl, inr,
}
use libersuite_panel.Prelude.Int.{ℤ}
use libersuite_panel.Text.{Text}
use libersuite_panel.Client.{Client}
use libersuite_panel.Database.{IsLawful, with_enabled, unless_named}
use libersuite_panel.Database.Table.{
  Table, row, scan, matching, table, stored, or_row, put, remap, mapped, credit, insert,
}

row_id : (t : Table) (i : ℕ) (c : Client) → row t i ≡ some c → c.id ≡ i
unfolding row
row_id t i c h = ground (arith, t.rows i)

row_in : (t : Table) (i : ℕ) (c : Client) → row t i ≡ some c → (0 < i) × (i ≤ t.size)
unfolding row
row_in t i c h = ground arith

or_row_cases :
    (u : Text) (x r : Option Client) (c : Client)
    → or_row u x r ≡ some c
    → (x ≡ some c) ⊎ ((r ≡ some c) × (c.username ≡ u))
or_row_cases u (some d) r c h = inl h
or_row_cases u none none c h = cc
or_row_cases u none (some d) c h = inr (ground (arith, text_eq_iff d.username u))

row_at_id : (t : Table) (i : ℕ) (c : Client) → row t i ≡ some c → row t c.id ≡ some c
row_at_id t i c h = subst (λ k. row t k ≡ some c) (sym (row_id t i c h)) h

scan_row :
    (t : Table) (u : Text) (n : ℕ) (c : Client)
    → scan t u n ≡ some c
    → (row t c.id ≡ some c) × (c.username ≡ u)
unfolding scan
scan_row t u zero c h = cc
scan_row t u (suc n) c h = ground (
  arith,
  or_row_cases u (scan t u n) (row t (suc n)) c h,
  scan_row t u n c,
  row_at_id t (suc n) c,
)

matching_zero :
    (t : Table) (u : Text) (n i : ℕ) (c : Client)
    → matching t u n ≡ 0
    → i ≤ n
    → row t i ≡ some c
    → c.username ≢ u
unfolding matching
matching_zero t u zero i c z h e = λ q. omega (arith, row_in t i c e)
matching_zero t u (suc n) i c z h e =
    ground (arith, matching_zero t u n i c, text_eq_iff c.username u)

stored_row : (t : Table) (j : ℕ) → stored j (row t j) ≡ row t j
unfolding row
stored_row t j = ground (arith, t.rows j)

row_outside : (t : Table) (j : ℕ) → (ltb 0 j && leb j t.size) ≡ false → row t j ≡ none
unfolding row
row_outside t j h = rw h

row-put :
    (t : Table) (i j : ℕ) (c : Client)
    → i ≢ 0
    → row (put t i c) j ≡ (if i == j then some (record c { id = i }) else row t j)
row-put t i j c h = unfold put in ground (arith, stored_row t j, row_outside t j)

same_id : (i : ℕ) (c d : Client) → c.id ≡ i → d.id ≡ c.id → stored i (some d) ≡ some d
same_id i c d h k = ground arith

module _ (t : Table) (f : Client → Option Client) (i : ℕ) where
  row_of_remap :
      row (remap t f) i ≡ (if ltb 0 i && leb i t.size then stored i (mapped f (row t i)) else none)
  unfolding remap
  row_of_remap = refl

  -- Where a change of the rows keeps the keys, it acts on each row.
  module _ (keeps : (c d : Client) → f c ≡ some d → d.id ≡ c.id) where
    stored_fixed : (c : Client) (x : Option Client) → c.id ≡ i → f c ≡ x → stored i x ≡ x
    stored_fixed c none k e = refl
    stored_fixed c (some d) k e = same_id i c d k (keeps c d e)

    stored-mapped : (r : Option Client) → row t i ≡ r → stored i (mapped f r) ≡ mapped f r
    stored-mapped none e = refl
    stored-mapped (some c) e = stored_fixed c (f c) (row_id t i c e) refl

    row-remap : row (remap t f) i ≡ mapped f (row t i)
    row-remap = rw row_of_remap (elim (Bool-cases (ltb 0 i && leb i t.size)) [
      | inl e ↦ rw e (stored-mapped (row t i) refl)
      | inr e ↦ rw (e, row_outside t i e)
    ])

unless_named_id : (u : Text) (c d : Client) → unless_named u c ≡ some d → d.id ≡ c.id
unless_named_id u c d h = ground arith

with_enabled_id :
    (u : Text) (b : Bool) (c d : Client) → some (with_enabled u b c) ≡ some d → d.id ≡ c.id
with_enabled_id u b c d h = ground arith

credit_id : (i : ℕ) (n : ℤ) (c d : Client) → some (credit i n c) ≡ some d → d.id ≡ c.id
credit_id i n c d h = ground arith

-- A result that is known equals what the call computes to, part by part.
state_eq : {R : Type 0} (p q : Table × R) → p ≡ q → q.0 ≡ p.0
state_eq p q e = sym (ap (λ r. r.0) e)

insert_cases :
    (s t : Table) (c : Client) (n : ℕ)
    → insert s c ≡ (t, some n)
    → (t ≡ put s (suc s.size) c) × (n ≡ suc s.size) × (matching s c.username s.size ≡ 0)
unfolding insert
insert_cases s t c n h = ground arith

row-insert :
    (s t : Table) (c : Client) (n i : ℕ)
    → insert s c ≡ (t, some n)
    → (row s n ≡ none) × (row t i ≡ (if n == i then some (record c { id = n }) else row s i))
row-insert s t c n i h =
    let (et, en, _) = insert_cases s t c n h in
    rw (et, en)
      (row_outside s (suc s.size) (ground arith), row-put s (suc s.size) i c (omega arith))

insert_failed : (s t : Table) (c : Client) → insert s c ≡ (t, none) → t ≡ s
unfolding insert
insert_failed s t c h = ground arith

credit_other :
    (s : Table) (i j : ℕ) (n : ℤ) (r : Option Client)
    → i ≢ j
    → row s j ≡ r
    → mapped (λ d. some (credit i n d)) r ≡ r
credit_other s i j n none k e = refl
credit_other s i j n (some c) k e = ground (arith, row_id s j c e)

pub table-IsLawful : IsLawful table
table-IsLawful = record {
  row = row;
  row_id = row_id;
  row_pos = λ s c e. omega (arith, row_in s 0 c e);
  find_first_row = λ s u c. scan_row s u s.size c;
  row-save = λ s t c i pos h. rw (state_eq _ _ h) (row-put s c.id i c pos);
  row-save_failed = λ s t c i h. ground arith;
  row-create = λ s t c n i h. row-insert s t c n i h;
  row-create_failed = λ s t c i h. ap (λ q. row q i) (insert_failed s t c h);
  create_unique = λ s t c d n i h e.
      matching_zero s c.username s.size i d (insert_cases s t c n h).2 (row_in s i d e).1 e;
  row-delete =
      λ s t u n i c h e. rw (state_eq _ _ h, row-remap s (unless_named u) i (unless_named_id u), e);
  delete_absent =
      λ s t u n i h e. rw (state_eq _ _ h, row-remap s (unless_named u) i (unless_named_id u), e);
  row-delete_failed = λ s t u i h. ground arith;
  delete_affected =
      λ s t u h i c e. matching_zero s u s.size i c (ground arith) (row_in s i c e).1 e;
  row-update_enabled = λ s t u b n i c h e.
      rw (state_eq _ _ h, row-remap s (λ d. some (with_enabled u b d)) i (with_enabled_id u b), e);
  update_enabled_absent = λ s t u b n i h e.
      rw (state_eq _ _ h, row-remap s (λ d. some (with_enabled u b d)) i (with_enabled_id u b), e);
  row-update_enabled_failed = λ s t u b i h. ground arith;
  update_enabled_affected =
      λ s t u b h i c e. matching_zero s u s.size i c (ground arith) (row_in s i c e).1 e;
  row-add_traffic_used = λ s t i n c h e fits.
      rw (state_eq _ _ h, row-remap s (λ d. some (credit i n d)) i (credit_id i n), e)
        (ground (arith, row_id s i c e));
  add_traffic_used_absent = λ s t i n h e.
      rw (state_eq _ _ h, row-remap s (λ d. some (credit i n d)) i (credit_id i n), e);
  add_traffic_used_others = λ s t i j n h k.
      rw (state_eq _ _ h, row-remap s (λ d. some (credit i n d)) j (credit_id i n))
        (credit_other s i j n (row s j) k refl);
  add_traffic_used_failed = λ s t i j n h. ground arith;
}

-- The rows that the laws are about are those of the table.
pub table-IsLawful_row : (t : Table) (i : ℕ) → table-IsLawful.row t i ≡ row t i
unfolding table-IsLawful
table-IsLawful_row t i = refl
