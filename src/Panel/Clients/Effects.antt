-- ===== src/Panel/Clients/Effects.antt =====
-- What the commands do to the rows.
use libersuite_panel.Prelude.{
  ℕ, zero, suc, ◌≡◌, ◌≢◌, refl, true, false, Option, none, some, text_eq_iff, arith, Option-cases,
  inl, inr, ◌⊎◌,
}
use libersuite_panel.Text.{Text}
use libersuite_panel.Client.{Client, Time, is_active}
use libersuite_panel.Database.{Database, IsLawful}
use libersuite_panel.Panel.Clients.{
  success, not_found, affected, remove_client, enable_client, disable_client,
}

pub affected_success :
    {S : Type 0} (r : S × Option ℕ) (t : S)
    → affected r ≡ (t, success)
    → (n : ℕ) × (r ≡ (t, some n))
affected_success (s, none) t h = cc
affected_success (s, some zero) t h = cc
affected_success (s, some (suc n)) t h = (suc n, cc)

affected_not_found :
    {S : Type 0} (r : S × Option ℕ) (t : S) → affected r ≡ (t, not_found) → r ≡ (t, some 0)
affected_not_found (s, none) t h = cc
affected_not_found (s, some zero) t h = cc
affected_not_found (s, some (suc n)) t h = cc

module _ (D : Database) (L : IsLawful D) (username : Text) (s t : D.State) where
  -- After a removal that succeeds no login finds the name any more.
  pub remove_client_gone :
      remove_client D username s ≡ (t, success) → D.find_first t username ≡ none
  unfolding remove_client
  remove_client_gone h =
      let (n, e) = affected_success (D.delete s username) t h in
      elim (Option-cases (D.find_first t username)) [
        | inl none_left ↦ none_left
        | inr (c, f) ↦
            let (r, named) = L.find_first_row t username c f in
            absurd (not_left c n e r named (L.row s c.id) refl)
      ]
    where
      not_left :
          (c : Client) (n : ℕ)
          → D.delete s username ≡ (t, some n)
          → L.row t c.id ≡ some c
          → c.username ≡ username
          → (r : Option Client) → L.row s c.id ≡ r
          → ⊥
      not_left c n e r named none q = let k = L.delete_absent s t username n c.id e q in cc
      not_left c n e r named (some d) q =
          let k = L.row-delete s t username n c.id d e q in
          absurd (ground (arith, text_eq_iff d.username username))

  -- A client that has been disabled cannot connect at any time: the row that a login finds is not active.
  pub disable_client_blocks :
      (c : Client) (now : Time)
      → disable_client D username s ≡ (t, success)
      → D.find_first t username ≡ some c
      → is_active c now ≡ false
  unfolding disable_client is_active
  disable_client_blocks c now h f =
      let (n, e) = affected_success (D.update_enabled s username false) t h in
      let (r, named) = L.find_first_row t username c f in blocked n e r named (L.row s c.id) refl
    where
      blocked :
          (n : ℕ)
          → D.update_enabled s username false ≡ (t, some n)
          → L.row t c.id ≡ some c
          → c.username ≡ username
          → (r : Option Client) → L.row s c.id ≡ r
          → is_active c now ≡ false
      blocked n e r named none q =
          let k = L.update_enabled_absent s t username false n c.id e q in cc
      blocked n e r named (some d) q =
          let k = L.row-update_enabled s t username false n c.id d e q in
          ground (arith, text_eq_iff d.username username)

  -- Enabling a client sets the flag of the rows with its name and changes nothing else in any row.
  pub enable_client_rows :
      (i : ℕ) (c : Client)
      → enable_client D username s ≡ (t, success)
      → L.row s i ≡ some c
      → (c.username ≡ username → L.row t i ≡ some (record c { enabled = true }))
        × (c.username ≢ username → L.row t i ≡ some c)
  unfolding enable_client
  enable_client_rows i c h q =
      let (n, e) = affected_success (D.update_enabled s username true) t h in
      let k = L.row-update_enabled s t username true n i c e q in
      ground (arith, text_eq_iff c.username username)

  -- A removal, an enabling and a disabling that find no client say so only if no row has the name.
  pub not_found_absent :
      (remove_client D username s ≡ (t, not_found))
        ⊎ ((enable_client D username s ≡ (t, not_found))
            ⊎ (disable_client D username s ≡ (t, not_found)))
      → (i : ℕ) (c : Client) → L.row s i ≡ some c
      → c.username ≢ username
  unfolding remove_client enable_client disable_client
  not_found_absent (inl h) i c q =
      L.delete_affected s t username (affected_not_found (D.delete s username) t h) i c q
  not_found_absent (inr (inl h)) i c q =
      L.update_enabled_affected s t username true
        (affected_not_found (D.update_enabled s username true) t h) i c q
  not_found_absent (inr (inr h)) i c q =
      L.update_enabled_affected s t username false
        (affected_not_found (D.update_enabled s username false) t h) i c q
