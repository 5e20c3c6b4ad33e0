-- ===== src/Socks/Request/Billing.antt =====
-- What a connection does to the clients' table.
pub mod Frame
use libersuite_panel.Prelude.{
  ℕ, ◌≡◌, ◌≢◌, refl, sym, ap, ◌∙◌, Bool, true, false, List, some, if◌then◌else◌, length, arith,
  Bool-cases, inl, inr, leb,
}
use libersuite_panel.Prelude.Int.{ℤ, pos, ltb_ℤ, ◌<ℤ◌, ◌≤ℤ◌, ◌+ℤ◌}
use libersuite_panel.Prelude.Words.{IsInt64}
use libersuite_panel.Text.{Text}
use libersuite_panel.Client.{Client}
use libersuite_panel.Database.{Database, IsLawful}
use libersuite_panel.Socks.Wire.{
  Error, Result, ok, err, World, M, ◌>>=◌, pure, fail, continue, read_full, write, refuse, guard,
}
use libersuite_panel.Socks.Address.{
  read_ipv4, read_ipv6, read_domain, read_host, read_target_address,
}
use libersuite_panel.Socks.Relay.{Event, relay}
use libersuite_panel.Socks.Request.{refused, or_refuse, account, handle_connect_request}

-- A step that leaves the database alone.
pub record KeepsDb {S A : Type 0} (m : M S A) : Type 0 where
  pub same : (w : World S) → (m w).1.db ≡ w.db

module _ {S : Type 0} where
  keeps-pure : {A : Type 0} (a : A) → KeepsDb {S = S} (pure a)
  keeps-pure a = record { same = λ w. refl }

  keeps-fail : {A : Type 0} (e : Error) → KeepsDb {S = S} {A = A} (fail e)
  keeps-fail e = record { same = λ w. refl }

  keeps-read_full : (n : ℕ) → KeepsDb {S = S} (read_full n)
  unfolding read_full
  keeps-read_full n = record {
    same = λ w. elim (Bool-cases (leb n (length w.wire.input))) [ inl e ↦ rw e | inr e ↦ rw e ];
  }

  keeps-write : (bytes : Text) → KeepsDb {S = S} (write bytes)
  unfolding write
  keeps-write bytes = record { same = λ w. refl }

  keeps-refuse : {A : Type 0} (bytes : Text) (e : Error) → KeepsDb {S = S} {A = A} (refuse bytes e)
  unfolding refuse
  keeps-refuse bytes e = record { same = λ w. refl }

  keeps-guard : (b : Bool) (m : M S (Unit {0})) → KeepsDb m → KeepsDb (guard b m)
  keeps-guard true m h = record { same = λ w. refl }
  keeps-guard false m h = h

  keeps-continue :
      {A B : Type 0} (r : Result A × World S) (f : A → M S B) (s : S)
      → ((a : A) → KeepsDb (f a))
      → r.1.db ≡ s
      → (continue r f).1.db ≡ s
  keeps-continue (ok a, v) f s k h = (k a).same v ∙ h
  keeps-continue (err e, v) f s k h = h

  keeps->>= :
      {A B : Type 0} (m : M S A) (f : A → M S B)
      → KeepsDb m
      → ((a : A) → KeepsDb (f a))
      → KeepsDb (m >>= f)
  keeps->>= m f h k = record { same = λ w. keeps-continue (m w) f w.db k (h.same w) }

  keeps-refused : {A : Type 0} (rep : ℕ) (r : Result A × World S) → (refused rep r).1.db ≡ r.1.db
  unfolding refuse
  keeps-refused rep (ok a, w) = refl
  keeps-refused rep (err e, w) = refl

  keeps-or_refuse : {A : Type 0} (rep : ℕ) (m : M S A) → KeepsDb m → KeepsDb (or_refuse rep m)
  unfolding or_refuse
  keeps-or_refuse rep m h = record { same = λ w. keeps-refused rep (m w) ∙ h.same w }

  ruleset keeps = (
    keeps-pure, keeps-fail, keeps-read_full, keeps-write, keeps-refuse, keeps-guard, keeps->>=,
    keeps-or_refuse,
  )

  keeps-read_ipv4 : KeepsDb {S = S} read_ipv4
  unfolding read_ipv4
  keeps-read_ipv4 = search keeps

  keeps-read_ipv6 : KeepsDb {S = S} read_ipv6
  unfolding read_ipv6
  keeps-read_ipv6 = search keeps

  keeps-read_domain : KeepsDb {S = S} read_domain
  unfolding read_domain
  keeps-read_domain = search keeps

  keeps-read_host : (atyp : ℕ) → KeepsDb {S = S} (read_host atyp)
  unfolding read_host
  keeps-read_host atyp = record {
    same = λ w.
        ground (arith, keeps-read_ipv4.same w, keeps-read_ipv6.same w, keeps-read_domain.same w);
  }

  keeps-read_target_address : (atyp : ℕ) → KeepsDb {S = S} (read_target_address atyp)
  unfolding read_target_address
  keeps-read_target_address atyp = search (keeps, keeps-read_host)

module _ (D : Database) (L : IsLawful D) (s : D.State) (i : ℕ) (n : ℤ) (row : Client) where
  charge_laws :
      (D.add_traffic_used s i n).1 ≡ true
      → L.row s i ≡ some row
      → IsInt64 (row.traffic_used +ℤ n)
      → let t = if ltb_ℤ (pos 0) n then (D.add_traffic_used s i n).0 else s in
        (pos 0 <ℤ n → L.row t i ≡ some (record row { traffic_used = row.traffic_used +ℤ n }))
        × ((j : ℕ) → i ≢ j → L.row t j ≡ L.row s j)
        × (n ≤ℤ pos 0 → t ≡ s)
  charge_laws saved e fits =
      let done : D.add_traffic_used s i n ≡ ((D.add_traffic_used s i n).0, true) =
        ap (λ b. ((D.add_traffic_used s i n).0, b)) saved in
      elim (Bool-cases (ltb_ℤ (pos 0) n)) [
        | inl p ↦ rw p (
          λ _. L.row-add_traffic_used s _ i n row done e fits,
          λ j k. L.add_traffic_used_others s _ i j n done k,
          λ q. absurd (ground arith),
        )
        | inr p ↦ rw p (λ q. absurd (ground arith), λ j k. refl, λ q. refl)
      ]

module _ (D : Database) (network : Text → Text → Bool) (events : List Event) (client : Client) where
  -- The bytes of the session, by its copiers' counter.
  abbrev pub session_bytes : ℤ
  session_bytes =
      relay (record { base_used = client.traffic_used; limit = client.traffic_limit }) events

  abbrev pub charged : D.State → D.State
  charged s =
      if ltb_ℤ (pos 0) session_bytes then (D.add_traffic_used s client.id session_bytes).0 else s

  -- The table after a run: charged for the session if it ended well, and as it was if not.
  abbrev Charges : D.State → Result (Unit {0}) → D.State → Type 0
  Charges s (ok u) t = t ≡ charged s
  Charges s (err e) t = t ≡ s

  record Bills (m : M D.State (Unit {0})) : Type 0 where
    bill : (w : World D.State) → Charges w.db (m w).0 (m w).1.db

  Bills-account : Bills (account D network events client)
  unfolding account
  Bills-account = record { bill = λ w. refl }

  Bills-continue :
      {A : Type 0} (r : Result A × World D.State) (f : A → M D.State (Unit {0})) (s : D.State)
      → ((a : A) → Bills (f a))
      → r.1.db ≡ s
      → Charges s (continue r f).0 (continue r f).1.db
  Bills-continue (ok a, v) f s k h = rw (← h) ((k a).bill v)
  Bills-continue (err e, v) f s k h = h

  Bills->>= :
      {A : Type 0} (m : M D.State A) (f : A → M D.State (Unit {0}))
      → KeepsDb m
      → ((a : A) → Bills (f a))
      → Bills (m >>= f)
  Bills->>= m f h k = record { bill = λ w. Bills-continue (m w) f w.db k (h.same w) }

  request-Bills : Bills (handle_connect_request D network events client)
  unfolding handle_connect_request
  request-Bills = search (keeps, keeps-read_target_address, Bills-account, Bills->>=) depth 20

  -- A request that fails in any way leaves the clients' table as it was.
  pub failed_request_db :
      (w w' : World D.State) (e : Error)
      → handle_connect_request D network events client w ≡ (err e, w')
      → w'.db ≡ w.db
  failed_request_db w w' e h =
      sym (ap (λ r. r.1.db) h)
      ∙ not_charged (handle_connect_request D network events client w) (request-Bills.bill w)
          (ap (λ r. r.0) h)
    where
      not_charged :
          (r : Result (Unit {0}) × World D.State)
          → Charges w.db r.0 r.1.db
          → r.0 ≡ err e
          → r.1.db ≡ w.db
      not_charged (ok u, v) c k = cc
      not_charged (err d, v) c k = c

  served_request_db :
      (w w' : World D.State)
      → handle_connect_request D network events client w ≡ (ok tt, w')
      → w'.db ≡ charged w.db
  served_request_db w w' h =
      sym (ap (λ r. r.1.db) h)
      ∙ is_charged (handle_connect_request D network events client w) (request-Bills.bill w)
          (ap (λ r. r.0) h)
    where
      is_charged :
          (r : Result (Unit {0}) × World D.State)
          → Charges w.db r.0 r.1.db
          → r.0 ≡ ok tt
          → r.1.db ≡ charged w.db
      is_charged (ok u, v) c k = c
      is_charged (err d, v) c k = cc

  -- A request that is served, when the update of the database succeeds, the client's row is still there and the sum is
  -- in the range of int64: the bytes of the session are added to what the row holds by then, which need not be
  -- what it held at the login, and no other column and no other row changes; a session with no bytes changes
  -- nothing.
  pub served_request_bills :
      (L : IsLawful D) (w w' : World D.State) (row : Client)
      → handle_connect_request D network events client w ≡ (ok tt, w')
      → (D.add_traffic_used w.db client.id session_bytes).1 ≡ true
      → L.row w.db client.id ≡ some row
      → IsInt64 (row.traffic_used +ℤ session_bytes)
      → (pos 0 <ℤ session_bytes
          → L.row w'.db client.id
            ≡ some (record row { traffic_used = row.traffic_used +ℤ session_bytes }))
        × ((j : ℕ) → client.id ≢ j → L.row w'.db j ≡ L.row w.db j)
        × (session_bytes ≤ℤ pos 0 → w'.db ≡ w.db)
  served_request_bills L w w' row h saved e fits =
      rw (served_request_db w w' h) (charge_laws D L w.db client.id session_bytes row saved e fits)
