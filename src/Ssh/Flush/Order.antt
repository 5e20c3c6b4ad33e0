-- ===== src/Ssh/Flush/Order.antt =====
-- The order in which flushAll takes the sessions, which a range over a Go map leaves open.
use mathlib.Core.List.{Perm, Permᴰ}
use mathlib.Core.Logic.{∥∥₁_elim}
use mathlib.Core.Path.{fun_ext, subst}
use libersuite_panel.Prelude.{
  ℕ, ◌≡◌, ◌≢◌, refl, sym, ap, ◌∙◌, true, Bool-cases, inl, inr, Option, some, List, [], ◌∷◌, All,
  ◌==◌, if◌then◌else◌, arith,
}
use libersuite_panel.Prelude.Int.{is_zero}
use libersuite_panel.Text.{Text}
use libersuite_panel.Client.{Client}
use libersuite_panel.Database.{Database, IsLawful}
use libersuite_panel.Ssh.{Tracker, Server, used_bytes, settled, flush_one, flush_list, flush_all}
use libersuite_panel.Ssh.Overwrites.{flush_one_overwrites}

-- The rows by their keys, and what one flush makes of them.
abbrev pub Rows : Type 0
Rows = ℕ → Option Client

abbrev pub Entry : Type 0
Entry = Text × Tracker

abbrev pub flush_row : Tracker → Rows → Rows
flush_row t r i =
    if is_zero (used_bytes t)
    then r i
    else if t.client.id == i
    then some (settled t).client
    else r i

abbrev pub flush_rows : List Entry → Rows → Rows
flush_rows [] r = r
flush_rows (p ∷ l) r = flush_rows l (flush_row p.1 r)

abbrev pub OtherClient : Entry → Entry → Type 0
OtherClient p q = p.1.client.id ≢ q.1.client.id

-- Each session is of a client of its own, whose record came from a row.
abbrev pub ClientsApart : List Entry → Type 0
ClientsApart [] = Unit {0}
ClientsApart (p ∷ l) = (p.1.client.id ≢ 0) × All (OtherClient p) l × ClientsApart l

All-perm {κ} : (P : Entry → Type κ) {l l' : List Entry} → Permᴰ l l' → All P l → All P l'
All-perm P Permᴰ.nil h = h
All-perm P (Permᴰ.cons e d) (h, hs) = (subst P e h, All-perm P d hs)
All-perm P (Permᴰ.swap e f) (h, (k, hs)) = (subst P f k, (subst P e h, hs))
All-perm P (Permᴰ.trans d d') h = All-perm P d' (All-perm P d h)

ClientsApart-perm : {l l' : List Entry} → Permᴰ l l' → ClientsApart l → ClientsApart l'
ClientsApart-perm Permᴰ.nil h = h
ClientsApart-perm (Permᴰ.cons {a = a} {b = b} {l₁ = l} {l₂ = l'} e d) (n, h, hs) = (
  subst (λ p. p.1.client.id ≢ 0) e n,
  subst (λ p. All (OtherClient p) l') e (All-perm (OtherClient a) d h),
  ClientsApart-perm d hs,
)
ClientsApart-perm (Permᴰ.swap {a = a} {b = b} {b' = b'} {l = l} e f) (n, (o, h), (m, k, hs)) =
    subst (λ p. ClientsApart (p ∷ b' ∷ l)) f
      (subst (λ q. ClientsApart (b ∷ q ∷ l)) e (m, ((λ x. o (sym x)), k), (n, h, hs)))
ClientsApart-perm (Permᴰ.trans d d') h = ClientsApart-perm d' (ClientsApart-perm d h)

-- Flushes of two clients do not get in each other's way.
flush_row_swap :
    (t u : Tracker) (r : Rows)
    → t.client.id ≢ u.client.id
    → flush_row u (flush_row t r) ≡ flush_row t (flush_row u r)
flush_row_swap t u r h = fun_ext λ i. ground arith

flush_rows-perm :
    {l l' : List Entry}
    → Permᴰ l l'
    → ClientsApart l
    → (r : Rows) → flush_rows l r ≡ flush_rows l' r
flush_rows-perm Permᴰ.nil h r = refl
flush_rows-perm (Permᴰ.cons {a = a} {l₂ = l'} e d) (_, _, hs) r =
    flush_rows-perm d hs (flush_row a.1 r) ∙ ap (λ p. flush_rows l' (flush_row p.1 r)) e
flush_rows-perm (Permᴰ.swap {a = a} {b = b} {a' = a'} {l = l} e f) (_, (o, _), _) r =
    ap (flush_rows l) (flush_row_swap a.1 b.1 r o)
    ∙ ap (λ q. flush_rows l (flush_row a.1 (flush_row q.1 r))) f
    ∙ ap (λ q. flush_rows l (flush_row q.1 (flush_row a'.1 r))) e
flush_rows-perm (Permᴰ.trans d d') h r =
    flush_rows-perm d h r ∙ flush_rows-perm d' (ClientsApart-perm d h) r

row_set : IsSet (Option Client)
row_set = hlevel

module _ (D : Database) (L : IsLawful D)
    (saves : (s : D.State) (c : Client) → (D.save s c).1 ≡ true) where
  empty_flush :
      (t : Tracker) (s : D.State) → is_zero (used_bytes t) ≡ true → (flush_one D t s).1 ≡ s
  unfolding flush_one
  empty_flush t s e = rw e refl

  pub row-flush_one :
      (t : Tracker) (s : D.State) (i : ℕ)
      → t.client.id ≢ 0
      → L.row (flush_one D t s).1 i ≡ flush_row t (L.row s) i
  row-flush_one t s i k = elim (Bool-cases (is_zero (used_bytes t))) [
    | inl e ↦ ap (λ s'. L.row s' i) (empty_flush t s e) ∙ rw e refl
    | inr e ↦
        flush_one_overwrites D L t s (D.save s (settled t).client).0 i (e, k)
          (ap (λ b. ((D.save s (settled t).client).0, b)) (saves s (settled t).client))
        ∙ rw e refl
  ]

  row-flush_list :
      (l : List Entry) (s : D.State)
      → ClientsApart l
      → L.row (flush_list D l s).1 ≡ flush_rows l (L.row s)
  unfolding flush_list
  row-flush_list [] s h = refl
  row-flush_list ((id, t) ∷ l) s (k, _, hs) =
      row-flush_list l (flush_one D t s).1 hs
      ∙ ap (flush_rows l) (fun_ext λ i. row-flush_one t s i k)

  -- The order in which flushAll comes upon the sessions makes no difference to any row, as long as no two of them are
  -- of the same client and the saves succeed: each row is that of its own session's flush.
  pub flush_all_order :
      (v : Server D.State) (sessions : List Entry)
      → Perm v.sessions sessions
      → ClientsApart v.sessions
      → (i : ℕ)
      → (L.row (flush_all D v).db i ≡ flush_rows v.sessions (L.row v.db) i)
        × (L.row (flush_all D (record v { sessions = sessions })).db i ≡ L.row (flush_all D v).db i)
  unfolding flush_all
  flush_all_order v sessions p h i =
      let first = ap (λ r. r i) (row-flush_list v.sessions v.db h) in
      (
        first,
        ∥∥₁_elim p (row_set _ _) λ d.
            ap (λ r. r i)
              (row-flush_list sessions v.db (ClientsApart-perm d h)
                ∙ sym (flush_rows-perm d h (L.row v.db)))
            ∙ sym first,
      )
