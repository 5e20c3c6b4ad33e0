-- ===== src/Ssh/Bill.antt =====
-- One session among those of other clients, in the list of the sessions and in the table.
pub mod Record
pub mod Whole
use libersuite_panel.Prelude.{
  ℕ, ◌≡◌, ◌≢◌, refl, sym, ap, subst, ◌∙◌, Bool, true, false, Bool-cases, inl, inr, ◌⊎◌, Option,
  none, some, List, [], ◌∷◌, All, if◌then◌else◌, text_eq, text_eq_iff, arith, ◌==◌,
}
use libersuite_panel.Prelude.Int.{is_zero}
use libersuite_panel.Text.{Text}
use libersuite_panel.Client.{Client}
use libersuite_panel.Database.{Database, IsLawful}
use libersuite_panel.Ssh.{Tracker, used_bytes, settled, reset, lookup, erase, flush_one, flush_list}
use libersuite_panel.Ssh.Sessions.{update}
use libersuite_panel.Ssh.Flush.Order.{Entry, flush_row, row-flush_one}

-- What a flush leaves of a tracker.
abbrev pub flushed : Tracker → Tracker
flushed t = if is_zero (used_bytes t) then reset t else settled t

pub flush_one_tracker : (D : Database) (t : Tracker) (s : D.State) → (flush_one D t s).0 ≡ flushed t
unfolding flush_one
flush_one_tracker D t s = elim (Bool-cases (is_zero (used_bytes t))) [
  | inl e ↦ rw e refl
  | inr e ↦ rw e refl
]

flushed_id : (t : Tracker) → (flushed t).client.id ≡ t.client.id
flushed_id t = elim (Bool-cases (is_zero (used_bytes t))) [ inl e ↦ rw e refl | inr e ↦ rw e refl ]

-- An id is another one if one of two equal ids is.
other_id : (j k id : Text) → text_eq j id ≡ true → text_eq k id ≡ false → text_eq j k ≡ false
other_id j k id e n = ground (arith, text_eq_iff j id, text_eq_iff k id, text_eq_iff j k)

same_id : (j k id : Text) → text_eq j id ≡ true → text_eq j k ≡ text_eq id k
same_id j k id e = ap (λ i. text_eq i k) ((text_eq_iff j id).0 e)

module _ (id : Text) (c : Client) where
  abbrev pub Foreign : Client → Type 0
  Foreign d = (d.id ≢ 0) × (d.id ≢ c.id)

  abbrev pub Others : List Entry → Type 0
  Others l = All (λ p. (text_eq p.0 id ≡ false) × Foreign p.1.client) l

  -- The session with this id is t, and all the others are of other clients.
  abbrev pub Holding : Tracker → List Entry → Type 0
  Holding t [] = ⊥
  Holding t ((j, u) ∷ l) =
      ((text_eq j id ≡ true) × (u ≡ t) × Others l)
      ⊎ ((text_eq j id ≡ false) × Foreign u.client × Holding t l)

  pub lookup-Holding : (t : Tracker) (l : List Entry) → Holding t l → lookup id l ≡ some t
  unfolding lookup
  lookup-Holding t [] h = elim h [ ]
  lookup-Holding t ((j, u) ∷ l) (inl (e, q, o)) = rw (e, q) refl
  lookup-Holding t ((j, u) ∷ l) (inr (e, f, h)) = rw e (lookup-Holding t l h)

  Others-lookup :
      (k : Text) (u : Tracker) (l : List Entry) → Others l → lookup k l ≡ some u → Foreign u.client
  unfolding lookup
  Others-lookup k u [] o e = absurd (cc)
  Others-lookup k u ((j, w) ∷ l) ((_, f), o) e = elim (Bool-cases (text_eq j k)) [
    | inl m ↦ let q : some w ≡ some u = rw m at e in ground (arith)
    | inr m ↦ Others-lookup k u l o (rw m at e)
  ]

  pub lookup_away :
      (k : Text) (t u : Tracker) (l : List Entry)
      → text_eq k id ≡ false
      → Holding t l
      → lookup k l ≡ some u
      → Foreign u.client
  unfolding lookup
  lookup_away k t u [] other h e = elim h [ ]
  lookup_away k t u ((j, w) ∷ l) other (inl (m, q, o)) e =
      Others-lookup k u l o (rw (other_id j k id m other) at e)
  lookup_away k t u ((j, w) ∷ l) other (inr (m, f, h)) e = elim (Bool-cases (text_eq j k)) [
    | inl n ↦ let q : some w ≡ some u = rw n at e in ground (arith)
    | inr n ↦ lookup_away k t u l other h (rw n at e)
  ]

  kept_Foreign :
      (k : Text) (f : Tracker → Tracker) (j : Text) (u : Tracker)
      → ((w : Tracker) → (f w).client ≡ w.client)
      → Foreign u.client
      → Foreign (if text_eq j k then f u else u).client
  kept_Foreign k f j u keeps g = elim (Bool-cases (text_eq j k)) [
    | inl e ↦ rw e (subst Foreign (sym (keeps u)) g)
    | inr e ↦ rw e g
  ]

  Others-update :
      (k : Text) (f : Tracker → Tracker) (l : List Entry)
      → ((u : Tracker) → (f u).client ≡ u.client)
      → Others l
      → Others (update k f l)
  unfolding update
  Others-update k f [] keeps o = o
  Others-update k f ((j, u) ∷ l) keeps ((n, g), o) =
      ((n, kept_Foreign k f j u keeps g), Others-update k f l keeps o)

  pub Holding-update :
      (k : Text) (f : Tracker → Tracker) (t : Tracker) (l : List Entry)
      → ((u : Tracker) → (f u).client ≡ u.client)
      → Holding t l
      → Holding (if text_eq id k then f t else t) (update k f l)
  unfolding update
  Holding-update k f t [] keeps h = elim h [ ]
  Holding-update k f t ((j, u) ∷ l) keeps (inl (e, q, o)) =
      inl (e, rw (q, same_id j k id e) refl, Others-update k f l keeps o)
  Holding-update k f t ((j, u) ∷ l) keeps (inr (e, g, h)) =
      inr (e, kept_Foreign k f j u keeps g, Holding-update k f t l keeps h)

  Others-erase : (k : Text) (l : List Entry) → Others l → Others (erase k l)
  unfolding erase
  Others-erase k [] o = o
  Others-erase k ((j, u) ∷ l) (h, o) = elim (Bool-cases (text_eq j k)) [
    | inl e ↦ rw e (Others-erase k l o)
    | inr e ↦ rw e (h, Others-erase k l o)
  ]

  pub Holding-erase :
      (k : Text) (t : Tracker) (l : List Entry)
      → text_eq k id ≡ false
      → Holding t l
      → Holding t (erase k l)
  unfolding erase
  Holding-erase k t [] other h = elim h [ ]
  Holding-erase k t ((j, u) ∷ l) other (inl (e, q, o)) =
      rw (other_id j k id e other) (inl (e, q, Others-erase k l o))
  Holding-erase k t ((j, u) ∷ l) other (inr (e, g, h)) = elim (Bool-cases (text_eq j k)) [
    | inl m ↦ rw m (Holding-erase k t l other h)
    | inr m ↦ rw m (inr (e, g, Holding-erase k t l other h))
  ]

module _ (D : Database) (L : IsLawful D)
    (saves : (s : D.State) (d : Client) → (D.save s d).1 ≡ true) (id : Text) (c : Client) where
  flush_away :
      (u : Tracker) (s : D.State)
      → Foreign id c u.client
      → (Foreign id c (flush_one D u s).0.client) × (L.row (flush_one D u s).1 c.id ≡ L.row s c.id)
  flush_away u s (k, n) = (
    rw (flush_one_tracker D u s, flushed_id u) (k, n),
    row-flush_one D L saves u s c.id k ∙ ground arith,
  )

  flush_all_away :
      (l : List Entry) (s : D.State)
      → Others id c l
      → Others id c (flush_list D l s).0 × (L.row (flush_list D l s).1 c.id ≡ L.row s c.id)
  unfolding flush_list
  flush_all_away [] s o = (o, refl)
  flush_all_away ((j, u) ∷ l) s ((n, f), o) =
      let (f', e) = flush_away u s f in
      let (o', e') = flush_all_away l (flush_one D u s).1 o in (((n, f'), o'), e' ∙ e)

  -- A flush of the client's own session writes the record to its row, or has written it before.
  pub own_flush :
      (t : Tracker) (s : D.State)
      → t.client.id ≡ c.id
      → c.id ≢ 0
      → L.row s c.id ≡ some t.client
      → L.row (flush_one D t s).1 c.id ≡ some (flushed t).client
  own_flush t s same k e =
      let hit : (t.client.id == c.id) ≡ true = ground arith in
      row-flush_one D L saves t s c.id (λ z. k (sym same ∙ z))
      ∙ elim (Bool-cases (is_zero (used_bytes t))) [ inl z ↦ rw z e | inr z ↦ rw (z, hit) refl ]

  pub flush_list-Holding :
      (t : Tracker) (l : List Entry) (s : D.State)
      → t.client.id ≡ c.id
      → c.id ≢ 0
      → Holding id c t l
      → L.row s c.id ≡ some t.client
      → Holding id c (flushed t) (flush_list D l s).0
        × (L.row (flush_list D l s).1 c.id ≡ some (flushed t).client)
  unfolding flush_list
  flush_list-Holding t [] s same k h e = elim h [ ]
  flush_list-Holding t ((j, u) ∷ l) s same k (inl (m, q, o)) e =
      let (o', e') = flush_all_away l (flush_one D u s).1 o in
      (
        inl (m, flush_one_tracker D u s ∙ ap flushed q, o'),
        e' ∙ ap (λ w. L.row (flush_one D w s).1 c.id) q ∙ own_flush t s same k e,
      )
  flush_list-Holding t ((j, u) ∷ l) s same k (inr (m, f, h)) e =
      let (f', e') = flush_away u s f in
      let (h', e'') = flush_list-Holding t l (flush_one D u s).1 same k h (e' ∙ e) in
      (inr (m, f', h'), e'')
