-- ===== src/Socks/Wire/Moves.antt =====
-- What a run of the connection's monad consumes of the input and adds to the output.
use mathlib.Core.List.{append_assoc, append-nil}
use libersuite_panel.Prelude.{
  subst, ℕ, zero, suc, ◌≤◌, ◌≡◌, refl, sym, ap, ◌∙◌, Bool, true, false, [], ◌∷◌, ◌++◌, leb, length,
  take, drop, length-append, take-append-drop, arith, Bool-cases, inl, inr,
}
use libersuite_panel.Text.{Text}
use libersuite_panel.Socks.Wire.{
  refuse, err, M, Error, Result, ok, err, whole, cut, World, M, continue, read_full, write, guard,
  with_input, with_output, byte_at,
}

take-append_length : (s t : Text) → take (length s) (s ++ t) ≡ s
take-append_length [] t = refl
take-append_length (c ∷ s) t = ap (◌∷◌ c) (take-append_length s t)

drop-append_length : (s t : Text) → drop (length s) (s ++ t) ≡ t
drop-append_length [] t = refl
drop-append_length (c ∷ s) t = drop-append_length s t

length-take_le : (n : ℕ) (s : Text) → n ≤ length s → length (take n s) ≡ n
length-take_le zero s h = refl
length-take_le (suc n) [] h = elim h [ ]
length-take_le (suc n) (c ∷ s) h = omega (arith, length-take_le n s)

-- A buffer of two bytes is its two bytes.
pub two_bytes : (bs : Text) → length bs ≡ 2 → bs ≡ byte_at bs 0 ∷ byte_at bs 1 ∷ []
two_bytes [] h = absurd (omega arith)
two_bytes (a ∷ []) h = absurd (omega arith)
two_bytes (a ∷ b ∷ []) h = refl
two_bytes (a ∷ b ∷ c ∷ bs) h = absurd (omega arith)

pub one_byte : (bs : Text) → length bs ≡ 1 → bs ≡ byte_at bs 0 ∷ []
one_byte [] h = absurd (omega arith)
one_byte (a ∷ []) h = refl
one_byte (a ∷ b ∷ bs) h = absurd (omega arith)

module _ {S : Type 0} where
  -- A read that is given its bytes returns them and leaves the rest.
  pub read_full-append :
      (bs rest : Text) (w : World S)
      → read_full (length bs) (with_input (bs ++ rest) w) ≡ (ok bs, with_input rest w)
  unfolding read_full
  read_full-append bs rest w =
      let e : leb (length bs) (length (bs ++ rest)) ≡ true =
        ground (arith, length-append bs rest) in
      rw (e, take-append_length bs rest, drop-append_length bs rest)

  pub write_whole :
      (bytes : Text) (w : World S)
      → w.wire.deliveries ≡ []
      → write bytes w ≡ (ok tt, with_output (w.wire.output ++ bytes) w)
  unfolding write
  write_whole bytes w h = ground arith

  pub refuse_whole :
      {A : Type 0} (bytes : Text) (e : Error) (w : World S)
      → w.wire.deliveries ≡ []
      → refuse {A = A} bytes e w ≡ (err e, with_output (w.wire.output ++ bytes) w)
  unfolding refuse
  refuse_whole bytes e w h = ap (λ p. (err e, p.1)) (write_whole bytes w h)

  pub record Moved (w w' : World S) (consumed produced : Text) : Type 0 where
    pub read : w.wire.input ≡ consumed ++ w'.wire.input
    pub wrote : w'.wire.output ≡ w.wire.output ++ produced
    pub same_db : w'.db ≡ w.db

  pub Moved-trans :
      {u v w : World S} {c c' p p' : Text}
      → Moved u v c p
      → Moved v w c' p'
      → Moved u w (c ++ c') (p ++ p')
  Moved-trans {u} {v} {w} {c} {c'} {p} {p'} f g = record {
    read = f.read ∙ ap (◌++◌ c) g.read ∙ sym (append_assoc c c' w.wire.input);
    wrote = g.wrote ∙ ap (λ t. t ++ p') f.wrote ∙ append_assoc u.wire.output p p';
    same_db = g.same_db ∙ f.same_db;
  }

  pub Moved-write :
      {u v w : World S} {c p p' : Text} → Moved u v c p → Moved v w [] p' → Moved u w c (p ++ p')
  Moved-write {u} {w} {c} {p} {p'} f g =
      subst (λ t. Moved u w t (p ++ p')) (append-nil c) (Moved-trans f g)

  pub Moved-read :
      {u v w : World S} {c c' p : Text} → Moved u v c p → Moved v w c' [] → Moved u w (c ++ c') p
  Moved-read {u} {w} {c} {c'} {p} f g =
      subst (λ t. Moved u w (c ++ c') t) (append-nil p) (Moved-trans f g)

  pub read_full_ok :
      (n : ℕ) (w : World S) {bs : Text} {w' : World S}
      → read_full n w ≡ (ok bs, w')
      → (length bs ≡ n) × Moved w w' bs []
  unfolding read_full
  read_full_ok n w {bs} {w'} h = elim (Bool-cases (leb n (length w.wire.input))) [
    | inl e ↦ ground (
      arith,
      length-take_le n w.wire.input,
      take-append-drop n w.wire.input,
      append-nil w.wire.output,
    )
    | inr e ↦ ground arith
  ]

  pub write_ok :
      (bytes : Text) (w : World S) {u : Unit {0}} {w' : World S}
      → write bytes w ≡ (ok u, w')
      → Moved w w' [] bytes
  unfolding write
  write_ok bytes w h = elim w.wire.deliveries [
    | [] ↦ ground arith
    | whole ∷ ds ↦ ground arith
    | cut n ∷ ds ↦ ground arith
  ]

-- To take a successful run apart, one step at a time.
module _ {S B : Type 0} {P : Type 0} {b : B} {w' : World S} where
  pub after :
      {A : Type 0} (r : Result A × World S) (f : A → M S B)
      → continue r f ≡ (ok b, w')
      → ((a : A) (v : World S) → r ≡ (ok a, v) → f a v ≡ (ok b, w') → P)
      → P
  after (ok a, v) f h k = k a v refl h
  after (err e, v) f h k = cc

  pub after_read :
      (n : ℕ) (w : World S) (f : Text → M S B)
      → continue (read_full n w) f ≡ (ok b, w')
      → ((bs : Text) (v : World S) → length bs ≡ n → Moved w v bs [] → f bs v ≡ (ok b, w') → P)
      → P
  after_read n w f h k =
      after (read_full n w) f h λ bs v e g. let (len, m) = read_full_ok n w e in k bs v len m g

  pub after_write :
      (bytes : Text) (w : World S) (f : Unit {0} → M S B)
      → continue (write bytes w) f ≡ (ok b, w')
      → ((v : World S) → Moved w v [] bytes → f tt v ≡ (ok b, w') → P)
      → P
  after_write bytes w f h k = after (write bytes w) f h λ u v e g. k v (write_ok bytes w e) g

  pub after_guard :
      (t : Bool) (m : M S (Unit {0})) (e : Error) (w : World S) (f : Unit {0} → M S B)
      → (m w).0 ≡ err e
      → continue (guard t m w) f ≡ (ok b, w')
      → (t ≡ true → f tt w ≡ (ok b, w') → P)
      → P
  after_guard true m e w f never h k = k refl h
  after_guard false m e w f never h k = refused (m w) never h
    where
      refused : (r : Result (Unit {0}) × World S) → r.0 ≡ err e → continue r f ≡ (ok b, w') → P
      refused (ok u, v) never h = cc
      refused (err d, v) never h = cc
