-- ===== src/Ssh/Sockets/Seen.antt =====
-- The events of a session as one of its handlers sees them.
use libersuite_panel.Prelude.{
  ℕ, zero, suc, ◌≡◌, refl, ap, ◌∙◌, Bool, true, Bool-cases, inl, inr, some, List, [], ◌∷◌, ◌++◌,
  map, get_elem?, ◌==◌, if◌then◌else◌, arith,
}
use libersuite_panel.Ssh.Sockets.{
  Handler, new_handler, act, sweep, modify_at, Session, Event, opens, sweeps, at, step, run,
}

-- An event as handler i sees it.
abbrev pub seen : ℕ → Bool → Event → Handler → Handler
seen i over opens h = h
seen i over sweeps h = if over then h else sweep h
seen i over (at j a) h = if j == i then act a h else h

abbrev pub over_after : Bool → Event → Bool
over_after over opens = over
over_after over sweeps = true
over_after over (at j a) = over

abbrev pub seen_all : ℕ → Bool → List Event → Handler → Handler
seen_all i over [] h = h
seen_all i over (e ∷ es) h = seen_all i (over_after over e) es (seen i over e h)

elem-append :
    (l m : List Handler) (i : ℕ) (h : Handler)
    → get_elem? l i ≡ some h
    → get_elem? (l ++ m) i ≡ some h
elem-append [] m i h e = absurd (cc)
elem-append (x ∷ l) m zero h e = e
elem-append (x ∷ l) m (suc i) h e = elem-append l m i h e

elem-map :
    (f : Handler → Handler) (l : List Handler) (i : ℕ) (h : Handler)
    → get_elem? l i ≡ some h
    → get_elem? (map f l) i ≡ some (f h)
elem-map f [] i h e = absurd (cc)
elem-map f (x ∷ l) zero h e = cc
elem-map f (x ∷ l) (suc i) h e = elem-map f l i h e

elem-modify_at :
    (j : ℕ) (f : Handler → Handler) (l : List Handler) (i : ℕ) (h : Handler)
    → get_elem? l i ≡ some h
    → get_elem? (modify_at j f l) i ≡ some (if j == i then f h else h)
unfolding modify_at
elem-modify_at j f [] i h e = absurd (cc)
elem-modify_at zero f (x ∷ l) zero h e = cc
elem-modify_at zero f (x ∷ l) (suc i) h e = ground arith
elem-modify_at (suc j) f (x ∷ l) zero h e = ground arith
elem-modify_at (suc j) f (x ∷ l) (suc i) h e = let rest = elem-modify_at j f l i h e in ground arith

step_over : (v : Session) (e : Event) → (step v e).is_over ≡ over_after v.is_over e
unfolding step
step_over v opens = ground arith
step_over v sweeps = ground arith
step_over v (at i a) = refl

step-seen :
    (v : Session) (e : Event) (i : ℕ) (h : Handler)
    → get_elem? v.handlers i ≡ some h
    → get_elem? (step v e).handlers i ≡ some (seen i v.is_over e h)
unfolding step
step-seen v opens i h g = elim (Bool-cases v.is_over) [
  | inl e ↦ rw e g
  | inr e ↦ rw e (elem-append v.handlers (new_handler ∷ []) i h g)
]
step-seen v sweeps i h g = elim (Bool-cases v.is_over) [
  | inl e ↦ rw e g
  | inr e ↦ rw e (elem-map sweep v.handlers i h g)
]
step-seen v (at j a) i h g = elem-modify_at j (act a) v.handlers i h g

pub run-seen :
    (v : Session) (es : List Event) (i : ℕ) (h : Handler)
    → get_elem? v.handlers i ≡ some h
    → get_elem? (run v es).handlers i ≡ some (seen_all i v.is_over es h)
unfolding run
run-seen v [] i h g = g
run-seen v (e ∷ es) i h g =
    run-seen (step v e) es i (seen i v.is_over e h) (step-seen v e i h g)
    ∙ ap (λ b. some (seen_all i b es (seen i v.is_over e h))) (step_over v e)

pub run-append : (v : Session) (es fs : List Event) → run v (es ++ fs) ≡ run (run v es) fs
unfolding run
run-append v [] fs = refl
run-append v (e ∷ es) fs = run-append (step v e) es fs
