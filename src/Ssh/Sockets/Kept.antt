-- ===== src/Ssh/Sockets/Kept.antt =====
-- What `conns` holds and which sockets are open, at any time.
use mathlib.Core.Option.{some-injective}
use libersuite_panel.Prelude.{
  ℕ, zero, suc, ◌≡◌, ◌≤◌, refl, true, Bool-cases, inl, inr, some, List, [], ◌∷◌, ◌++◌, map,
  get_elem?, All, subst, ◌==◌, leb, ◌&&◌, ◌||◌, arith,
}
use libersuite_panel.Ssh.Sockets.{
  Handler, new_handler, rank, Act, accepts, act, sweep, modify_at, Session, Event, opens, sweeps,
  at, step, run, new_session,
}

-- Of each handler at each time: `conns` has the target from its Store up to the return, and the channel from the
-- Store after it; a socket is open only between the call that opens it and the return.
pub record IsKept (h : Handler) : Type 0 where
  pub target : h.target_listed ≡ (leb 3 (rank h.stage) && leb (rank h.stage) 4)
  pub channel : h.channel_listed ≡ (rank h.stage == 4)
  pub target_late : h.target_open ≡ true → (2 ≤ rank h.stage) × (rank h.stage ≤ 4)
  pub target_new : rank h.stage ≡ 2 → h.target_open ≡ true
  pub channel_late : h.channel_open ≡ true → (1 ≤ rank h.stage) × (rank h.stage ≤ 4)
  pub copiers : (h.upload || h.download) ≡ true → rank h.stage ≡ 4

new_handler-IsKept : IsKept new_handler
new_handler-IsKept = record {
  target = refl;
  channel = refl;
  target_late = λ h. absurd (cc);
  target_new = λ h. absurd (omega arith);
  channel_late = λ h. absurd (cc);
  copiers = λ h. absurd (cc);
}

pub act-IsKept : (a : Act) (h : Handler) → IsKept h → IsKept (act a h)
unfolding act
act-IsKept accepts h k = ground arith
act-IsKept a h k = ground arith

sweep-IsKept : (h : Handler) → IsKept h → IsKept (sweep h)
unfolding sweep
sweep-IsKept h k = ground arith

All-modify_at :
    (i : ℕ) (a : Act) (l : List Handler) → All IsKept l → All IsKept (modify_at i (act a) l)
unfolding modify_at
All-modify_at i a [] ks = tt
All-modify_at zero a (h ∷ l) (k, ks) = (act-IsKept a h k, ks)
All-modify_at (suc i) a (h ∷ l) (k, ks) = (k, All-modify_at i a l ks)

All-sweep : (l : List Handler) → All IsKept l → All IsKept (map sweep l)
All-sweep [] ks = tt
All-sweep (h ∷ l) (k, ks) = (sweep-IsKept h k, All-sweep l ks)

All-new : (l : List Handler) → All IsKept l → All IsKept (l ++ (new_handler ∷ []))
All-new [] ks = (new_handler-IsKept, tt)
All-new (h ∷ l) (k, ks) = (k, All-new l ks)

step-IsKept : (v : Session) (e : Event) → All IsKept v.handlers → All IsKept (step v e).handlers
unfolding step
step-IsKept v opens ks = elim (Bool-cases v.is_over) [
  | inl e ↦ rw e ks
  | inr e ↦ rw e (All-new v.handlers ks)
]
step-IsKept v sweeps ks = elim (Bool-cases v.is_over) [
  | inl e ↦ rw e ks
  | inr e ↦ rw e (All-sweep v.handlers ks)
]
step-IsKept v (at i a) ks = All-modify_at i a v.handlers ks

run-IsKept :
    (v : Session) (es : List Event) → All IsKept v.handlers → All IsKept (run v es).handlers
unfolding run
run-IsKept v [] ks = ks
run-IsKept v (e ∷ es) ks = run-IsKept (step v e) es (step-IsKept v e ks)

All-elem :
    (l : List Handler) (i : ℕ) (h : Handler) → get_elem? l i ≡ some h → All IsKept l → IsKept h
All-elem [] i h e ks = absurd (cc)
All-elem (x ∷ l) zero h e (k, ks) = subst IsKept (some-injective x h e) k
All-elem (x ∷ l) (suc i) h e (k, ks) = All-elem l i h e ks

-- In every history of a session and for each of its handlers: `conns` has the target just from its Store up to the
-- return, and the channel from the Store after it; each socket is open only between the call that opens
-- it and the return, and the target is open until its Store; no copier runs but between the second Store and the return.
pub conns-IsKept :
    (es : List Event) (i : ℕ) (h : Handler)
    → get_elem? (run new_session es).handlers i ≡ some h
    → IsKept h
conns-IsKept es i h e = All-elem _ i h e (run-IsKept new_session es tt)
