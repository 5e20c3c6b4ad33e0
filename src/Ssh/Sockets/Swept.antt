-- ===== src/Ssh/Sockets/Swept.antt =====
-- What the end of a session does to the sockets of its handlers: those that are in `conns`, and those that are not
-- there yet.
use libersuite_panel.Prelude.{
  ℕ, ◌≡◌, ◌≤◌, refl, ap, ◌∙◌, Bool, true, false, Bool-cases, inl, inr, some, List, [], ◌∷◌, ◌++◌,
  get_elem?, ◌==◌, arith,
}
use libersuite_panel.Ssh.Sockets.{
  Stage, asked, accepted, dialled, target_stored, relaying, returned, Handler, rank, Act, accepts,
  stores_channel, notices, returns, act, sweep, Event, opens, sweeps, at, run, new_session,
}
use libersuite_panel.Ssh.Sockets.Seen.{seen, seen_all, run-seen, run-append}
use libersuite_panel.Ssh.Sockets.Kept.{IsKept, act-IsKept, conns-IsKept}

-- A handler whose target was closed at the end of the session.
record Doomed (h : Handler) : Type 0 where
  far : 3 ≤ rank h.stage
  gone : h.connected ≡ false
  closed : h.target_open ≡ false

act-Doomed : (a : Act) (h : Handler) → Doomed h → Doomed (act a h)
unfolding act
act-Doomed accepts h d = ground arith
act-Doomed a h d = ground arith

sweep-Doomed : (h : Handler) → 3 ≤ rank h.stage → h.target_listed ≡ true → Doomed (sweep h)
unfolding sweep
sweep-Doomed h r l = ground arith

seen-Doomed :
    (i : ℕ) (over : Bool) (e : Event) (h : Handler)
    → over ≡ true
    → Doomed h
    → Doomed (seen i over e h)
seen-Doomed i over opens h o d = d
seen-Doomed i over sweeps h o d = rw o d
seen-Doomed i over (at j a) h o d = elim (Bool-cases (j == i)) [
  | inl e ↦ rw e (act-Doomed a h d)
  | inr e ↦ rw e d
]

seen_all-Doomed : (i : ℕ) (es : List Event) (h : Handler) → Doomed h → Doomed (seen_all i true es h)
seen_all-Doomed i [] h d = d
seen_all-Doomed i (opens ∷ es) h d = seen_all-Doomed i es h d
seen_all-Doomed i (sweeps ∷ es) h d = seen_all-Doomed i es h d
seen_all-Doomed i (at j a ∷ es) h d =
    seen_all-Doomed i es (seen i true (at j a) h) (seen-Doomed i true (at j a) h refl d)

-- A handler that has returned and holds nothing.
abbrev pub gone_handler : Handler
gone_handler = record {
  stage = returned;
  connected = false;
  channel_open = false;
  target_open = false;
  channel_listed = false;
  target_listed = false;
  upload = false;
  download = false;
}

last_stage : (st : Stage) → rank st ≡ 5 → st ≡ returned
last_stage asked e = absurd (omega arith)
last_stage accepted e = absurd (omega arith)
last_stage dialled e = absurd (omega arith)
last_stage target_stored e = absurd (omega arith)
last_stage relaying e = absurd (omega arith)
last_stage returned e = refl

returned_handler : (h : Handler) → Doomed h → IsKept h → rank h.stage ≡ 5 → h ≡ gone_handler
returned_handler h d k e = let last = last_stage h.stage e in ground arith

rank-returns :
    (h : Handler)
    → Doomed h
    → IsKept h
    → rank (act returns (act notices (act stores_channel h))).stage ≡ 5
unfolding act
rank-returns h d k = ground arith

finishes :
    (h : Handler)
    → Doomed h
    → IsKept h
    → act returns (act notices (act stores_channel h)) ≡ gone_handler
finishes h d k =
    returned_handler _ (act-Doomed returns _ (act-Doomed notices _ (act-Doomed stores_channel h d)))
      (act-IsKept returns _ (act-IsKept notices _ (act-IsKept stores_channel h k)))
      (rank-returns h d k)

-- What handler i still does by itself, whatever the target and the client do: the Store of its channel, if that is
-- not done, the end of its copiers on a closed socket, and its return.
abbrev pub rest : ℕ → List Event
rest i = at i stores_channel ∷ at i notices ∷ at i returns ∷ []

stored_rank : (h : Handler) → IsKept h → h.target_listed ≡ true → 3 ≤ rank h.stage
stored_rank h k l = ground arith

seen_all-rest :
    (i : ℕ) (over : Bool) (h : Handler)
    → Doomed h
    → IsKept h
    → seen_all i over (rest i) h ≡ gone_handler
seen_all-rest i over h d k =
    let itself : (i == i) ≡ true = ground arith in rw itself (finishes h d k)

-- Every target that is in `conns` when the session ends is closed then: whatever happens afterwards, the handler comes to
-- its return without a further word of the target or the client, and holds nothing then.
pub swept_returns :
    (es later : List Event) (i : ℕ) (h : Handler)
    → (run new_session es).is_over ≡ false
    → get_elem? (run new_session es).handlers i ≡ some h
    → h.target_listed ≡ true
    → get_elem? (run (run new_session (es ++ (sweeps ∷ later))) (rest i)).handlers i
      ≡ some gone_handler
swept_returns es later i h o g l =
    let v = run new_session es in
    let stored = conns-IsKept es i h g in
    let doomed = seen_all-Doomed i later (sweep h) (sweep-Doomed h (stored_rank h stored l) l) in
    let there =
      ap (λ w. get_elem? w.handlers i) (run-append new_session es (sweeps ∷ later))
      ∙ run-seen v (sweeps ∷ later) i h g
      ∙ rw o refl in
    let w = run new_session (es ++ (sweeps ∷ later)) in
    run-seen w (rest i) i _ there
    ∙ ap some (seen_all-rest i w.is_over _ doomed (conns-IsKept (es ++ (sweeps ∷ later)) i _ there))
