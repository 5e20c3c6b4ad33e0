-- ===== src/Ssh/Sockets/Late.antt =====
-- A target that is not in `conns` yet when the session ends.
use libersuite_panel.Prelude.{
  ℕ, ◌≡◌, ◌≢◌, ◌≤◌, refl, ap, ◌∙◌, Bool, true, false, Bool-cases, inl, inr, some, List, [], ◌∷◌,
  ◌++◌, get_elem?, ◌==◌, All, arith,
}
use libersuite_panel.Ssh.Sockets.{
  returned, Handler, rank, Act, accepts, gives_up, dials, stores_target, stores_channel,
  channel_ends, target_ends, notices, returns, act, sweep, Event, opens, sweeps, at, run,
  new_session,
}
use libersuite_panel.Ssh.Sockets.Seen.{seen_all, run-seen, run-append}
use libersuite_panel.Ssh.Sockets.Kept.{IsKept, conns-IsKept}

-- What takes a handler that has accepted its channel to its return: an error of the dial, or the target itself.
abbrev pub breaks_off : Act → Bool
breaks_off gives_up = true
breaks_off target_ends = true
breaks_off accepts = false
breaks_off dials = false
breaks_off stores_target = false
breaks_off stores_channel = false
breaks_off channel_ends = false
breaks_off notices = false
breaks_off returns = false

-- Events in which the dial of handler i does not fail, and its target neither sends nor closes.
abbrev pub IsSilent : ℕ → Event → Type 0
IsSilent i opens = Unit {0}
IsSilent i sweeps = Unit {0}
IsSilent i (at j a) = j ≡ i → breaks_off a ≡ false

record IsLate (h : Handler) : Type 0 where
  begun : 1 ≤ rank h.stage
  runs : rank h.stage ≤ 4
  held : 2 ≤ rank h.stage → h.target_open ≡ true
  copies : rank h.stage ≡ 4 → h.download ≡ true

sweep-IsLate : (h : Handler) → IsKept h → 1 ≤ rank h.stage → rank h.stage ≤ 2 → IsLate (sweep h)
unfolding sweep
sweep-IsLate h k a r = ground arith

act-IsLate : (a : Act) (h : Handler) → breaks_off a ≡ false → IsLate h → IsLate (act a h)
unfolding act
act-IsLate accepts h b l = ground arith
act-IsLate a h b l = ground arith

seen_all-IsLate :
    (i : ℕ) (es : List Event) (h : Handler)
    → All (IsSilent i) es
    → IsLate h
    → IsLate (seen_all i true es h)
seen_all-IsLate i [] h q l = l
seen_all-IsLate i (opens ∷ es) h (_, q) l = seen_all-IsLate i es h q l
seen_all-IsLate i (sweeps ∷ es) h (_, q) l = seen_all-IsLate i es h q l
seen_all-IsLate i (at j a ∷ es) h (b, q) l = elim (Bool-cases (j == i)) [
  | inl e ↦
      let itself : j ≡ i = ground arith in
      rw e (seen_all-IsLate i es (act a h) q (act-IsLate a h (b itself) l))
  | inr e ↦ rw e (seen_all-IsLate i es h q l)
]

-- A handler that has accepted its channel, and whose target is not in `conns` when the session ends, is not ended with
-- it: as long as its dial does not fail and its target neither sends nor closes, it does not return,
-- whatever else happens, and the connection to the target stays open from the dial on.
pub late_target_stays :
    (es later : List Event) (i : ℕ) (h : Handler)
    → (run new_session es).is_over ≡ false
    → get_elem? (run new_session es).handlers i ≡ some h
    → 1 ≤ rank h.stage
    → rank h.stage ≤ 2
    → All (IsSilent i) later
    → (h' : Handler) × (get_elem? (run new_session (es ++ (sweeps ∷ later))).handlers i ≡ some h')
      × (h'.stage ≢ returned)
      × (2 ≤ rank h'.stage → h'.target_open ≡ true)
late_target_stays es later i h o g a r q =
    let v = run new_session es in
    let late = seen_all-IsLate i later (sweep h) q (sweep-IsLate h (conns-IsKept es i h g) a r) in
    (
      seen_all i true later (sweep h),
      ap (λ w. get_elem? w.handlers i) (run-append new_session es (sweeps ∷ later))
          ∙ run-seen v (sweeps ∷ later) i h g
          ∙ rw o refl,
      λ e. absurd (ground (arith, ap rank e, late.runs)),
      late.held,
    )
