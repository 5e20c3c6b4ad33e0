-- ===== src/Listener/Drain.antt =====
-- What a shutdown brings about.
use libersuite_panel.Prelude.{
  Bool, true, if◌then◌else◌, ◌*◌, ℕ, zero, suc, ◌+◌, ◌≤◌, ◌≡◌, ◌≢◌, refl, ap, ◌∙◌, false, List, [],
  ◌∷◌, ◌++◌, arith,
}
use libersuite_panel.Listener.{
  Listener, Loop, accepting, holding, ended, not_called, waiting, clean, Event, accept_fails,
  counts, handler_ends, wait_over, connects, shuts_down, cancels, deadline, step, run, started,
}

pub run-append : (v : Listener) (as' bs : List Event) → run v (as' ++ bs) ≡ run (run v as') bs
unfolding run
run-append v [] bs = refl
run-append v (e ∷ es) bs = run-append (step v e) es bs

abbrev pub held : Loop → ℕ
held accepting = 0
held holding = 1
held ended = 0

record Inv (v : Listener) : Type 0 where
  closed : v.stop ≢ not_called → v.is_open ≡ false
  drained : v.stop ≡ clean → v.running + held v.loop ≤ 1

step-Inv : (v : Listener) (e : Event) → Inv v → Inv (step v e)
unfolding step
step-Inv v e h = ground arith

run-Inv : (v : Listener) (es : List Event) → Inv v → Inv (run v es)
unfolding run
run-Inv v [] h = h
run-Inv v (e ∷ es) h = run-Inv (step v e) es (step-Inv v e h)

-- In every history of a listener, after a Shutdown that returned without an error no connection is accepted any
-- more, and no handler runs but for one connection at most, which Accept had returned before.
pub clean_idle :
    (es : List Event)
    → (run started es).stop ≡ clean
    → ((run started es).is_open ≡ false)
      × ((run started es).running + held (run started es).loop ≤ 1)
clean_idle es h =
    let inv = run-Inv started es (record { closed = λ n. absurd (n refl); drained = λ e. cc }) in
    (inv.closed (λ e. cc), inv.drained h)

abbrev pub handlers_end : ℕ → List Event
handlers_end zero = []
handlers_end (suc n) = handler_ends ∷ handlers_end n

-- What remains to happen once a listener is closed and Shutdown waits.
abbrev pub rest_of : Listener → List Event
rest_of v = counts ∷ accept_fails ∷ (handlers_end (v.running + held v.loop) ++ (wait_over ∷ []))

end_all :
    (v : Listener) (n : ℕ)
    → v.running ≡ n
    → v.stop ≡ waiting
    → run v (handlers_end n ++ (wait_over ∷ [])) ≡ record v { running = 0; stop = clean }
unfolding run step
end_all v zero e w = rw (e, w) refl
end_all v (suc n) e w = end_all (step v handler_ends) n (rw e refl) w

loop_ends :
    (v : Listener)
    → v.is_open ≡ false
    → step (step v counts) accept_fails
      ≡ record v { loop = ended; running = v.running + held v.loop }
unfolding step
loop_ends v closed = ground arith

-- The one connection that may be left: its handler starts after a Shutdown that returned without an error.
late_handler : (run started (connects ∷ shuts_down ∷ wait_over ∷ counts ∷ [])).running ≡ 1
unfolding run step
late_handler = refl

-- What is left to do: of a loop, and twice for each handler.
abbrev pub loop_work : Loop → ℕ
loop_work accepting = 1
loop_work holding = 4
loop_work ended = 0

abbrev pub work : Listener → ℕ
work v = 2 * v.running + loop_work v.loop

-- Whether the loop or a handler gets on by an event.
abbrev pub able : Loop → ℕ → Event → Bool
able holding n counts = true
able accepting n counts = false
able ended n counts = false
able accepting n accept_fails = true
able holding n accept_fails = false
able ended n accept_fails = false
able l zero handler_ends = false
able l (suc n) handler_ends = true
able l n connects = false
able l n cancels = false
able l n shuts_down = false
able l n wait_over = false
able l n deadline = false

unfoldable pub effective : Listener → List Event → ℕ
effective v [] = 0
effective v (e ∷ es) = (if able v.loop v.running e then 1 else 0) + effective (step v e) es

step_works :
    (v : Listener) (e : Event)
    → v.is_open ≡ false
    → ((step v e).is_open ≡ false)
      × (work (step v e) + (if able v.loop v.running e then 1 else 0) ≤ work v)
unfolding step
step_works v e closed = ground arith

run_works :
    (v : Listener) (es : List Event) → v.is_open ≡ false → work (run v es) + effective v es ≤ work v
unfolding run effective
run_works v [] closed = omega arith
run_works v (e ∷ es) closed =
    let (closed', le) = step_works v e closed in omega (arith, run_works (step v e) es closed', le)

-- A shutdown that waits comes to its end. When the connection that the loop holds has been counted, Accept has
-- failed and each handler has ended, the loop is over and Shutdown returns without an error. And in
-- whatever order the events come, the loop and the handlers get on only so many times: no event adds to
-- the work that is left, and each by which they get on takes some of it away.
pub shutdown_ends :
    (v : Listener) (es : List Event)
    → v.is_open ≡ false
    → v.stop ≡ waiting
    → (run v (rest_of v) ≡ record v { loop = ended; running = 0; stop = clean })
      × (work (run v es) + effective v es ≤ work v)
unfolding run
shutdown_ends v es closed w = (
  ap (λ u. run u (handlers_end (v.running + held v.loop) ++ (wait_over ∷ []))) (loop_ends v closed)
      ∙ end_all (record v { loop = ended; running = v.running + held v.loop })
          (v.running + held v.loop) refl w,
  run_works v es closed,
)
