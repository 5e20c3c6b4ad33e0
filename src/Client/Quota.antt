-- ===== src/Client/Quota.antt =====
-- How the checks of a client relate to one another, to the clock and to the traffic used.
use libersuite_panel.Prelude.{◌≤◌, ◌≡◌, ◌≢◌, ◌↔◌, true, arith}
use libersuite_panel.Prelude.Int.{eq_of_parts, ℤ, pos, ◌+ℤ◌, ◌-ℤ◌, ◌≤ℤ◌, ◌<ℤ◌, -ℤ_parts, +ℤ_parts}
use libersuite_panel.Prelude.Words.{IsInt64, sub64_fits}
use libersuite_panel.Client.{Client, Time, is_active, has_traffic_remaining, remaining_traffic}

-- A client that may connect could also connect at any earlier moment with no more traffic used: time and use only ever take the access away.
pub is_active_mono :
    (c : Client) (used : ℤ) (now later : Time)
    → now ≤ later
    → used ≤ℤ c.traffic_used
    → is_active c later ≡ true
    → is_active (record c { traffic_used = used }) now ≡ true
unfolding is_active
is_active_mono c used now later h k a = ground arith

+ℤ_cancel : (a b : ℤ) → a +ℤ (b -ℤ a) ≡ b
+ℤ_cancel a b = eq_of_parts (a +ℤ (b -ℤ a)) b (omega (arith, +ℤ_parts a (b -ℤ a), -ℤ_parts b a))

-- Where the difference fits into an int64, a client with a limit has traffic left exactly when its remaining traffic is positive; the remaining traffic is never negative, and while there is some the used and the remaining traffic add up to the limit.
pub remaining_traffic_exact :
    (c : Client)
    → c.traffic_limit ≢ pos 0
    → IsInt64 (c.traffic_limit -ℤ c.traffic_used)
    → ((has_traffic_remaining c ≡ true) ↔ (pos 0 <ℤ remaining_traffic c))
      × (pos 0 ≤ℤ remaining_traffic c)
      × (has_traffic_remaining c ≡ true → c.traffic_used +ℤ remaining_traffic c ≡ c.traffic_limit)
unfolding has_traffic_remaining remaining_traffic
remaining_traffic_exact c h fits = rw (sub64_fits c.traffic_limit c.traffic_used fits) (
    ground
      (arith, -ℤ_parts c.traffic_limit c.traffic_used, +ℤ_cancel c.traffic_used c.traffic_limit))
