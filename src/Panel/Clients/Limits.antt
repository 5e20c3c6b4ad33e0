-- ===== src/Panel/Clients/Limits.antt =====
-- The limit in bytes, and the status of a client.
use libersuite_panel.Prelude.{ℕ, ◌*◌, ◌^◌, ◌%◌, ◌<◌, ◌≡◌, ◌↔◌, true, arith}
use libersuite_panel.Prelude.Int.{pos, ◌*ℤ◌}
use libersuite_panel.Prelude.Words.{wrap64, mul64}
use libersuite_panel.Client.{Client, Time, is_active}
use libersuite_panel.Panel.Clients.{gb_to_bytes, status, active}

mul64_pos : (m n : ℕ) → m * n < 2 ^ 63 → mul64 (pos m) (pos n) ≡ pos (m * n)
unfolding mul64 wrap64 ◌*ℤ◌
mul64_pos m n h = ground arith

-- A limit of less than 2^33 gigabytes is turned into bytes exactly.
pub gb_to_bytes_exact : (gb : ℕ) → gb < 2 ^ 33 → gb_to_bytes (pos gb) ≡ pos (gb * 2 ^ 30)
unfolding gb_to_bytes
gb_to_bytes_exact gb h =
    rw
      (
        mul64_pos gb 1024 (omega arith),
        mul64_pos (gb * 1024) 1024 (omega arith),
        mul64_pos (gb * 1024 * 1024) 1024 (omega arith),
      )
      (ground arith)

-- The list shows a client as active exactly when the servers would let it connect.
pub status_active : (c : Client) (now : Time) → (status c now ≡ active) ↔ (is_active c now ≡ true)
unfolding status is_active
status_active c now = ground arith

-- A multiple of 2^34 gigabytes wraps around to 0, which stands for no limit at all.
pub gb_to_bytes_wraps : (gb : ℕ) → gb < 2 ^ 63 → gb % 2 ^ 34 ≡ 0 → gb_to_bytes (pos gb) ≡ pos 0
unfolding gb_to_bytes mul64 wrap64 ◌*ℤ◌
gb_to_bytes_wraps gb h k = ground arith
