-- ===== src/Ssh/Channels/Unbounded.antt =====
-- New channels of a session, which no limit stops.
use libersuite_panel.Prelude.{ℕ, zero, suc, ◌+◌, ◌<◌, ◌^◌, ◌≡◌, ap, ◌∙◌, List, [], ◌∷◌, arith}
use libersuite_panel.Prelude.Int.{pos}
use libersuite_panel.Prelude.Words.{add64, add64_pos}
use libersuite_panel.Ssh.{nil}
use libersuite_panel.Ssh.Ledger.{balance, balance-transfer}
use libersuite_panel.Ssh.Sessions.{reads, transfer}
use libersuite_panel.Ssh.Channels.{
  pump, advance, ChannelEvent, channel_opened, moved, Channels, channel_step, channel_run,
}

-- m new channels that each read one byte.
abbrev pub one_byte_each : ℕ → List ChannelEvent
one_byte_each zero = []
one_byte_each (suc m) = channel_opened ∷ moved 0 1 nil ∷ one_byte_each m

one_byte :
    (v : Channels)
    → balance (channel_step (channel_step v channel_opened) (moved 0 1 nil)).tracker
      ≡ add64 (balance v.tracker) (pos 1)
unfolding channel_step advance pump transfer
one_byte v = balance-transfer (reads 1 nil) v.tracker

-- The limit does not hold over new channels: whatever the limit and however far it is passed already, m new
-- channels of an open session move m bytes more.
pub channels_unbounded :
    (v : Channels) (base m : ℕ)
    → balance v.tracker ≡ pos base
    → base + m < 2 ^ 63
    → balance (channel_run v (one_byte_each m)).tracker ≡ pos (base + m)
unfolding channel_run
channels_unbounded v base zero b fits = b ∙ ap pos (omega arith)
channels_unbounded v base (suc m) b fits =
    let v' = channel_step (channel_step v channel_opened) (moved 0 1 nil) in
    channels_unbounded v' (base + 1) m
      (one_byte v ∙ ap (λ k. add64 k (pos 1)) b ∙ add64_pos base 1 (omega arith)) (omega arith)
    ∙ ap pos (omega arith)
