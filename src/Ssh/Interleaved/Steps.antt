-- ===== src/Ssh/Interleaved/Steps.antt =====
-- What one step of a flush, or of a copier, does to the sum of the traffic, the counters and what the flush holds.
use libersuite_panel.Prelude.{zero, suc, ◌≡◌, refl, sym, ap, ◌∙◌, Bool-cases, inl, inr}
use libersuite_panel.Prelude.Int.{ℤ, pos, is_zero, ◌+ℤ◌, int_laws}
use libersuite_panel.Prelude.Words.{add64, wrap64, wrap64-+ℤ}
use libersuite_panel.Ssh.{Tracker, traffic_read, traffic_write}
use libersuite_panel.Ssh.Sessions.{client_kept, Transfer, reads, writes, transfer}
use libersuite_panel.Ssh.Ledger.{amount, zero_of, read_counts, write_counts}
use libersuite_panel.Ssh.Interleaved.{
  Shared, Stage, beginning, read_taken, taken, loaded, stored, finished, tested, flush_step,
}

-- What a flush has taken from the counters and not yet added.
abbrev pub pending : Stage → ℤ
pending beginning = pos 0
pending (read_taken r) = r
pending (taken used) = used
pending (loaded used old) = used
pending stored = pos 0
pending finished = pos 0

-- The traffic, the counters and what a flush holds, exactly.
abbrev pub total : Tracker → ℤ → ℤ
total t p = ((t.client.traffic_used +ℤ t.bytes_read) +ℤ t.bytes_written) +ℤ p

-- TrafficUsed has not changed since it was loaded.
abbrev pub IsFresh : Stage → Tracker → Type 0
IsFresh beginning t = Unit {0}
IsFresh (read_taken r) t = Unit {0}
IsFresh (taken used) t = Unit {0}
IsFresh (loaded used old) t = old ≡ t.client.traffic_used
IsFresh stored t = Unit {0}
IsFresh finished t = Unit {0}

-- A sum inside of a sum may be wrapped around or not.
unwrapped : (x y rest : ℤ) → wrap64 (add64 x y +ℤ rest) ≡ wrap64 ((x +ℤ y) +ℤ rest)
unfolding add64
unwrapped x y rest = wrap64-+ℤ (x +ℤ y) rest

-- A flush at this stage and the tracker stand for this sum, however it was wrapped around.
abbrev pub Sound : ℤ → Stage → Tracker → Type 0
Sound sum s t = (wrap64 (total t (pending s)) ≡ wrap64 sum) × IsFresh s t

IsFresh-after_test : (used : ℤ) (t : Tracker) → IsFresh (tested used) t
IsFresh-after_test used t = elim (Bool-cases (is_zero used)) [ inl e ↦ rw e tt | inr e ↦ rw e tt ]

pending_after_test : (used : ℤ) → pending (tested used) ≡ used
pending_after_test used = elim (Bool-cases (is_zero used)) [
  | inl e ↦ rw e (sym (zero_of used e))
  | inr e ↦ rw e refl
]

pub flush_step-Sound :
    (sum : ℤ) (v : Shared) (s : Stage)
    → Sound sum s v.tracker
    → Sound sum (flush_step v s).1 (flush_step v s).0.tracker
unfolding flush_step
flush_step-Sound sum v beginning (e, f) = (ap wrap64 (omega int_laws) ∙ e, tt)
flush_step-Sound sum v (read_taken r) (e, f) =
    let t = v.tracker in
    let used = add64 r t.bytes_written in
    (
      ap (λ p. wrap64 (total (record t { bytes_written = pos 0 }) p)) (pending_after_test used)
          ∙ ap wrap64 (omega int_laws)
          ∙ unwrapped r t.bytes_written (t.client.traffic_used +ℤ t.bytes_read)
          ∙ ap wrap64 (omega int_laws)
          ∙ e,
      IsFresh-after_test used _,
    )
flush_step-Sound sum v (taken used) (e, f) = (e, refl)
flush_step-Sound sum v (loaded used old) (e, f) =
    let t = v.tracker in
    (
      ap wrap64 (omega int_laws)
          ∙ unwrapped old used (t.bytes_read +ℤ t.bytes_written)
          ∙ ap (λ o. wrap64 ((o +ℤ used) +ℤ (t.bytes_read +ℤ t.bytes_written))) f
          ∙ ap wrap64 (omega int_laws)
          ∙ e,
      tt,
    )
flush_step-Sound sum v stored (e, f) = (e, tt)
flush_step-Sound sum v finished (e, f) = (e, tt)

-- A copier adds just its bytes, and leaves TrafficUsed alone.
total-transfer :
    (x : Transfer) (t : Tracker) (p : ℤ)
    → wrap64 (total (transfer x t) p) ≡ wrap64 (total t p +ℤ pos (amount x))
unfolding transfer traffic_read traffic_write
total-transfer (reads zero err) t p = ap wrap64 (omega int_laws)
total-transfer (reads (suc n) err) t p =
    ap (λ u. wrap64 (total u p)) (read_counts t n err)
    ∙ ap wrap64 (omega int_laws)
    ∙ unwrapped t.bytes_read (pos (suc n)) ((t.client.traffic_used +ℤ t.bytes_written) +ℤ p)
    ∙ ap wrap64 (omega int_laws)
total-transfer (writes zero err) t p = ap wrap64 (omega int_laws)
total-transfer (writes (suc n) err) t p =
    ap (λ u. wrap64 (total u p)) (write_counts t n err)
    ∙ ap wrap64 (omega int_laws)
    ∙ unwrapped t.bytes_written (pos (suc n)) ((t.client.traffic_used +ℤ t.bytes_read) +ℤ p)
    ∙ ap wrap64 (omega int_laws)

still-IsFresh : (x : Transfer) (s : Stage) (t : Tracker) → IsFresh s t → IsFresh s (transfer x t)
still-IsFresh x beginning t f = tt
still-IsFresh x (read_taken r) t f = tt
still-IsFresh x (taken used) t f = tt
still-IsFresh x (loaded used old) t f = f ∙ ap (λ c. c.traffic_used) (sym (client_kept x t))
still-IsFresh x stored t f = tt
still-IsFresh x finished t f = tt

pub transfer-Sound :
    (sum : ℤ) (x : Transfer) (s : Stage) (t : Tracker)
    → Sound sum s t
    → Sound (sum +ℤ pos (amount x)) s (transfer x t)
transfer-Sound sum x s t (e, f) = (
  total-transfer x t (pending s)
      ∙ sym (wrap64-+ℤ (total t (pending s)) (pos (amount x)))
      ∙ ap (λ z. wrap64 (z +ℤ pos (amount x))) e
      ∙ wrap64-+ℤ sum (pos (amount x)),
  still-IsFresh x s t f,
)
