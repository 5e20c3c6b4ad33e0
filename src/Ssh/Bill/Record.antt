-- ===== src/Ssh/Bill/Record.antt =====
-- A history as one session sees it, and what a flush makes of the record of its login.
use libersuite_panel.Prelude.{
  ℕ, ◌+◌, ◌≡◌, sym, ap, ◌∙◌, true, false, Bool-cases, inl, inr, ◌⊎◌, List, [], ◌∷◌, if◌then◌else◌,
  text_eq,
}
use libersuite_panel.Prelude.Int.{ℤ, pos, is_zero, ◌+ℤ◌, int_laws}
use libersuite_panel.Prelude.Words.{
  wrap64, add64, add64_assoc, add64_zero, wrap64-+ℤ, IsInt64, add64-IsInt64,
}
use libersuite_panel.Text.{Text}
use libersuite_panel.Client.{Client}
use libersuite_panel.Ssh.{Tracker, used_bytes}
use libersuite_panel.Ssh.Sessions.{Event, channel_opened, transferred, flushed, connection_closed}
use libersuite_panel.Ssh.Ledger.{amount, balance, zero_of}
use libersuite_panel.Ssh.Bill.{
  Foreign, Others, Holding, lookup-Holding, lookup_away, Holding-update, Holding-erase, own_flush,
  flush_list-Holding, flush_away,
}
use libersuite_panel.Ssh.Bill

-- Other sessions are of other clients, and the connection of this one does not end.
abbrev pub GoesOn : Text → Client → Event → Type 0
GoesOn id c (channel_opened j d) = (text_eq j id ≡ true) ⊎ ((text_eq j id ≡ false) × Foreign id c d)
GoesOn id c (transferred j x) = Unit {0}
GoesOn id c flushed = Unit {0}
GoesOn id c (connection_closed j) = text_eq j id ≡ false

-- The bytes that an event, or a history, moves in the session with this id.
abbrev pub moved : Text → Event → ℕ
moved id (channel_opened j d) = 0
moved id (transferred j x) = if text_eq id j then amount x else 0
moved id flushed = 0
moved id (connection_closed j) = 0

unfoldable pub all_moved : Text → List Event → ℕ
all_moved id [] = 0
all_moved id (e ∷ es) = moved id e + all_moved id es

pub add64_more : (u : ℤ) (m n : ℕ) → add64 (add64 u (pos m)) (pos n) ≡ add64 u (pos (m + n))
unfolding add64
add64_more u m n = wrap64-+ℤ (u +ℤ pos m) (pos n) ∙ ap wrap64 (omega int_laws)

-- Up to its traffic the record is that of the login.
abbrev pub Own : Client → Client → Type 0
Own c d = (d ≡ record c { traffic_used = d.traffic_used }) × IsInt64 d.traffic_used

abbrev pub with_traffic : ℤ → Client → Client
with_traffic n d = record d { traffic_used = n }

pub flushed-Own : (c : Client) (t : Tracker) → Own c t.client → Own c (Bill.flushed t).client
flushed-Own c t (e, i) = elim (Bool-cases (is_zero (used_bytes t))) [
  | inl z ↦ rw z (e, i)
  | inr z ↦
      let sum = add64 t.client.traffic_used (used_bytes t) in
      rw z (ap (with_traffic sum) e, add64-IsInt64 t.client.traffic_used (used_bytes t))
]

-- What a flush saves is the record of the login with the session's balance.
pub flushed_record :
    (c : Client) (t : Tracker)
    → Own c t.client
    → (Bill.flushed t).client ≡ with_traffic (balance t) c
unfolding balance
flushed_record c t (e, i) =
    let u = t.client.traffic_used in
    let sum = add64_assoc u t.bytes_read t.bytes_written in
    elim (Bool-cases (is_zero (used_bytes t))) [
      | inl z ↦
          let unchanged : u ≡ add64 u (used_bytes t) =
            sym (ap (add64 u) (zero_of (used_bytes t) z) ∙ add64_zero u i) in
          rw z (e ∙ ap (λ n. with_traffic n c) (unchanged ∙ sym sum))
      | inr z ↦
          rw z (ap (with_traffic (add64 u (used_bytes t))) e ∙ ap (λ n. with_traffic n c) (sym sum))
    ]
