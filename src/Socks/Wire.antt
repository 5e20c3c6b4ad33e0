-- ===== src/Socks/Wire.antt =====
-- One connection of the SOCKS5 server: what the peer sends, what the server writes, the errors that
-- the handlers return, and the monad in which they run. A connection that ends, is reset, or meets its
-- deadline is an input that stops there: each handler gives up at the first read that falls short.
pub mod Moves
use libersuite_panel.Prelude.{
  ℕ, zero, suc, ◌+◌, ◌≡◌, refl, Bool, true, false, List, [], ◌∷◌, ◌++◌, leb, if◌then◌else◌, length,
  take, drop,
}
use libersuite_panel.Text.{Text}

pub data Error : Type 0 where
  unexpected_eof write_failed no_user_pass bad_auth_version empty_username : Error
  invalid_credentials bad_request_version unsupported_command : Error
  bad_domain_length unsupported_address : Error
  unsupported_version : ℕ → Error
  connect_failed : Text → Error

pub data Result {ℓ} (A : Type ℓ) : Type ℓ where
  ok : A → Result A
  err : Error → Result A

-- How a Write ends: all of it is sent, or a part and an error.
pub data Delivery : Type 0 where
  whole : Delivery
  cut : ℕ → Delivery

-- The deliveries of the writes to come; past the end of the list each write is sent whole.
pub record Wire : Type 0 where
  pub input : Text
  pub output : Text
  pub deliveries : List Delivery
  pub has_deadline : Bool
  pub closed : Bool

pub record World (S : Type 0) : Type 0 where
  pub wire : Wire
  pub db : S

abbrev pub M : Type 0 → Type 0 → Type 0
M S A = World S → Result A × World S

abbrev pub sent : List Delivery → Text → Text
sent [] bytes = bytes
sent (whole ∷ ds) bytes = bytes
sent (cut n ∷ ds) bytes = take n bytes

abbrev pub written : List Delivery → Result (Unit {0})
written [] = ok tt
written (whole ∷ ds) = ok tt
written (cut n ∷ ds) = err write_failed

abbrev pub later : List Delivery → List Delivery
later [] = []
later (d ∷ ds) = ds

module _ {S : Type 0} where
  abbrev pub pure : {A : Type 0} → A → M S A
  pure a w = (ok a, w)

  abbrev pub fail : {A : Type 0} → Error → M S A
  fail e w = (err e, w)

  abbrev pub continue : {A B : Type 0} → Result A × World S → (A → M S B) → Result B × World S
  continue (ok a, w) f = f a w
  continue (err e, w) f = (err e, w)

  infixl 5 ◌>>=◌ ◌>>◌
  abbrev pub ◌>>=◌ : {A B : Type 0} → M S A → (A → M S B) → M S B
  ◌>>=◌ m f w = continue (m w) f

  abbrev pub ◌>>◌ : {B : Type 0} → M S (Unit {0}) → M S B → M S B
  m >> k = m >>= λ _. k

  abbrev pub with_input : Text → World S → World S
  with_input t w = record w { wire = record w.wire { input = t } }

  abbrev pub with_output : Text → World S → World S
  with_output t w = record w { wire = record w.wire { output = t } }

  -- io.ReadFull into a buffer of n bytes.
  unfoldable pub read_full : ℕ → M S Text
  read_full n w =
      if leb n (length w.wire.input)
      then (ok (take n w.wire.input), with_input (drop n w.wire.input) w)
      else (err unexpected_eof, with_input [] w)

  -- conn.Write
  unfoldable pub write : Text → M S (Unit {0})
  write bytes w = (
    written w.wire.deliveries,
    record w {
      wire = record w.wire {
        output = w.wire.output ++ sent w.wire.deliveries bytes;
        deliveries = later w.wire.deliveries;
      };
    },
  )

  -- A reply whose error is dropped, and the error that the handler returns.
  unfoldable pub refuse : {A : Type 0} → Text → Error → M S A
  unfolding write
  refuse bytes e w = (err e, (write bytes w).1)

  abbrev pub guard : Bool → M S (Unit {0}) → M S (Unit {0})
  guard true otherwise = pure tt
  guard false otherwise = otherwise

-- header[i], in a buffer that was read in full
abbrev pub byte_at : Text → ℕ → ℕ
byte_at [] i = 0
byte_at (b ∷ bs) zero = b
byte_at (b ∷ bs) (suc i) = byte_at bs i
