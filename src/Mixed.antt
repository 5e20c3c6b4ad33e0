-- ===== src/Mixed.antt =====
-- mixedserver/server.go: the listener that SSH and SOCKS5 share. It reads one byte to tell them apart,
-- dials the server that is meant, and from then on copies both ways.
pub mod Routing
pub mod Served
pub mod Start
use libersuite_panel.Prelude.{
  ℕ, Bool, true, false, ◌&&◌, ◌==◌, List, [], ◌∷◌, ◌++◌, take, if◌then◌else◌,
}
use libersuite_panel.Prelude.Int.{ℤ}
use libersuite_panel.Text.{Text}
use libersuite_panel.Text.Decimal.{format_int}
use libersuite_panel.Text.HostPort.{join_host_port}
use libersuite_panel.Socks.Wire.{Delivery, whole, cut}
use libersuite_panel.Socks.Request.{dial}

pub record Config : Type 0 where
  pub ssh_port : ℤ
  pub socks_port : ℤ
  pub backend_host : Text

-- The error of a Read: none, io.EOF, one whose Timeout() is true, or another one.
pub data ReadError : Type 0 where
  nil eof timeout other : ReadError

-- What the Read of the probe gives: the count, the byte in the buffer, and the error.
pub record Probe : Type 0 where
  pub n : ℕ
  pub buffer : ℕ
  pub err : ReadError

-- What a probe leads to: the end of the connection, or a backend with or without a first byte.
pub data Probed : Type 0 where
  gone : Probed
  no_byte : Probed
  first_byte : ℕ → Probed

unfoldable pub probed : Probe → Probed
probed p = elim p.err [
  | nil ↦ if p.n == 1 then first_byte p.buffer else gone
  | eof ↦ gone
  | timeout ↦ no_byte
  | other ↦ gone
]

abbrev pub socks_version5 : ℕ
socks_version5 = 5

unfoldable pub target_port : Config → Probed → ℤ
target_port cfg (first_byte b) = if b == socks_version5 then cfg.socks_port else cfg.ssh_port
target_port cfg no_byte = cfg.ssh_port
target_port cfg gone = cfg.ssh_port

unfoldable pub target_addr : Config → Probed → Text
unfolding target_port join_host_port
target_addr cfg p = join_host_port cfg.backend_host (format_int (target_port cfg p))

-- A step of the two copies: a chunk that was read and written, or the end of one copy, which closes both
-- connections.
pub data Copy : Type 0 where
  from_client from_backend : Text → Copy
  ended : Copy

-- The bytes that the backend and the client have received.
pub record Streams : Type 0 where
  pub to_backend : Text
  pub to_client : Text

unfoldable pub copy_both : Streams → List Copy → Streams
copy_both v [] = v
copy_both v (from_client bytes ∷ es) =
    copy_both (record v { to_backend = v.to_backend ++ bytes }) es
copy_both v (from_backend bytes ∷ es) = copy_both (record v { to_client = v.to_client ++ bytes }) es
copy_both v (ended ∷ es) = v

pub data Outcome : Type 0 where
  dropped : Outcome
  dial_failed : Text → Outcome
  forward_failed : Text → Outcome
  relayed : Text → Streams → Outcome

-- The write of the byte that was read ahead.
unfoldable pub forward : Text → Text → Delivery → List Copy → Outcome
unfolding copy_both
forward addr bytes whole es =
    relayed addr (copy_both (record { to_backend = bytes; to_client = [] }) es)
forward addr bytes (cut n) es = forward_failed addr

unfoldable pub backend :
    Config → (Text → Text → Bool) → Probed → Text → Delivery → List Copy → Outcome
unfolding target_addr dial forward
backend cfg network p bytes d es =
    if dial network (target_addr cfg p)
    then forward (target_addr cfg p) bytes d es
    else dial_failed (target_addr cfg p)

unfoldable pub connect : Config → (Text → Text → Bool) → Probed → Delivery → List Copy → Outcome
unfolding backend
connect cfg network gone d es = dropped
connect cfg network no_byte d es = backend cfg network no_byte [] whole es
connect cfg network (first_byte b) d es = backend cfg network (first_byte b) (b ∷ []) d es

unfoldable pub handle_connection :
    Config → (Text → Text → Bool) → Probe → Delivery → List Copy → Outcome
unfolding probed connect
handle_connection cfg network probe d es = connect cfg network (probed probe) d es
