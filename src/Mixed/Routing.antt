-- ===== src/Mixed/Routing.antt =====
-- Which backend a connection reaches, and what the backend receives.
use mathlib.Core.List.{append_assoc, append-nil}
use libersuite_panel.Prelude.{
  ℕ, ◌≡◌, refl, ap, ◌∙◌, Bool, ◌==◌, List, [], ◌∷◌, ◌++◌, if◌then◌else◌, some, arith,
}
use libersuite_panel.Prelude.Int.{pos}
use libersuite_panel.Text.{Text}
use libersuite_panel.Text.Decimal.{format_nat, format_nat-IsDigit, format_int}
use libersuite_panel.Text.HostPort.{
  NoByte, join_host_port, split_host_port, split_host_port-join_host_port,
}
use libersuite_panel.Socks.Wire.{Delivery, whole, cut}
use libersuite_panel.Socks.Request.{dial}
use libersuite_panel.Mixed.{
  Config, nil, timeout, Probed, first_byte, no_byte, Copy, from_client, from_backend, ended,
  Streams, copy_both, dial_failed, forward_failed, relayed, forward, target_addr, target_port,
  backend, handle_connection,
}

-- What one side sends before a copy ends.
unfoldable pub client_stream : List Copy → Text
client_stream [] = []
client_stream (from_client bytes ∷ es) = bytes ++ client_stream es
client_stream (from_backend bytes ∷ es) = client_stream es
client_stream (ended ∷ es) = []

unfoldable pub backend_stream : List Copy → Text
backend_stream [] = []
backend_stream (from_client bytes ∷ es) = backend_stream es
backend_stream (from_backend bytes ∷ es) = bytes ++ backend_stream es
backend_stream (ended ∷ es) = []

abbrev pub streams : Text → Text → Streams
streams to_backend to_client = record { to_backend = to_backend; to_client = to_client }

copy_both-streams :
    (a b : Text) (es : List Copy)
    → copy_both (streams a b) es ≡ streams (a ++ client_stream es) (b ++ backend_stream es)
unfolding copy_both client_stream backend_stream
copy_both-streams a b [] = rw (append-nil a, append-nil b) refl
copy_both-streams a b (from_client bytes ∷ es) =
    copy_both-streams (a ++ bytes) b es
    ∙ ap (λ t. streams t (b ++ backend_stream es)) (append_assoc a bytes (client_stream es))
copy_both-streams a b (from_backend bytes ∷ es) =
    copy_both-streams a (b ++ bytes) es
    ∙ ap (streams (a ++ client_stream es)) (append_assoc b bytes (backend_stream es))
copy_both-streams a b (ended ∷ es) = rw (append-nil a, append-nil b) refl

dial_read :
    (network : Text → Text → Bool) (address host port : Text)
    → split_host_port address ≡ some (host, port)
    → dial network address ≡ network host port
unfolding dial
dial_read network address host port h = rw (h, dial)

pub target_addr_port :
    (cfg : Config) (p : Probed) (port : ℕ)
    → target_port cfg p ≡ pos port
    → target_addr cfg p ≡ join_host_port cfg.backend_host (format_nat port)
unfolding target_addr format_int
target_addr_port cfg p port h = ap (λ n. join_host_port cfg.backend_host (format_int n)) h

module _ (cfg : Config) (network : Text → Text → Bool) (es : List Copy)
    (opening : NoByte b'[' cfg.backend_host) (closing : NoByte b']' cfg.backend_host) where
  dial_target :
      (p : Probed) (port : ℕ)
      → target_port cfg p ≡ pos port
      → dial network (target_addr cfg p) ≡ network cfg.backend_host (format_nat port)
  dial_target p port h =
      ap (dial network) (target_addr_port cfg p port h)
      ∙ dial_read network (join_host_port cfg.backend_host (format_nat port)) cfg.backend_host
          (format_nat port)
          (split_host_port-join_host_port (format_nat port) (format_nat-IsDigit port)
            cfg.backend_host opening closing)

  -- The backend that is reached is given by host and port, and the streams are those of the peers.
  reached :
      (p : Probed) (port : ℕ) (bytes : Text)
      → target_port cfg p ≡ pos port
      → backend cfg network p bytes whole es ≡ (
          if network cfg.backend_host (format_nat port)
          then relayed
              (join_host_port cfg.backend_host (format_nat port))
              (streams (bytes ++ client_stream es) (backend_stream es))
          else dial_failed (join_host_port cfg.backend_host (format_nat port)))
  unfolding backend forward
  reached p port bytes h =
      rw (dial_target p port h, target_addr_port cfg p port h, copy_both-streams bytes [] es) refl

  not_taken :
      (p : Probed) (port n : ℕ) (bytes : Text)
      → target_port cfg p ≡ pos port
      → backend cfg network p bytes (cut n) es ≡ (
          let addr = join_host_port cfg.backend_host (format_nat port) in
          if network cfg.backend_host (format_nat port)
          then forward_failed addr
          else dial_failed addr)
  unfolding backend forward
  not_taken p port n bytes h = rw (dial_target p port h, target_addr_port cfg p port h) refl

  -- On a backend host without brackets, with ports that are not negative: a connection whose first byte arrives in time
  -- goes to the SOCKS port if the byte is 5 and to the SSH port
  -- otherwise. If that backend answers and takes the byte, it receives exactly the client's
  -- stream, the byte that was read ahead included, and the client exactly the backend's, up to the end of
  -- the first copy. If it does not answer, or does not take the byte, the connection ends and nothing is copied.
  pub first_byte_relayed :
      (b socks ssh : ℕ) (d : Delivery)
      → cfg.socks_port ≡ pos socks
      → cfg.ssh_port ≡ pos ssh
      → handle_connection cfg network (record { n = 1; buffer = b; err = nil }) d es ≡ (
          let port = format_nat (if b == 5 then socks else ssh) in
          let addr = join_host_port cfg.backend_host port in
          if network cfg.backend_host port
          then elim d [
            | whole ↦ relayed addr (streams (b ∷ client_stream es) (backend_stream es))
            | cut n ↦ forward_failed addr
          ]
          else dial_failed addr)
  unfolding handle_connection target_port
  first_byte_relayed b socks ssh whole hs hh =
      reached (first_byte b) (if b == 5 then socks else ssh) (b ∷ []) (ground arith)
  first_byte_relayed b socks ssh (cut n) hs hh =
      not_taken (first_byte b) (if b == 5 then socks else ssh) n (b ∷ []) (ground arith)

  -- A client that stays silent for the time of the probe is taken for an SSH client, whatever the buffer
  -- holds: nothing is sent ahead of its stream.
  pub silent_relayed :
      (n b ssh : ℕ) (d : Delivery)
      → cfg.ssh_port ≡ pos ssh
      → handle_connection cfg network (record { n = n; buffer = b; err = timeout }) d es ≡ (
          if network cfg.backend_host (format_nat ssh)
          then relayed
              (join_host_port cfg.backend_host (format_nat ssh))
              (streams (client_stream es) (backend_stream es))
          else dial_failed (join_host_port cfg.backend_host (format_nat ssh)))
  unfolding handle_connection target_port
  silent_relayed n b ssh d h = reached no_byte ssh [] h
