-- ===== src/Ssh/Channels/Admission.antt =====
-- Who gets a channel, and what it reaches.
use libersuite_panel.Prelude.{
  ◌≡◌, refl, ap, ◌∙◌, Bool, true, false, Bool-cases, Option, none, some, inl, inr, if◌then◌else◌,
}
use libersuite_panel.Text.{Text}
use libersuite_panel.Text.Decimal.{format_nat}
use libersuite_panel.Text.HostPort.{contains_byte, NoByte}
use libersuite_panel.Client.{Client, Time}
use libersuite_panel.Database.{Database}
use libersuite_panel.Socks.Auth.Complete.{accepts}
use libersuite_panel.Socks.Address.{host_colon_port}
use libersuite_panel.Socks.Request.Replies.{dial_plain, dial_colon}
use libersuite_panel.Ssh.{Server, password_handler}
use libersuite_panel.Ssh.Login.{password_handler_agrees}
use libersuite_panel.Ssh.Channels.{
  ForwardMsg, NewChannel, prohibited, not_connected, relaying, connect_channel,
  direct_tcpip_handler,
}

module _ (D : Database) (network : Text → Text → Bool) (unmarshal : Text → Option ForwardMsg) where
  without_client :
      (ch : NewChannel) (v : Server D.State)
      → ch.client ≡ none
      → direct_tcpip_handler D network unmarshal ch v ≡ (prohibited, v)
  unfolding direct_tcpip_handler
  without_client ch v e = rw e

  -- A channel that is relayed belongs to a connection whose login was accepted: the user's row had the
  -- password sent and was active. A channel of any other connection is prohibited and leaves the server as
  -- it was.
  pub direct_tcpip_handler_gate :
      (checked stamped : Time) (username password : Text) (s : D.State) (ch : NewChannel)
      (v : Server D.State)
      → ch.client ≡ (password_handler D checked stamped username password s).context
      → ((dest : Text)
          → (direct_tcpip_handler D network unmarshal ch v).0 ≡ relaying dest
          → accepts (D.find_first s username) password checked ≡ true)
        × (accepts (D.find_first s username) password checked ≡ false
            → direct_tcpip_handler D network unmarshal ch v ≡ (prohibited, v))
  direct_tcpip_handler_gate checked stamped username password s ch v e =
      let agrees = password_handler_agrees D checked stamped username password s in
      elim (Bool-cases (accepts (D.find_first s username) password checked)) [
        | inl taken ↦ (λ dest h. taken, λ other. absurd (cc))
        | inr rejected ↦
            let gone = without_client ch v (e ∙ ap (λ h. h.context) (agrees.1 rejected)) in
            (λ dest h. absurd (cc), λ other. gone)
      ]

  -- For a destination that is named without a colon or a bracket, in a channel that is admitted and accepted,
  -- exactly that name and port are dialled.
  pub destination_dialled :
      (client : Client) (ch : NewChannel) (v : Server D.State) (msg : ForwardMsg)
      → ch.client ≡ some client
      → ch.accepted ≡ true
      → unmarshal ch.extra_data ≡ some msg
      → NoByte b':' msg.dest_addr
      → NoByte b'[' msg.dest_addr
      → NoByte b']' msg.dest_addr
      → (direct_tcpip_handler D network unmarshal ch v).0 ≡ (
          let dest = host_colon_port msg.dest_addr msg.dest_port in
          if network msg.dest_addr (format_nat msg.dest_port)
          then relaying dest
          else not_connected dest)
  unfolding direct_tcpip_handler connect_channel
  destination_dialled client ch v msg e a m c o b =
      rw (e, a, m, dial_plain network msg.dest_addr msg.dest_port c o b) refl

  -- A destination that is an IPv6 address, or any text with a colon and no opening bracket, is never
  -- connected, whatever the network.
  pub ipv6_destination_fails :
      (client : Client) (ch : NewChannel) (v : Server D.State) (msg : ForwardMsg)
      → ch.client ≡ some client
      → ch.accepted ≡ true
      → unmarshal ch.extra_data ≡ some msg
      → contains_byte b':' msg.dest_addr ≡ true
      → NoByte b'[' msg.dest_addr
      → (direct_tcpip_handler D network unmarshal ch v).0
        ≡ not_connected (host_colon_port msg.dest_addr msg.dest_port)
  unfolding direct_tcpip_handler connect_channel
  ipv6_destination_fails client ch v msg e a m c o =
      rw (e, a, m, dial_colon network msg.dest_addr msg.dest_port c o) refl
