-- ===== src/Protocol/Handshake/Invariant.antt =====
-- What holds of a handshake (src/protocol/handlemessage.rs, `handle_msg`) between two messages.
use p2p_network_implementati.Prelude.{◌≡◌, ◌≢◌, refl, true, false, ok, err, arith}
use p2p_network_implementati.Channel.{Sender, send}
use p2p_network_implementati.Network.Types.{
  PeerId, MessagePayload, version, verack, TypeConnection, incoming_connection, outgoing_connection,
}
use p2p_network_implementati.Network.Wire.{
  VersionMessage, VerackMessage, validation_version_message,
}
use p2p_network_implementati.Protocol.Errors.{ErrorHandle, EventsHandleMessage}
use p2p_network_implementati.Protocol.Handshake.{
  PeerContextMetadata, PeerStateMetadata, new_state, handle_msg, handle_version, handle_verack, Now,
}

-- Who speaks first: a node answers a version on an incoming connection, and opens with one on an
-- outgoing connection.
abbrev Opened : TypeConnection → PeerStateMetadata → Type 0
Opened incoming_connection s = s.send_version ≡ true → s.recv_version ≡ true
Opened outgoing_connection s = s.recv_version ≡ true → s.send_version ≡ true

pub record IsHandshake (type_connect : TypeConnection) (s : PeerStateMetadata) : Type 0 where
  pub opened : Opened type_connect s
  pub verack_answers : s.send_verack ≡ true → (s.send_version ≡ true) × (s.recv_version ≡ true)
  pub verack_last : s.recv_verack ≡ true → s.send_verack ≡ true
  pub completed : s.completed_handshake ≡ s.recv_verack

pub new_state-IsHandshake : (t : TypeConnection) → IsHandshake t new_state
unfolding new_state
new_state-IsHandshake incoming_connection = ground arith
new_state-IsHandshake outgoing_connection = ground arith

module _ (peerid : PeerId) (context : PeerContextMetadata) (state : PeerStateMetadata)
    (tx : Sender EventsHandleMessage) (now : Now) where
  handle_version-IsHandshake :
      (t : TypeConnection) (v : VersionMessage)
      → IsHandshake t state
      → IsHandshake t (handle_version peerid v t context state tx now).state
  unfolding handle_version
  handle_version-IsHandshake incoming_connection v h = ground arith
  handle_version-IsHandshake outgoing_connection v h = ground arith

  -- Every message, whatever its content and however the sends end, keeps the handshake in order:
  -- a verack is sent only after both versions, received only after it was sent, and the handshake
  -- is complete exactly when the verack of the peer was received.
  pub handle_msg-IsHandshake :
      (message : MessagePayload)
      → IsHandshake context.type_connect state
      → IsHandshake context.type_connect (handle_msg peerid message context state tx now).state
  unfolding handle_msg handle_verack
  handle_msg-IsHandshake (version v) h = handle_version-IsHandshake context.type_connect v h
  handle_msg-IsHandshake (verack v) h = by_type context.type_connect h
    where
      by_type :
          (t : TypeConnection)
          → IsHandshake t state
          → IsHandshake t (handle_verack peerid state tx).state
      by_type incoming_connection h = ground arith
      by_type outgoing_connection h = ground arith

  -- A valid version message after an earlier one leaves the handshake as it was, and one event, which
  -- asks the manager to end the peer, is sent, whatever the channel answers.
  pub handle_msg_again :
      (v : VersionMessage)
      → state.recv_version ≡ true
      → validation_version_message v ≡ true
      → (handle_msg peerid (version v) context state tx now).state ≡ state
        × ((handle_msg peerid (version v) context state tx now).tx_channel
            ≡ (send tx (EventsHandleMessage.incidet_violent_complited_peer peerid)).0)
  unfolding handle_msg
  handle_msg_again v again good = by_type context.type_connect
    where
      by_type :
          (t : TypeConnection)
          → ((handle_version peerid v t context state tx now).state ≡ state)
            × ((handle_version peerid v t context state tx now).tx_channel
                ≡ (send tx (EventsHandleMessage.incidet_violent_complited_peer peerid)).0)
      by_type incoming_connection = unfold handle_version in ground arith
      by_type outgoing_connection = unfold handle_version in ground arith

  -- `ErrorInvalidStateHandshake` is never returned.
  pub handle_msg-ne-invalid_state_handshake :
      (message : MessagePayload)
      → (handle_msg peerid message context state tx now).result
        ≢ err ErrorHandle.error_invalid_state_handshake
  unfolding handle_msg
  handle_msg-ne-invalid_state_handshake (version v) = by_type context.type_connect
    where
      by_type :
          (t : TypeConnection)
          → (handle_version peerid v t context state tx now).result
            ≢ err ErrorHandle.error_invalid_state_handshake
      by_type incoming_connection = unfold handle_version in λ e. ground arith
      by_type outgoing_connection = unfold handle_version in λ e. ground arith
  handle_msg-ne-invalid_state_handshake (verack v) = unfold handle_verack in λ e. ground arith

  -- The handshake is completed by a verack only, and only where our version and our verack were
  -- sent and the version of the peer was received.
  pub handle_msg-completes :
      (message : MessagePayload)
      → state.completed_handshake ≡ false
      → (handle_msg peerid message context state tx now).state.completed_handshake ≡ true
      → ((v : VerackMessage) × (message ≡ verack v))
        × (state.send_version ≡ true)
        × (state.recv_version ≡ true)
        × (state.send_verack ≡ true)
        × ((handle_msg peerid message context state tx now).result ≡ ok tt)
  unfolding handle_msg
  handle_msg-completes (version v) before after = absurd (by_type context.type_connect after)
    where
      by_type :
          (t : TypeConnection)
          → (handle_version peerid v t context state tx now).state.completed_handshake ≡ true
          → ⊥
      by_type incoming_connection e = unfold handle_version in ground arith
      by_type outgoing_connection e = unfold handle_version in ground arith
  handle_msg-completes (verack v) before after =
      unfold handle_verack in ((v, refl), ground arith, ground arith, ground arith, ground arith)
