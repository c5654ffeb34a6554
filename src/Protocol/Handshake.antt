-- ===== src/Protocol/Handshake.antt =====
-- src/protocol/handlemessage.rs, `handle_msg`: the handshake with one peer. `&mut` arguments are
-- returned with the result; `now` is what `build_version_message` finds on the clock.
pub mod Invariant
pub mod Answers
use p2p_network_implementati.Prelude.{
  ℕ, Bool, true, false, not, ◌&&◌, if◌then◌else◌, Result, ok, err,
}
use p2p_network_implementati.Channel.{Sender, send}
use p2p_network_implementati.Network.Errors.{SystemTimeError, ErrorCreateVersionMessage}
use p2p_network_implementati.Network.Types.{
  PeerId, MessagePayload, version, verack, TypeConnection, incoming_connection, outgoing_connection,
}
use p2p_network_implementati.Network.Wire.{
  SocketAddr, VersionMessage, VerackMessage, build_version_message, validation_version_message,
  build_verack_message,
}
use p2p_network_implementati.Protocol.Errors.{ErrorHandle, EventsHandleMessage}

pub record PeerContextMetadata : Type 0 where
  pub type_connect : TypeConnection
  pub nonce : ℕ
  pub local_address : SocketAddr
  pub remove_address : SocketAddr

pub record PeerStateMetadata : Type 0 where
  pub send_version : Bool
  pub recv_verack : Bool
  pub send_verack : Bool
  pub recv_version : Bool
  pub completed_handshake : Bool

-- `PeerStateMetadata::create`.
unfoldable pub new_state : PeerStateMetadata
new_state = record {
  send_version = false;
  recv_verack = false;
  send_verack = false;
  recv_version = false;
  completed_handshake = false;
}

-- The result of `handle_msg`, with what it left in its two `&mut` arguments.
pub record Handled : Type 0 where
  pub state : PeerStateMetadata
  pub tx_channel : Sender EventsHandleMessage
  pub result : Result ErrorHandle (Unit {0})

abbrev pub Now : Type 0
Now = Result SystemTimeError ℕ

-- The peer broke the protocol: the manager is told to end it.
violent_completion : PeerId → PeerStateMetadata → Sender EventsHandleMessage → ErrorHandle → Handled
violent_completion peerid state tx error =
    let (tx', sent) = send tx (EventsHandleMessage.incidet_violent_complited_peer peerid) in
    record {
      state = state;
      tx_channel = tx';
      result = if sent then err error else err ErrorHandle.peer_manager_closed;
    }

answer_verack : PeerId → PeerStateMetadata → Sender EventsHandleMessage → Handled
answer_verack peerid state tx =
    let (tx', sent) =
      send tx (EventsHandleMessage.ready_message peerid (verack build_verack_message)) in
    if sent
    then record { state = record state { send_verack = true }; tx_channel = tx'; result = ok tt }
    else record { state = state; tx_channel = tx'; result = err ErrorHandle.peer_manager_closed }

-- The answer to a version message on an incoming connection: our version, then the verack.
answer_version :
    PeerId
    → Result ErrorCreateVersionMessage VersionMessage
    → PeerStateMetadata
    → Sender EventsHandleMessage
    → Handled
unfolding answer_verack
answer_version peerid (ok new_version_message) state tx =
    let (tx', sent) =
      send tx (EventsHandleMessage.ready_message peerid (version new_version_message)) in
    if sent
    then answer_verack peerid (record state { send_version = true }) tx'
    else record { state = state; tx_channel = tx'; result = err ErrorHandle.peer_manager_closed }
answer_version peerid (err e) state tx = record {
  state = state;
  tx_channel = tx;
  result = err (ErrorHandle.error_create_version_message e);
}

pub handle_version :
    PeerId
    → VersionMessage
    → TypeConnection
    → PeerContextMetadata
    → PeerStateMetadata
    → Sender EventsHandleMessage
    → Now
    → Handled
unfolding violent_completion answer_version answer_verack
handle_version peerid v incoming_connection context state tx now =
    if not state.recv_version
      && (not state.send_version && (not state.recv_verack && not state.send_verack))
    then (if validation_version_message v
        then answer_version peerid
            (build_version_message context.local_address context.remove_address context.nonce now)
            (record state { recv_version = true }) tx
        else record {
          state = state;
          tx_channel = tx;
          result = err ErrorHandle.error_invalid_version_message;
        })
    else violent_completion peerid state tx ErrorHandle.error_invalid_state_version
handle_version peerid v outgoing_connection context state tx now =
    if validation_version_message v
    then (if state.send_version
          && (not state.recv_version && (not state.send_verack && not state.recv_verack))
        then answer_verack peerid (record state { recv_version = true }) tx
        else violent_completion peerid state tx ErrorHandle.error_invalid_state_version)
    else record {
      state = state;
      tx_channel = tx;
      result = err ErrorHandle.error_invalid_version_message;
    }

unfoldable pub handle_verack : PeerId → PeerStateMetadata → Sender EventsHandleMessage → Handled
unfolding violent_completion
handle_verack peerid state tx =
    if state.recv_version && (state.send_version && (state.send_verack && not state.recv_verack))
    then (let state' = record state { recv_verack = true } in
        if state'.send_version
          && (state'.recv_version && (state'.send_verack && state'.recv_verack))
        then record {
          state = record state' { completed_handshake = true };
          tx_channel = tx;
          result = ok tt;
        }
        else violent_completion peerid state' tx ErrorHandle.error_invalid_state_handshake)
    else violent_completion peerid state tx ErrorHandle.error_invalid_state_verack

unfoldable pub handle_msg :
    PeerId
    → MessagePayload
    → PeerContextMetadata
    → PeerStateMetadata
    → Sender EventsHandleMessage
    → Now
    → Handled
unfolding handle_version handle_verack
handle_msg peerid (version v) context state tx now =
    handle_version peerid v context.type_connect context state tx now
handle_msg peerid (verack v) context state tx now = handle_verack peerid state tx
