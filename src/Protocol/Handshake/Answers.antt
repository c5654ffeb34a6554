-- ===== src/Protocol/Handshake/Answers.antt =====
-- What handle_msg of src/protocol/handlemessage.rs answers to the messages of another such node.
use p2p_network_implementati.Prelude.{
  ℕ, suc, ◌≡◌, refl, [], ◌∷◌, ◌++◌, true, false, Result, ok, arith,
}
use p2p_network_implementati.Channel.{Sender, send_accepts}
use p2p_network_implementati.Network.Errors.{ErrorCreateVersionMessage}
use p2p_network_implementati.Network.Types.{
  PeerId, version, verack, incoming_connection, outgoing_connection,
}
use p2p_network_implementati.Network.Wire.{
  VersionMessage, validation_version_message, build_version_message, build_verack_message,
}
use p2p_network_implementati.Protocol.Errors.{EventsHandleMessage}
use p2p_network_implementati.Protocol.Handshake.{
  PeerContextMetadata, PeerStateMetadata, new_state, handle_version, Now,
}

-- The version message that a node builds for a peer, where its clock can be read.
abbrev pub built : PeerContextMetadata → ℕ → Result ErrorCreateVersionMessage VersionMessage
built context time =
    build_version_message context.local_address context.remove_address context.nonce (ok time)

-- A node accepts the version message that another node built.
pub validation-build_version_message :
    (context : PeerContextMetadata) (time : ℕ) {v : VersionMessage}
    → built context time ≡ ok v
    → validation_version_message v ≡ true
unfolding build_version_message validation_version_message
validation-build_version_message context time e = ground arith

-- The states after each half of the exchange.
abbrev pub greeted : PeerStateMetadata
greeted = record {
  send_version = true;
  recv_verack = false;
  send_verack = true;
  recv_version = true;
  completed_handshake = false;
}

abbrev pub completed : PeerStateMetadata
completed = record greeted { recv_verack = true; completed_handshake = true }

abbrev pub opened : PeerStateMetadata
opened = record {
  send_version = true;
  recv_verack = false;
  send_verack = false;
  recv_version = false;
  completed_handshake = false;
}

pub answer_incoming :
    (peerid : PeerId) (context : PeerContextMetadata) (v mine : VersionMessage)
    (tx : Sender EventsHandleMessage) (n time : ℕ)
    → validation_version_message v ≡ true
    → built context time ≡ ok mine
    → tx.accepts ≡ suc (suc n)
    → handle_version peerid v incoming_connection context new_state tx (ok time) ≡ record {
      state = greeted;
      tx_channel = record {
        accepts = n;
        sent =
            (tx.sent ++ (EventsHandleMessage.ready_message peerid (version mine) ∷ []))
            ++ (EventsHandleMessage.ready_message peerid (verack build_verack_message) ∷ []);
      };
      result = ok tt;
    }
unfolding handle_version new_state
answer_incoming peerid context v mine tx n time good mine_built room =
    let hello : EventsHandleMessage = EventsHandleMessage.ready_message peerid (version mine) in
    let ack : EventsHandleMessage =
      EventsHandleMessage.ready_message peerid (verack build_verack_message) in
    let tx' : Sender EventsHandleMessage = record {
      accepts = suc n;
      sent = tx.sent ++ (hello ∷ []);
    } in
    rw (good, mine_built, send_accepts (suc n) tx hello room, send_accepts n tx' ack refl) refl

pub answer_outgoing :
    (peerid : PeerId) (context : PeerContextMetadata) (v : VersionMessage)
    (tx : Sender EventsHandleMessage) (n : ℕ) (now : Now)
    → validation_version_message v ≡ true
    → tx.accepts ≡ suc n
    → handle_version peerid v outgoing_connection context opened tx now ≡ record {
      state = greeted;
      tx_channel = record {
        accepts = n;
        sent =
            tx.sent
            ++ (EventsHandleMessage.ready_message peerid (verack build_verack_message) ∷ []);
      };
      result = ok tt;
    }
unfolding handle_version
answer_outgoing peerid context v tx n now good room =
    rw
      (
        good,
        send_accepts n tx (EventsHandleMessage.ready_message peerid (verack build_verack_message))
            room,
      )
      refl
