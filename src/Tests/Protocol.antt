-- ===== src/Tests/Protocol.antt =====
-- The theorems on the handshake and on the message handler, at concrete peers.
use p2p_network_implementati.Prelude.{
  continues, List, [], ◌∷◌, ◌≡◌, ◌≢◌, refl, true, some, ok, err, run_loop, lookup, insert, remove,
}
use p2p_network_implementati.Channel.{send}
use p2p_network_implementati.Network.Types.{
  MessagePayload, version, verack, incoming_connection, outgoing_connection, EventsPeerManager,
  StructContextConnection,
}
use p2p_network_implementati.Network.Wire.{
  VerackMessage, build_version_message, ip_address, build_verack_message,
  validation_version_message,
}
use p2p_network_implementati.Protocol.Errors.{ErrorHandle, EventsHandleMessage}
use p2p_network_implementati.Protocol.Handshake.{
  PeerContextMetadata, new_state, handle_msg, handle_verack,
}
use p2p_network_implementati.Protocol.Handshake.Invariant.{
  IsHandshake, new_state-IsHandshake, handle_msg-IsHandshake, handle_msg_again,
  handle_msg-ne-invalid_state_handshake, handle_msg-completes,
}
use p2p_network_implementati.Protocol.Handshake.Answers.{greeted, completed, opened}
use p2p_network_implementati.Protocol.HandleMessage.{
  HandleMessage, HandleIncident, incident_peermanager, run_handle_message, new_handle_message,
  handle_step, on_new_connection, open_connection, open_outgoing, mark_send_version, insert_new,
}
use p2p_network_implementati.Protocol.HandleMessage.Registry.{
  IsRegistry, run_handle_message-IsRegistry,
}
use p2p_network_implementati.Protocol.HandleMessage.Exchange.{
  handlers_complete, alone, life, greeted_and_acknowledged,
}
use p2p_network_implementati.Tests.Data.{open_channel, home, away, greeting, reply}

abbrev caller : PeerContextMetadata
caller = record {
  type_connect = outgoing_connection;
  nonce = 77;
  local_address = home;
  remove_address = away;
}

abbrev callee : PeerContextMetadata
callee = record {
  type_connect = incoming_connection;
  nonce = 88;
  local_address = away;
  remove_address = home;
}

abbrev ack : MessagePayload
ack = verack build_verack_message

abbrev called : StructContextConnection
called = record {
  peerid = 5;
  type_connection = outgoing_connection;
  nonce = 77;
  local_address = home;
  remove_address = away;
}

abbrev accepted : StructContextConnection
accepted = record {
  peerid = 3;
  type_connection = incoming_connection;
  nonce = 88;
  local_address = away;
  remove_address = home;
}

handlers_complete_example :
    (run_handle_message
        (new_handle_message open_channel)
        (life (ok 1700000000) called (ok 1700000010) reply (ok 1700000011) build_verack_message)
      ≡ continues (
          alone 5 caller completed
            (record { accepts = 7; sent = greeted_and_acknowledged 5 greeting [] })))
    × (run_handle_message (new_handle_message open_channel) (
          life
            (ok 1700000001)
            accepted
            (ok 1700000009)
            greeting
            (ok 1700000012)
            build_verack_message)
        ≡ continues (
            alone 3 callee completed
              (record { accepts = 7; sent = greeted_and_acknowledged 3 reply [] })))
handlers_complete_example =
    handlers_complete called accepted open_channel open_channel greeting reply 7 7 1700000000
      1700000009 (ok 1700000010) (ok 1700000011) (ok 1700000001) (ok 1700000012) refl refl
      (unfold build_version_message ip_address in refl)
      (unfold build_version_message ip_address in refl) refl refl

handle_msg-IsHandshake_example :
    IsHandshake incoming_connection
      (handle_msg 3 (version greeting) callee new_state open_channel (ok 1700000009)).state
handle_msg-IsHandshake_example =
    handle_msg-IsHandshake 3 callee new_state open_channel (ok 1700000009) (version greeting)
      (new_state-IsHandshake incoming_connection)

handle_msg_again_example :
    ((handle_msg 3 (version greeting) callee greeted open_channel (ok 1700000009)).state ≡ greeted)
    × ((handle_msg 3 (version greeting) callee greeted open_channel (ok 1700000009)).tx_channel
        ≡ (send open_channel (EventsHandleMessage.incidet_violent_complited_peer 3)).0)
handle_msg_again_example =
    handle_msg_again 3 callee greeted open_channel (ok 1700000009) greeting refl
      (unfold validation_version_message in refl)

handle_msg-ne-invalid_state_handshake_example :
    (handle_msg 3 ack callee new_state open_channel (ok 1700000009)).result
    ≢ err ErrorHandle.error_invalid_state_handshake
handle_msg-ne-invalid_state_handshake_example =
    handle_msg-ne-invalid_state_handshake 3 callee new_state open_channel (ok 1700000009) ack

handle_msg-completes_example :
    ((v : VerackMessage) × (ack ≡ verack v))
    × (greeted.send_version ≡ true)
    × (greeted.recv_version ≡ true)
    × (greeted.send_verack ≡ true)
    × ((handle_msg 3 ack callee greeted open_channel (ok 1700000009)).result ≡ ok tt)
handle_msg-completes_example =
    handle_msg-completes 3 callee greeted open_channel (ok 1700000009) ack refl
      (unfold handle_msg handle_verack in refl)

abbrev answered : StructContextConnection
answered = record called { peerid = 6; type_connection = incoming_connection }

-- An outgoing connection, an incoming one, and the end of a third that is not known.
abbrev incidents : List HandleIncident
incidents =
    incident_peermanager (ok 1700000000) (some (EventsPeerManager.incident_new_connection called))
    ∷ incident_peermanager (ok 1700000001)
        (some (EventsPeerManager.incident_new_connection answered))
    ∷ incident_peermanager (ok 1700000002) (some (EventsPeerManager.incident_completed_peer 8))
    ∷ []

abbrev registry : HandleMessage
registry = record {
  set_context_peers = (6, record caller { type_connect = incoming_connection }) ∷ (5, caller) ∷ [];
  set_state_peers = (6, new_state) ∷ (5, opened) ∷ [];
  tx_channel_to_peermanager = record {
    accepts = 8;
    sent = EventsHandleMessage.ready_message 5 (version greeting) ∷ [];
  };
}

run_handle_message-IsRegistry_example : IsRegistry registry
unfolding run_handle_message run_loop handle_step on_new_connection open_connection open_outgoing
    mark_send_version insert_new new_handle_message lookup insert remove build_version_message
    ip_address send new_state
run_handle_message-IsRegistry_example =
    run_handle_message-IsRegistry incidents open_channel registry refl
