-- ===== src/Protocol/HandleMessage.antt =====
-- src/protocol/handlemessage.rs, `HandleMessage`: the handshake state of every peer, and the loop
-- that keeps it. The clock is read for each incident.
pub mod Registry
pub mod Exchange
use p2p_network_implementati.Prelude.{
  List, [], Option, none, some, Bool, true, false, not, ◌&&◌, if◌then◌else◌, Result, ok, err, Map,
  lookup, insert, remove, contains_key, Flow, continues, returns, run_loop,
}
use p2p_network_implementati.Channel.{Sender, send}
use p2p_network_implementati.Network.Errors.{ErrorCreateVersionMessage}
use p2p_network_implementati.Network.Types.{
  PeerId, MessagePayload, version, TypeConnection, incoming_connection, outgoing_connection,
  StructContextConnection, EventsPeerManager,
}
use p2p_network_implementati.Network.Wire.{VersionMessage, build_version_message}
use p2p_network_implementati.Protocol.Errors.{
  ErrorHandleMessage, EventsHandleMessage, EventsThreadProtocol,
}
use p2p_network_implementati.Protocol.Handshake.{
  PeerContextMetadata, PeerStateMetadata, new_state, handle_msg, Now,
}

pub record HandleMessage : Type 0 where
  pub set_context_peers : Map PeerContextMetadata
  pub set_state_peers : Map PeerStateMetadata
  pub tx_channel_to_peermanager : Sender EventsHandleMessage

-- What `select!` takes up: an event of the thread, or one of the peer manager at a clock reading.
pub data HandleIncident : Type 0 where
  incident_thread_protocol : Option EventsThreadProtocol → HandleIncident
  incident_peermanager : Now → Option EventsPeerManager → HandleIncident

abbrev pub HandleFlow : Type 0
HandleFlow = Flow HandleMessage (Result ErrorHandleMessage (Unit {0}))

-- `if !map.contains_key(&peerid) { map.insert(peerid, v) }`
unfoldable pub insert_new : {V : Type 0} → PeerId → V → Map V → Map V
insert_new peerid v m = if contains_key peerid m then m else insert peerid v m

abbrev pub context_of : StructContextConnection → PeerContextMetadata
context_of c = record {
  type_connect = c.type_connection;
  nonce = c.nonce;
  local_address = c.local_address;
  remove_address = c.remove_address;
}

-- `if !send_version && !recv_version && !send_verack && !recv_verack { send_version = true; }`
unfoldable pub mark_send_version : PeerStateMetadata → PeerStateMetadata
mark_send_version state =
    if not state.send_version
      && (not state.recv_version && (not state.send_verack && not state.recv_verack))
    then record state { send_version = true }
    else state

-- The version message that opens an outgoing connection.
unfoldable pub open_outgoing :
    HandleMessage
    → PeerId
    → PeerStateMetadata
    → Result ErrorCreateVersionMessage VersionMessage
    → HandleFlow
unfolding mark_send_version
open_outgoing s peerid state (ok new_message_version) =
    let (tx', sent) =
      send s.tx_channel_to_peermanager
        (EventsHandleMessage.ready_message peerid (version new_message_version)) in
    if sent
    then continues (record s {
      set_state_peers = insert peerid (mark_send_version state) s.set_state_peers;
      tx_channel_to_peermanager = tx';
    })
    else returns (err ErrorHandleMessage.error_channel_peer_manager_closed)
open_outgoing s peerid state (err e) = continues s

unfoldable pub open_connection :
    HandleMessage
    → PeerId
    → PeerContextMetadata
    → PeerStateMetadata
    → TypeConnection
    → Now
    → HandleFlow
unfolding open_outgoing
open_connection s peerid context state incoming_connection now = continues s
open_connection s peerid context state outgoing_connection now =
    open_outgoing s peerid state
      (build_version_message context.local_address context.remove_address context.nonce now)

-- `IncidentNewConnection`.
unfoldable pub on_new_connection : HandleMessage → StructContextConnection → Now → HandleFlow
unfolding insert_new open_connection
on_new_connection s c now =
    let s' : HandleMessage = record s {
      set_context_peers = insert_new c.peerid (context_of c) s.set_context_peers;
      set_state_peers = insert_new c.peerid new_state s.set_state_peers;
    } in
    elim (lookup c.peerid s'.set_context_peers) [
      | none ↦ continues s'
      | some context ↦ elim (lookup c.peerid s'.set_state_peers) [
        | none ↦ continues s'
        | some state ↦ open_connection s' c.peerid context state context.type_connect now
      ]
    ]

-- `IncidentHandleReadyMessage`: an error is logged, and the loop goes on.
unfoldable pub on_ready_message : HandleMessage → PeerId → MessagePayload → Now → HandleFlow
on_ready_message s peerid message now = elim (lookup peerid s.set_context_peers) [
  | none ↦ continues s
  | some context ↦ elim (lookup peerid s.set_state_peers) [
    | none ↦ continues s
    | some state ↦
        let h = handle_msg peerid message context state s.tx_channel_to_peermanager now in
        continues (record s {
          set_state_peers = insert peerid h.state s.set_state_peers;
          tx_channel_to_peermanager = h.tx_channel;
        })
  ]
]

-- One turn of the loop of `HandleMessage::run`.
unfoldable pub handle_step : HandleMessage → HandleIncident → HandleFlow
handle_step s (incident_thread_protocol (some EventsThreadProtocol.shutdown)) = returns (ok tt)
handle_step s (incident_thread_protocol none) =
    returns (err ErrorHandleMessage.error_channel_thread_protocol_closed)
handle_step s (incident_peermanager now (some (EventsPeerManager.ready_message peerid message))) =
    on_ready_message s peerid message now
handle_step s
      (incident_peermanager now (some (EventsPeerManager.incident_new_connection context))) =
    on_new_connection s context now
handle_step s (incident_peermanager now (some EventsPeerManager.incident_completed_all_peer)) =
    continues (record s { set_context_peers = []; set_state_peers = [] })
handle_step s (incident_peermanager now (some (EventsPeerManager.incident_completed_peer peerid))) =
    continues (record s {
      set_context_peers = remove peerid s.set_context_peers;
      set_state_peers = remove peerid s.set_state_peers;
    })
handle_step s (incident_peermanager now (some (EventsPeerManager.ready_low_message message))) =
    continues s
handle_step s (incident_peermanager now (some EventsPeerManager.shutdown)) = continues s
handle_step s (incident_peermanager now none) =
    returns (err ErrorHandleMessage.error_channel_peer_manager_closed)

-- `HandleMessage::create`.
unfoldable pub new_handle_message : Sender EventsHandleMessage → HandleMessage
new_handle_message tx = record {
  set_context_peers = [];
  set_state_peers = [];
  tx_channel_to_peermanager = tx;
}

unfoldable pub run_handle_message : HandleMessage → List HandleIncident → HandleFlow
run_handle_message s incidents = run_loop handle_step (continues s) incidents
