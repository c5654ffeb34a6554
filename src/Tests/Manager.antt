-- ===== src/Tests/Manager.antt =====
-- The theorems on the peer manager and on the listener, at concrete connections.
use p2p_network_implementati.Prelude.{
  ℕ, List, [], ◌∷◌, ◌++◌, ◌≡◌, refl, none, some, ok, err, continues, lookup, insert, remove, arith,
  run_loop,
}
use p2p_network_implementati.Channel.{send}
use p2p_network_implementati.Network.Errors.{os_error, ErrorPeer, SuccessPeer}
use p2p_network_implementati.Network.Types.{
  PeerId, verack, incoming_connection, TcpStream, EventsPeerManager, EventsLoopListen,
  MessagePayload,
}
use p2p_network_implementati.Network.Wire.{build_verack_message}
use p2p_network_implementati.Network.Peer.{create_peer}
use p2p_network_implementati.Network.PeerManager.{
  PeerSystemMetadata, PeerManager, new_peer_manager, NewTask, tell_protocol, add_peer, connect_peer,
  on_ready_message, on_violent_completion, forget_peer, take_task, ManagerIncident,
  incident_looplisten, result_peer, finished_peer, on_completed, manager_step, run_peer_manager,
}
use p2p_network_implementati.Network.PeerManager.Ending.{bulk_peer_disconnection, end_peer_manager}
use p2p_network_implementati.Network.PeerManager.Counting.{run_peer_manager-IsCounted}
use p2p_network_implementati.Network.PeerManager.Tasks.{IsCounted}
use p2p_network_implementati.Network.PeerManager.Identity.{
  connect_then_ends, connect_peer_fails, ids_collide, new_entry,
}
use p2p_network_implementati.Network.PeerManager.Routing.{
  on_ready_message_routes, on_violent_completion_routes, bulk_peer_disconnection_all,
  end_peer_manager_leaves, after_event,
}
use p2p_network_implementati.Network.LoopListen.{
  ListenIncident, result_accept, listen_step, hand_over, run_listen,
}
use p2p_network_implementati.Network.LoopListen.Handover.{run_listen_hands_over}
use p2p_network_implementati.Prelude.{◌↔◌, ◌≢◌, Result}
use p2p_network_implementati.Network.Peer.{PeerResult}
use p2p_network_implementati.Network.PeerManager.{EventsCriticalCompletionPeerManager}
use p2p_network_implementati.Tests.Data.{open_channel, home, away, socket_home_away}

-- A `JoinError`, as the id of its task.
abbrev Panicked : Type 0
Panicked = ℕ

abbrev broken_pipe : SuccessPeer
broken_pipe = SuccessPeer.successful_task_read_broken_pipe_task_write_successful

abbrev task_of : ℕ → NewTask
task_of id = record { id = id; accepts = 5 }

-- What the manager tells the protocol of a connection to `away`.
abbrev connected : PeerId → EventsPeerManager
connected peerid = EventsPeerManager.incident_new_connection (record {
  peerid = peerid;
  type_connection = incoming_connection;
  nonce = 77;
  local_address = home;
  remove_address = away;
})

abbrev entry : ℕ → PeerSystemMetadata
entry id = new_entry away incoming_connection (task_of id)

abbrev start : PeerManager
start = new_peer_manager 77 open_channel

abbrev one_peer : PeerManager
one_peer = record {
  peerid = 2;
  set_all_peers = (1, entry 11) ∷ [];
  set_task_peers = (11, 1) ∷ [];
  set_id_peers = (11, 1) ∷ [];
  nonce = 77;
  tx_channel_peermanager_to_protocol = record { accepts = 8; sent = connected 1 ∷ [] };
}

abbrev two_peers : PeerManager
two_peers = record {
  peerid = 3;
  set_all_peers = (2, entry 12) ∷ (1, entry 11) ∷ [];
  set_task_peers = (12, 2) ∷ (11, 1) ∷ [];
  set_id_peers = (12, 2) ∷ (11, 1) ∷ [];
  nonce = 77;
  tx_channel_peermanager_to_protocol = record {
    accepts = 7;
    sent = connected 1 ∷ connected 2 ∷ [];
  };
}

-- The first of the two has ended.
abbrev second_peer : PeerManager
second_peer = record {
  peerid = 2;
  set_all_peers = (2, entry 12) ∷ [];
  set_task_peers = (12, 2) ∷ [];
  set_id_peers = (12, 2) ∷ (11, 1) ∷ [];
  nonce = 77;
  tx_channel_peermanager_to_protocol = record {
    accepts = 6;
    sent = connected 1 ∷ connected 2 ∷ EventsPeerManager.incident_completed_peer 1 ∷ [];
  };
}

abbrev arrival : ℕ → ManagerIncident Panicked
arrival id =
    incident_looplisten (some (EventsLoopListen.incoming_connection socket_home_away away))
      (task_of id)

-- Two connections come in, and the task of the first one panics.
abbrev history : List (ManagerIncident Panicked)
history = arrival 11 ∷ arrival 12 ∷ result_peer 11 (err 11) ∷ []

run_peer_manager-IsCounted_example : IsCounted second_peer
unfolding run_peer_manager manager_step connect_peer add_peer create_peer new_peer_manager run_loop
    send tell_protocol insert remove lookup on_completed finished_peer forget_peer take_task
run_peer_manager-IsCounted_example =
    run_peer_manager-IsCounted Panicked (λ id. id) history 77 open_channel second_peer
      ((tt, omega arith), (((refl, tt), omega arith), ((1, refl, refl), tt))) refl

-- The second of the two has panicked.
abbrev first_peer : PeerManager
first_peer = record {
  peerid = 2;
  set_all_peers = (1, entry 11) ∷ [];
  set_task_peers = (11, 1) ∷ [];
  set_id_peers = (12, 2) ∷ (11, 1) ∷ [];
  nonce = 77;
  tx_channel_peermanager_to_protocol = record {
    accepts = 6;
    sent = connected 1 ∷ connected 2 ∷ EventsPeerManager.incident_completed_peer 2 ∷ [];
  };
}

connect_then_ends_example :
    (first_peer.peerid ≡ 2)
    × (first_peer.set_task_peers ≡ remove 12 one_peer.set_task_peers)
    × (lookup 2 first_peer.set_all_peers ≡ none)
    × (first_peer.tx_channel_peermanager_to_protocol.sent
        ≡ ((connected 1 ∷ []) ++ (connected 2 ∷ []))
          ++ (EventsPeerManager.incident_completed_peer 2 ∷ []))
connect_then_ends_example =
    connect_then_ends Panicked (λ id. id) one_peer two_peers first_peer incoming_connection
      socket_home_away away away home (task_of 12) (err 12) 2 (omega arith)
      (unfold create_peer in refl)
      (unfold connect_peer add_peer create_peer tell_protocol send insert remove in refl) refl
      (unfold on_completed finished_peer forget_peer take_task lookup remove tell_protocol send in
        refl)

-- A connection that was lost before its addresses were read.
abbrev lost_socket : TcpStream
lost_socket = record { peer_addr = err (os_error 107); local_addr = ok home }

connect_peer_fails_example :
    connect_peer Panicked one_peer incoming_connection lost_socket away (task_of 12)
    ≡ continues one_peer
connect_peer_fails_example =
    connect_peer_fails Panicked one_peer incoming_connection lost_socket away (task_of 12)
      (ErrorPeer.error_remote_address (os_error 107)) (omega arith) (unfold create_peer in refl)

-- After the end of the first peer a third one comes in, and gets the id of the second.
abbrev collided : PeerManager
collided = record {
  peerid = 3;
  set_all_peers = (2, entry 13) ∷ [];
  set_task_peers = (13, 2) ∷ (12, 2) ∷ [];
  set_id_peers = (13, 2) ∷ (12, 2) ∷ (11, 1) ∷ [];
  nonce = 77;
  tx_channel_peermanager_to_protocol = record {
    accepts = 5;
    sent =
        connected 1 ∷ connected 2 ∷ EventsPeerManager.incident_completed_peer 1 ∷ connected 2 ∷ [];
  };
}

ids_collide_example :
    (lookup 12 collided.set_task_peers ≡ some 2)
    × (lookup 13 collided.set_task_peers ≡ some 2)
    × (lookup 2 collided.set_all_peers ≡ some (entry 13))
ids_collide_example =
    ids_collide Panicked (λ id. id) two_peers second_peer collided incoming_connection
      socket_home_away away away home (task_of 13) 11 12 1 2 (ok broken_pipe) refl (omega arith)
      (unfold lookup in refl) refl refl
      (unfold on_completed finished_peer forget_peer take_task remove tell_protocol send in refl)
      (unfold create_peer in refl)
      (unfold connect_peer add_peer create_peer tell_protocol send insert remove in refl)

abbrev ack : MessagePayload
ack = verack build_verack_message

on_ready_message_routes_example :
    lookup 2 (on_ready_message two_peers 2 ack).set_all_peers
    ≡ some (after_event (EventsPeerManager.ready_low_message ack) (entry 12))
unfolding lookup send
on_ready_message_routes_example = on_ready_message_routes two_peers 2 2 ack

on_violent_completion_routes_example :
    lookup 1 (on_violent_completion two_peers 2).set_all_peers ≡ some (entry 11)
unfolding lookup
on_violent_completion_routes_example = on_violent_completion_routes two_peers 2 1

bulk_peer_disconnection_all_example :
    lookup 1 (bulk_peer_disconnection two_peers.set_all_peers)
    ≡ some (after_event EventsPeerManager.shutdown (entry 11))
unfolding lookup
bulk_peer_disconnection_all_example = bulk_peer_disconnection_all 1 two_peers.set_all_peers

abbrev reason : EventsCriticalCompletionPeerManager
reason = EventsCriticalCompletionPeerManager.incident_channel_loop_listen_closed

some_left : reason ≢ EventsCriticalCompletionPeerManager.incident_zero_peers
some_left e = cc

abbrev endings : List (ℕ × Result Panicked (PeerId × PeerResult Panicked))
endings = (12, err 12) ∷ (11, ok (1, ok broken_pipe)) ∷ []

end_peer_manager_leaves_example :
    (lookup 1 (end_peer_manager Panicked (λ id. id) two_peers reason endings).0.set_all_peers
      ≡ none)
    × (((end_peer_manager Panicked (λ id. id) two_peers reason endings).1 ≡ ok tt)
        ↔ (reason ≡ EventsCriticalCompletionPeerManager.incident_confirmation_shutdown))
unfolding lookup
end_peer_manager_leaves_example =
    end_peer_manager_leaves (λ id. id) 1 two_peers reason endings some_left

-- A connection, a failed `accept`, and another connection.
abbrev arrivals : List ListenIncident
arrivals =
    result_accept (ok (socket_home_away, away))
    ∷ result_accept (err (os_error 24))
    ∷ result_accept (ok (lost_socket, home))
    ∷ []

abbrev handed_over : List EventsLoopListen
handed_over =
    EventsLoopListen.incoming_connection socket_home_away away
    ∷ EventsLoopListen.incoming_connection lost_socket home
    ∷ []

run_listen_hands_over_example : handed_over ≡ [] ++ handed_over
run_listen_hands_over_example =
    run_listen_hands_over arrivals (ok tt) open_channel (record { accepts = 7; sent = handed_over })
      (unfold run_listen run_loop listen_step hand_over send in refl)
