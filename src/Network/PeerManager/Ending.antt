-- ===== src/Network/PeerManager/Ending.antt =====
-- How `PeerManager::run` of src/network/peermanager.rs ends: the peers are disconnected, their tasks
-- are drained, and the reason becomes a result. `JoinError` and its id (tokio) are parameters.
use p2p_network_implementati.Prelude.{ℕ, List, [], ◌∷◌, none, some, Result, ok, err, Map}
use p2p_network_implementati.Channel.{send}
use p2p_network_implementati.Network.Errors.{ErrorPeerManager}
use p2p_network_implementati.Network.Types.{PeerId, EventsPeerManager}
use p2p_network_implementati.Network.Peer.{PeerResult}
use p2p_network_implementati.Network.PeerManager.{
  PeerSystemMetadata, PeerManager, EventsCriticalCompletionPeerManager,
  incident_confirmation_shutdown, incident_channel_thread_network_closed,
  incident_channel_loop_listen_closed, incident_channel_protocol_closed, incident_zero_peers,
  forget_peer, take_task, finished_peer,
}

-- `bulk_peer_disconnection`: every peer is sent `Shutdown`.
unfoldable pub bulk_peer_disconnection : Map PeerSystemMetadata → Map PeerSystemMetadata
bulk_peer_disconnection [] = []
bulk_peer_disconnection ((peerid, peer) ∷ rest) =
    (
      peerid,
      record peer {
        tx_channel_peermanager_to_peer =
            (send peer.tx_channel_peermanager_to_peer EventsPeerManager.shutdown).0;
      },
    )
    ∷ bulk_peer_disconnection rest

-- What `run` returns for each way out of its loop.
unfoldable pub manager_result :
    EventsCriticalCompletionPeerManager → Result ErrorPeerManager (Unit {0})
manager_result incident_confirmation_shutdown = ok tt
manager_result incident_channel_thread_network_closed =
    err ErrorPeerManager.error_channel_thread_network_closed
manager_result incident_channel_loop_listen_closed =
    err ErrorPeerManager.error_channel_loop_listen_closed
manager_result incident_channel_protocol_closed =
    err ErrorPeerManager.error_channel_handle_message_closed
manager_result incident_zero_peers = err ErrorPeerManager.error_channel_all_peers_closed

module _ (JoinError : Type 0) (error_id : JoinError → ℕ) where
  -- `while let Some(state_peer) = self.set_task_peers.join_next().await`, over the tasks as they end.
  unfoldable pub drain_tasks :
      PeerManager → List (ℕ × Result JoinError (PeerId × PeerResult JoinError)) → PeerManager
  unfolding finished_peer
  drain_tasks s [] = s
  drain_tasks s ((id, result) ∷ rest) =
      let s' = take_task s id in
      drain_tasks
        (elim (finished_peer JoinError error_id s' result) [
          | none ↦ s'
          | some peerid ↦ forget_peer s' peerid
        ])
        rest

  -- The whole `match critical_result_loop`, over the tasks as they end.
  unfoldable pub end_peer_manager :
      PeerManager
      → EventsCriticalCompletionPeerManager
      → List (ℕ × Result JoinError (PeerId × PeerResult JoinError))
      → PeerManager × Result ErrorPeerManager (Unit {0})
  end_peer_manager s incident_zero_peers endings = (s, manager_result incident_zero_peers)
  end_peer_manager s reason endings = (
    drain_tasks (record s { set_all_peers = bulk_peer_disconnection s.set_all_peers }) endings,
    manager_result reason,
  )
