-- ===== src/Network/Peer.antt =====
-- src/network/peer.rs: the actor of one connection. It passes messages between the peer manager and
-- the two tasks of the socket, and when anything ends it ends the rest and says how it all went.
-- tokio's `JoinError`, the result of a task that panicked, is a parameter.
pub mod Forwarding
use p2p_network_implementati.Prelude.{
  ℕ, List, Option, none, some, Bool, true, false, Result, ok, err, if◌then◌else◌, Flow, continues,
  returns, run_loop,
}
use p2p_network_implementati.Channel.{Sender, send}
use p2p_network_implementati.Network.Errors.{
  ErrorTaskRead, ErrorTaskWrite, SuccessTaskRead, SuccessTaskWrite, SuccessPeer, ErrorPeer,
  successful_task_read_task_write, successful_task_read_broken_pipe_task_write_successful,
}
use p2p_network_implementati.Network.Types.{
  PeerId, MessagePayload, TcpStream, EventsPeer, EventsPeerManager, EventsTaskRead, low_raw_message,
}
use p2p_network_implementati.Network.Wire.{SocketAddr}

-- What awaiting a task gives: its own result, or the error that it did not finish.
abbrev pub JoinRead : Type 0 → Type 0
JoinRead JoinError = Result JoinError (Result ErrorTaskRead SuccessTaskRead)

abbrev pub JoinWrite : Type 0 → Type 0
JoinWrite JoinError = Result JoinError (Result ErrorTaskWrite SuccessTaskWrite)

abbrev pub PeerResult : Type 0 → Type 0
PeerResult JoinError = Result (ErrorPeer JoinError) SuccessPeer

-- `Peer::create`: the addresses that the new peer keeps, the remote one and the local one.
unfoldable pub create_peer :
    {JoinError : Type 0} → TcpStream → Result (ErrorPeer JoinError) (SocketAddr × SocketAddr)
create_peer socket = elim socket.peer_addr [
  | err e ↦ err (ErrorPeer.error_remote_address e)
  | ok remote_address ↦ elim socket.local_addr [
    | err e ↦ err (ErrorPeer.error_local_address e)
    | ok local_address ↦ ok (remote_address, local_address)
  ]
]

pub data EventsCriticalCompletion (JoinError : Type 0) : Type 0 where
  incident_confirmation_shutdown : EventsCriticalCompletion JoinError
  incident_channel_peer_manager_closed : EventsCriticalCompletion JoinError
  incident_channel_task_read_closed : EventsCriticalCompletion JoinError
  incident_channel_task_write_closed : EventsCriticalCompletion JoinError
  incident_complited_task_read :
      Result ErrorTaskRead SuccessTaskRead → EventsCriticalCompletion JoinError
  incident_complited_task_write :
      Result ErrorTaskWrite SuccessTaskWrite → EventsCriticalCompletion JoinError
  incident_join_handle_task_read : JoinError → EventsCriticalCompletion JoinError
  incident_join_handle_task_write : JoinError → EventsCriticalCompletion JoinError

-- The channels that the actor sends on.
pub record PeerChannels : Type 0 where
  pub to_task_read : Sender EventsPeer
  pub to_task_write : Sender EventsPeer
  pub to_peermanager : Sender EventsPeer

-- What `select!` takes up.
pub data PeerIncident (JoinError : Type 0) : Type 0 where
  incident_peermanager : Option EventsPeerManager → PeerIncident JoinError
  incident_task_read : Option EventsTaskRead → PeerIncident JoinError
  result_state_task_read : JoinRead JoinError → PeerIncident JoinError
  result_state_task_write : JoinWrite JoinError → PeerIncident JoinError

module _ (JoinError : Type 0) where
  abbrev pub PeerFlow : Type 0
  PeerFlow = Flow PeerChannels (EventsCriticalCompletion JoinError)

  unfoldable pub send_to_task_write : PeerChannels → MessagePayload → PeerFlow
  send_to_task_write c message =
      let (tx, sent) = send c.to_task_write (EventsPeer.low_level_message message) in
      if sent
      then continues (record c { to_task_write = tx })
      else returns incident_channel_task_write_closed

  unfoldable pub send_to_peermanager : PeerId → PeerChannels → MessagePayload → PeerFlow
  send_to_peermanager peerid c message =
      let (tx, sent) = send c.to_peermanager (EventsPeer.ready_low_message peerid message) in
      if sent
      then continues (record c { to_peermanager = tx })
      else returns incident_channel_peer_manager_closed

  -- One turn of the loop of `Peer::spawn`.
  unfoldable pub peer_step : PeerId → PeerChannels → PeerIncident JoinError → PeerFlow
  peer_step peerid c (incident_peermanager (some (EventsPeerManager.ready_low_message message))) =
      send_to_task_write c message
  peer_step peerid c (incident_peermanager (some EventsPeerManager.shutdown)) =
      returns incident_confirmation_shutdown
  peer_step peerid c (incident_peermanager (some (EventsPeerManager.ready_message p m))) =
      continues c
  peer_step peerid c (incident_peermanager (some (EventsPeerManager.incident_new_connection x))) =
      continues c
  peer_step peerid c (incident_peermanager (some (EventsPeerManager.incident_completed_peer p))) =
      continues c
  peer_step peerid c (incident_peermanager (some EventsPeerManager.incident_completed_all_peer)) =
      continues c
  peer_step peerid c (incident_peermanager none) = returns incident_confirmation_shutdown
  peer_step peerid c (incident_task_read (some (low_raw_message message))) =
      send_to_peermanager peerid c message
  peer_step peerid c (incident_task_read none) = returns incident_channel_task_read_closed
  peer_step peerid c (result_state_task_read (ok result)) =
      returns (incident_complited_task_read result)
  peer_step peerid c (result_state_task_read (err e)) = returns (incident_join_handle_task_read e)
  peer_step peerid c (result_state_task_write (ok result)) =
      returns (incident_complited_task_write result)
  peer_step peerid c (result_state_task_write (err e)) = returns (incident_join_handle_task_write e)

  unfoldable pub run_peer : PeerId → PeerChannels → List (PeerIncident JoinError) → PeerFlow
  run_peer peerid c incidents = run_loop (peer_step peerid) (continues c) incidents
