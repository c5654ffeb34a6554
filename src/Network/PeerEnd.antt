-- ===== src/Network/PeerEnd.antt =====
-- src/network/peer.rs, the end of `Peer::spawn`: the tasks that still run are told to shut down and
-- awaited, and their results are put together. What awaiting gives is an argument.
pub mod Outcomes
use p2p_network_implementati.Prelude.{Result, ok, err}
use p2p_network_implementati.Channel.{Sender, send}
use p2p_network_implementati.Network.Errors.{
  ErrorTaskRead, ErrorTaskWrite, SuccessTaskRead, SuccessTaskWrite, SuccessPeer, ErrorPeer,
  successful_task_read_task_write, successful_task_read_broken_pipe_task_write_successful,
  error_success_task_read_error_task_write, error_success_task_write_error_task_read,
  error_task_read_task_write, error_success_task_read_error_join_handle_task_write,
  error_success_task_write_error_join_handle_task_read,
  error_task_read_error_join_handle_task_write, error_task_write_error_join_handle_task_read,
  error_join_handle_task_read_task_write, error_success_task_read, error_success_task_write,
  error_task_read_join_handle, error_task_write_join_handle,
}
use p2p_network_implementati.Network.Types.{EventsPeer}
use p2p_network_implementati.Network.Peer.{
  JoinRead, JoinWrite, PeerResult, PeerChannels, EventsCriticalCompletion,
  incident_confirmation_shutdown, incident_channel_peer_manager_closed,
  incident_channel_task_read_closed, incident_channel_task_write_closed,
  incident_complited_task_read, incident_complited_task_write, incident_join_handle_task_read,
  incident_join_handle_task_write,
}

-- `let _ = channel.send(EventsPeer::Shutdown).await;`
unfoldable pub shutdown_task_read : PeerChannels → PeerChannels
shutdown_task_read c = record c { to_task_read = (send c.to_task_read EventsPeer.shutdown).0 }

unfoldable pub shutdown_task_write : PeerChannels → PeerChannels
shutdown_task_write c = record c { to_task_write = (send c.to_task_write EventsPeer.shutdown).0 }

-- `(Ok(success_read), Ok(success_write))`.
unfoldable pub both_successful : {JoinError : Type 0} → SuccessTaskRead → PeerResult JoinError
both_successful SuccessTaskRead.successful = ok successful_task_read_task_write
both_successful SuccessTaskRead.successful_eof =
    ok successful_task_read_broken_pipe_task_write_successful

-- The arms of `IncidentConfirmationShutdown` and of `IncidentChannelPeerManagerClosed`, which are
-- the same but for the log.
unfoldable pub end_both :
    {JoinError : Type 0} → JoinRead JoinError → JoinWrite JoinError → PeerResult JoinError
unfolding both_successful
end_both (ok (ok success_read)) (ok (ok success_write)) = both_successful success_read
end_both (ok (ok success_read)) (ok (err error_write)) =
    err (error_success_task_read_error_task_write success_read error_write)
end_both (ok (err error_read)) (ok (ok success_write)) =
    err (error_success_task_write_error_task_read error_read success_write)
end_both (ok (err error_read)) (ok (err error_write)) =
    err (error_task_read_task_write error_read error_write)
end_both (ok (ok success_read)) (err task_write) =
    err (error_success_task_read_error_join_handle_task_write success_read task_write)
end_both (ok (err error_read)) (err task_write) =
    err (error_task_read_error_join_handle_task_write error_read task_write)
end_both (err task_read) (ok (ok success_write)) =
    err (error_success_task_write_error_join_handle_task_read task_read success_write)
end_both (err task_read) (ok (err error_write)) =
    err (error_task_write_error_join_handle_task_read error_write task_read)
end_both (err task_read) (err task_write) =
    err (error_join_handle_task_read_task_write task_read task_write)

-- `IncidentChannelTaskReadClosed`.
unfoldable pub end_task_read_closed :
    {JoinError : Type 0} → JoinWrite JoinError → PeerResult JoinError
end_task_read_closed (ok (ok success_taskwrite)) = err (error_success_task_write success_taskwrite)
end_task_read_closed (ok (err error_task_write)) = err (ErrorPeer.error_task_write error_task_write)
end_task_read_closed (err error_write) = err (error_task_write_join_handle error_write)

-- `IncidentChannelTaskWriteClosed`.
unfoldable pub end_task_write_closed :
    {JoinError : Type 0} → JoinRead JoinError → PeerResult JoinError
end_task_write_closed (ok (ok success_taskread)) = err (error_success_task_read success_taskread)
end_task_write_closed (ok (err error_taskread)) = err (ErrorPeer.error_task_read error_taskread)
end_task_write_closed (err error_read) = err (error_task_read_join_handle error_read)

-- `IncidentComplitedTaskRead(result_taskread)`.
unfoldable pub end_complited_task_read :
    {JoinError : Type 0}
    → Result ErrorTaskRead SuccessTaskRead
    → JoinWrite JoinError
    → PeerResult JoinError
unfolding both_successful
end_complited_task_read (ok success_read) (ok (ok success_write)) = both_successful success_read
end_complited_task_read (ok success_read) (ok (err error_write)) =
    err (error_success_task_read_error_task_write success_read error_write)
end_complited_task_read (err error_read) (ok (ok success_write)) =
    err (error_success_task_write_error_task_read error_read success_write)
end_complited_task_read (err error_read) (ok (err error_write)) =
    err (error_task_read_task_write error_read error_write)
end_complited_task_read (ok success_taskread) (err task_task_write_error) =
    err
      (error_success_task_read_error_join_handle_task_write success_taskread task_task_write_error)
end_complited_task_read (err error_taskread) (err task_task_write_error) =
    err (error_task_read_error_join_handle_task_write error_taskread task_task_write_error)

-- `IncidentComplitedTaskWrite(result_taskwrite)`.
unfoldable pub end_complited_task_write :
    {JoinError : Type 0}
    → Result ErrorTaskWrite SuccessTaskWrite
    → JoinRead JoinError
    → PeerResult JoinError
unfolding both_successful
end_complited_task_write (ok success_write) (ok (ok success_read)) = both_successful success_read
end_complited_task_write (err error_write) (ok (ok success_read)) =
    err (error_success_task_read_error_task_write success_read error_write)
end_complited_task_write (ok success_write) (ok (err error_read)) =
    err (error_success_task_write_error_task_read error_read success_write)
end_complited_task_write (err error_write) (ok (err error_read)) =
    err (error_task_read_task_write error_read error_write)
end_complited_task_write (ok success_taskwrite) (err task_task_read_error) =
    err
      (error_success_task_write_error_join_handle_task_read task_task_read_error success_taskwrite)
end_complited_task_write (err error_taskwrite) (err task_task_read_error) =
    err (error_task_write_error_join_handle_task_read error_taskwrite task_task_read_error)

-- `IncidentJoinHandleTaskRead(result_joinhandle_task_read)`.
unfoldable pub end_join_handle_task_read :
    {JoinError : Type 0} → JoinError → JoinWrite JoinError → PeerResult JoinError
end_join_handle_task_read e (ok (ok task_taskwrite)) =
    err (error_success_task_write_error_join_handle_task_read e task_taskwrite)
end_join_handle_task_read e (ok (err error_task_taskwrite)) =
    err (error_task_write_error_join_handle_task_read error_task_taskwrite e)
end_join_handle_task_read e (err error_joinhandle_taskwrite) =
    err (error_join_handle_task_read_task_write e error_joinhandle_taskwrite)

-- `IncidentJoinHandleTaskWrite(result_joinhandle_task_write)`.
unfoldable pub end_join_handle_task_write :
    {JoinError : Type 0} → JoinError → JoinRead JoinError → PeerResult JoinError
end_join_handle_task_write e (ok (ok task_read)) =
    err (error_success_task_read_error_join_handle_task_write task_read e)
end_join_handle_task_write e (ok (err error_task_read)) =
    err (error_task_read_error_join_handle_task_write error_task_read e)
end_join_handle_task_write e (err error_joinhandle_taskread) =
    err (error_join_handle_task_read_task_write error_joinhandle_taskread e)

-- The whole `match critical_result_loop`: the channels after the shutdown events, and the result.
unfoldable pub end_peer :
    {JoinError : Type 0}
    → PeerChannels
    → EventsCriticalCompletion JoinError
    → JoinRead JoinError
    → JoinWrite JoinError
    → PeerChannels × PeerResult JoinError
end_peer c incident_confirmation_shutdown read write =
    (shutdown_task_write (shutdown_task_read c), end_both read write)
end_peer c incident_channel_peer_manager_closed read write =
    (shutdown_task_write (shutdown_task_read c), end_both read write)
end_peer c incident_channel_task_read_closed read write =
    (shutdown_task_write c, end_task_read_closed write)
end_peer c incident_channel_task_write_closed read write =
    (shutdown_task_read c, end_task_write_closed read)
end_peer c (incident_complited_task_read result) read write =
    (shutdown_task_write c, end_complited_task_read result write)
end_peer c (incident_complited_task_write result) read write =
    (shutdown_task_read c, end_complited_task_write result read)
end_peer c (incident_join_handle_task_read e) read write =
    (shutdown_task_write c, end_join_handle_task_read e write)
end_peer c (incident_join_handle_task_write e) read write =
    (shutdown_task_read c, end_join_handle_task_write e read)
