-- ===== src/Protocol/Thread.antt =====
-- src/protocol/thread_protocol.rs: the thread that runs the message handler. What awaiting the
-- handler's task gives is an argument; `JoinError` (tokio) is a parameter.
pub mod Outcomes
use p2p_network_implementati.Prelude.{
  List, Flow, continues, returns, run_loop, Option, none, some, Result, ok, err,
}
use p2p_network_implementati.Channel.{Sender, send}
use p2p_network_implementati.Network.Types.{
  EventsThreadNetworkProtocol, exit_completion_thread_protocol,
}
use p2p_network_implementati.Network.Thread.{EventsInit}
use p2p_network_implementati.Protocol.Errors.{
  ErrorHandleMessage, ErrorThreadProtocol, error_handle_message, error_join_handle_handle_message,
  EventsThreadProtocol,
}

abbrev pub JoinHandleMessage : Type 0 → Type 0
JoinHandleMessage JoinError = Result JoinError (Result ErrorHandleMessage (Unit {0}))

abbrev pub ProtocolResult : Type 0 → Type 0
ProtocolResult JoinError = Result (ErrorThreadProtocol JoinError) (Unit {0})

pub data EventsCriticalCompletionThreadProtocol (JoinError : Type 0) : Type 0 where
  incident_confirmation_shutdown : EventsCriticalCompletionThreadProtocol JoinError
  incident_channel_init_closed : EventsCriticalCompletionThreadProtocol JoinError
  incident_complited_handle_message :
      Result ErrorHandleMessage (Unit {0}) → EventsCriticalCompletionThreadProtocol JoinError
  incident_join_handle_handle_message : JoinError → EventsCriticalCompletionThreadProtocol JoinError

-- What `select!` takes up; each of these ends the loop.
pub data ProtocolIncident (JoinError : Type 0) : Type 0 where
  incident_init : Option EventsInit → ProtocolIncident JoinError
  result_state_handlemessage : JoinHandleMessage JoinError → ProtocolIncident JoinError

unfoldable pub protocol_critical :
    {JoinError : Type 0}
    → ProtocolIncident JoinError
    → EventsCriticalCompletionThreadProtocol JoinError
protocol_critical (incident_init (some EventsInit.shutdown)) = incident_confirmation_shutdown
protocol_critical (incident_init none) = incident_channel_init_closed
protocol_critical (result_state_handlemessage (ok ok_handlemessage)) =
    incident_complited_handle_message ok_handlemessage
protocol_critical (result_state_handlemessage (err error_handlemessage)) =
    incident_join_handle_handle_message error_handlemessage

-- The loop over what `select!` takes up. It waits in `continues` and ends at the first incident.
unfoldable pub wait_protocol :
    {JoinError : Type 0}
    → List (ProtocolIncident JoinError)
    → Flow (Unit {0}) (EventsCriticalCompletionThreadProtocol JoinError)
wait_protocol incidents =
    run_loop (λ waiting i. returns (protocol_critical i)) (continues tt) incidents

-- The channels of the thread: to its task and to the initial thread.
pub record ProtocolChannels : Type 0 where
  pub tx_channel_from_protocol_to_handlemessage : Sender EventsThreadProtocol
  pub tx_threadnetwork_and_protocol_to_init : Sender EventsThreadNetworkProtocol

unfoldable pub shutdown_handlemessage : ProtocolChannels → ProtocolChannels
shutdown_handlemessage c = record c {
  tx_channel_from_protocol_to_handlemessage =
      (send c.tx_channel_from_protocol_to_handlemessage EventsThreadProtocol.shutdown).0;
}

unfoldable pub notify_exit_protocol : ProtocolChannels → ProtocolChannels
notify_exit_protocol c = record c {
  tx_threadnetwork_and_protocol_to_init =
      (send c.tx_threadnetwork_and_protocol_to_init exit_completion_thread_protocol).0;
}

-- `match result_state_handlemessage`, the same in the first two arms.
unfoldable pub end_awaited :
    {JoinError : Type 0}
    → ProtocolChannels
    → JoinHandleMessage JoinError
    → ProtocolChannels × ProtocolResult JoinError
end_awaited c (ok (ok _)) = (notify_exit_protocol c, ok tt)
end_awaited c (ok (err error)) = (notify_exit_protocol c, err (error_handle_message error))
end_awaited c (err error_joinhandle) =
    (notify_exit_protocol c, err (error_join_handle_handle_message error_joinhandle))

-- The whole `match critical_result_protocolloop`: the channels after it, and the result.
unfoldable pub end_thread_protocol :
    {JoinError : Type 0}
    → ProtocolChannels
    → EventsCriticalCompletionThreadProtocol JoinError
    → JoinHandleMessage JoinError
    → ProtocolChannels × ProtocolResult JoinError
end_thread_protocol c incident_confirmation_shutdown handle =
    end_awaited (shutdown_handlemessage c) handle
end_thread_protocol c incident_channel_init_closed handle =
    end_awaited (shutdown_handlemessage c) handle
end_thread_protocol c (incident_complited_handle_message (ok _)) handle =
    (notify_exit_protocol c, ok tt)
end_thread_protocol c (incident_complited_handle_message (err error_handlemessage)) handle =
    (notify_exit_protocol c, err (error_handle_message error_handlemessage))
end_thread_protocol c (incident_join_handle_handle_message error_joinerror) handle =
    (c, err (error_join_handle_handle_message error_joinerror))
