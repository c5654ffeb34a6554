-- ===== src/Protocol/Thread/Outcomes.antt =====
-- What the protocol thread (src/protocol/thread_protocol.rs) tells the initial thread at its end.
use p2p_network_implementati.Prelude.{◌≡◌, refl, ok, err}
use p2p_network_implementati.Channel.{Sender, send}
use p2p_network_implementati.Network.Types.{
  EventsThreadNetworkProtocol, exit_completion_thread_protocol,
}
use p2p_network_implementati.Protocol.Errors.{
  error_handle_message, error_join_handle_handle_message,
}
use p2p_network_implementati.Protocol.Thread.{
  JoinHandleMessage, ProtocolResult, EventsCriticalCompletionThreadProtocol,
  incident_confirmation_shutdown, incident_channel_init_closed, incident_complited_handle_message,
  incident_join_handle_handle_message, ProtocolChannels, shutdown_handlemessage,
  notify_exit_protocol, end_awaited, end_thread_protocol,
}

-- What the thread knows of its task at the end: the result that ended the loop, or the awaited one.
abbrev handler_known :
    {JoinError : Type 0}
    → EventsCriticalCompletionThreadProtocol JoinError
    → JoinHandleMessage JoinError
    → JoinHandleMessage JoinError
handler_known (incident_complited_handle_message result) handle = ok result
handler_known (incident_join_handle_handle_message e) handle = err e
handler_known _ handle = handle

-- The result that reports what became of the task.
abbrev pub result_of : {JoinError : Type 0} → JoinHandleMessage JoinError → ProtocolResult JoinError
result_of (ok (ok _)) = ok tt
result_of (ok (err e)) = err (error_handle_message e)
result_of (err e) = err (error_join_handle_handle_message e)

abbrev pub IsTaskPanic :
    {JoinError : Type 0} → EventsCriticalCompletionThreadProtocol JoinError → Type 0
IsTaskPanic {JoinError = J1} reason = (e : J1) × (reason ≡ incident_join_handle_handle_message e)

-- What becomes of the channel to the initial thread: a notice is sent on it, but where the loop ended
-- because the handler panicked, it stays as it was.
abbrev pub after_notice :
    {JoinError : Type 0}
    → EventsCriticalCompletionThreadProtocol JoinError
    → Sender EventsThreadNetworkProtocol
    → Sender EventsThreadNetworkProtocol
after_notice (incident_join_handle_handle_message e) tx = tx
after_notice _ tx = (send tx exit_completion_thread_protocol).0

end_awaited_lem :
    {JoinError : Type 0} (c : ProtocolChannels) (handle : JoinHandleMessage JoinError)
    → ((end_awaited (shutdown_handlemessage c) handle).1 ≡ result_of handle)
      × ((end_awaited (shutdown_handlemessage c) handle).0.tx_threadnetwork_and_protocol_to_init
          ≡ (send c.tx_threadnetwork_and_protocol_to_init exit_completion_thread_protocol).0)
unfolding end_awaited shutdown_handlemessage notify_exit_protocol
end_awaited_lem c (ok (ok u)) = (refl, refl)
end_awaited_lem c (ok (err e)) = (refl, refl)
end_awaited_lem c (err e) = (refl, refl)

-- However its loop ended, and whatever its channels answer, the result of the protocol thread
-- reports what became of the message handler. On the channel to the initial thread it makes exactly
-- one send, of the notice that it exits, but where its loop ended because the handler panicked: then
-- that channel stays as it was.
pub end_thread_protocol_reports :
    {JoinError : Type 0} (c : ProtocolChannels)
    (reason : EventsCriticalCompletionThreadProtocol JoinError)
    (handle : JoinHandleMessage JoinError)
    → ((end_thread_protocol c reason handle).1 ≡ result_of (handler_known reason handle))
      × ((end_thread_protocol c reason handle).0.tx_threadnetwork_and_protocol_to_init
          ≡ after_notice reason c.tx_threadnetwork_and_protocol_to_init)
unfolding end_thread_protocol notify_exit_protocol
end_thread_protocol_reports c incident_confirmation_shutdown handle = end_awaited_lem c handle
end_thread_protocol_reports c incident_channel_init_closed handle = end_awaited_lem c handle
end_thread_protocol_reports c (incident_complited_handle_message (ok u)) handle = (refl, refl)
end_thread_protocol_reports c (incident_complited_handle_message (err e)) handle = (refl, refl)
end_thread_protocol_reports c (incident_join_handle_handle_message e) handle = (refl, refl)
