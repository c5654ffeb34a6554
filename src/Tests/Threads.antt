-- ===== src/Tests/Threads.antt =====
-- The theorems on the ends of the threads, at concrete results.
use p2p_network_implementati.Prelude.{ℕ, [], ◌∷◌, ◌++◌, ◌≡◌, ◌≢◌, refl, some, Result, ok, err}
use p2p_network_implementati.Network.Errors.{ErrorPeerManager, ErrorThreadNetwork}
use p2p_network_implementati.Network.Types.{
  exit_completion_thread_network, exit_completion_thread_protocol,
}
use p2p_network_implementati.Network.Thread.{
  EventsInit, JoinPeerManager, JoinLoopListen, ThreadResult, EventsCriticalCompletionThreadNetwork,
  incident_complited_peer_manager, incident_complited_loop_listen, network_result,
  end_complited_peer_manager, NetworkChannels, end_thread_network,
}
use p2p_network_implementati.Network.Thread.Outcomes.{
  network_result_order, network_result-ok, network_result_loses, end_thread_network_notifies,
}
use p2p_network_implementati.Protocol.Errors.{ErrorThreadProtocol}
use p2p_network_implementati.Protocol.Thread.{
  ProtocolResult, ProtocolChannels, EventsCriticalCompletionThreadProtocol, end_thread_protocol,
}
use p2p_network_implementati.Protocol.Thread.Outcomes.{end_thread_protocol_reports, IsTaskPanic}
use p2p_network_implementati.Init.{InitChannels, wait_for_exit, run_init, init_result}
use p2p_network_implementati.Init.Outcomes.{
  threads_of-init_result, threads_of, wait_for_exit_shuts_down,
}
use p2p_network_implementati.Prelude.{returns}
use p2p_network_implementati.Protocol.Errors.{ErrorHandleMessage}
use p2p_network_implementati.Channel.{Sender}
use p2p_network_implementati.Network.Errors.{os_error}
use p2p_network_implementati.Network.PeerManager.{
  incident_confirmation_shutdown, new_peer_manager, run_peer_manager,
}
use p2p_network_implementati.Network.LoopListen.{run_listen}
use p2p_network_implementati.Network.Thread.{wait_network}
use p2p_network_implementati.Protocol.Thread.{wait_protocol}
use p2p_network_implementati.Protocol.HandleMessage.{new_handle_message, run_handle_message}
use p2p_network_implementati.Init.Shutdown.{
  notices, orders_protocol, orders_network, told_handler, told_manager, told_listener,
  network_exit_stops_protocol, protocol_exit_stops_network,
}
use p2p_network_implementati.Tests.Data.{open_channel}

-- A `JoinError`, as the id of its task.
abbrev Panicked : Type 0
Panicked = ℕ

abbrev manager_gone : ErrorPeerManager
manager_gone = ErrorPeerManager.error_channel_loop_listen_closed

abbrev Reason : Type 0
Reason = EventsCriticalCompletionThreadNetwork Panicked

abbrev told : Reason
told = EventsCriticalCompletionThreadNetwork.incident_confirmation_shutdown

abbrev disconnected : Reason
disconnected = EventsCriticalCompletionThreadNetwork.incident_channel_init_closed

network_result_order_example :
    (network_result {JoinError = Panicked}
        (incident_complited_peer_manager (err manager_gone))
        (err 1)
        (ok (ok tt))
      ≡ network_result told (ok (err manager_gone)) (ok (ok tt)))
    × (network_result {JoinError = Panicked}
          (incident_complited_loop_listen (ok tt))
          (ok (err manager_gone))
          (err 2)
        ≡ network_result told (ok (err manager_gone)) (ok (ok tt)))
    × (network_result disconnected (ok (err manager_gone)) (ok (ok tt))
        ≡ network_result told (ok (err manager_gone)) (ok (ok tt)))
network_result_order_example = network_result_order (err manager_gone) (ok tt) (err 1) (err 2)

abbrev fine_manager : JoinPeerManager Panicked
fine_manager = ok (ok tt)

abbrev fine_listener : JoinLoopListen Panicked
fine_listener = ok (ok tt)

network_result-ok_example : (fine_manager ≡ ok (ok tt)) × (fine_listener ≡ ok (ok tt))
network_result-ok_example =
    network_result-ok {JoinError = Panicked} (incident_complited_peer_manager (ok tt)) (err 4)
      fine_listener (unfold network_result end_complited_peer_manager in refl)

network_result_loses_example :
    (network_result {JoinError = Panicked}
        (incident_complited_peer_manager (err manager_gone))
        (err 1)
        (err 2)
      ≡ network_result (incident_complited_peer_manager (ok tt)) (err 1) (err 2))
    × (network_result told (ok (err manager_gone)) (err 2)
        ≢ network_result told (ok (ok tt)) (err 2))
network_result_loses_example = network_result_loses manager_gone 2 (err 1)

abbrev network_channels : NetworkChannels
network_channels = record {
  tx_channel_network_to_peermanager = open_channel;
  tx_channel_network_to_looplisten = record { accepts = 0; sent = [] };
  tx_threadnetwork_and_protocol_to_init = open_channel;
}

end_thread_network_notifies_example :
    (end_thread_network network_channels told
      (err 1)
      fine_listener).0.tx_threadnetwork_and_protocol_to_init.sent
    ≡ [] ++ (exit_completion_thread_network ∷ [])
end_thread_network_notifies_example =
    end_thread_network_notifies 8 network_channels told (err 1) fine_listener refl

abbrev protocol_channels : ProtocolChannels
protocol_channels = record {
  tx_channel_from_protocol_to_handlemessage = open_channel;
  tx_threadnetwork_and_protocol_to_init = open_channel;
}

abbrev handler_panicked : EventsCriticalCompletionThreadProtocol Panicked
handler_panicked = EventsCriticalCompletionThreadProtocol.incident_join_handle_handle_message 7

abbrev protocol_end : ProtocolChannels × ProtocolResult Panicked
protocol_end = end_thread_protocol protocol_channels handler_panicked (ok (ok tt))

end_thread_protocol_reports_example :
    (protocol_end.1 ≡ err (ErrorThreadProtocol.error_join_handle_handle_message 7))
    × (protocol_end.0.tx_threadnetwork_and_protocol_to_init ≡ open_channel)
end_thread_protocol_reports_example =
    end_thread_protocol_reports protocol_channels handler_panicked (ok (ok tt))

abbrev network_failed : Result ℕ (ThreadResult Panicked)
network_failed = ok (err (ErrorThreadNetwork.error_peer_manager manager_gone))

abbrev protocol_panicked : Result ℕ (ProtocolResult Panicked)
protocol_panicked = err 99

threads_of-init_result_example :
    threads_of (init_result network_failed protocol_panicked) ≡ (network_failed, protocol_panicked)
threads_of-init_result_example = threads_of-init_result network_failed protocol_panicked

abbrev init_channels : InitChannels
init_channels = record {
  tx_channel_init_to_network = open_channel;
  tx_channel_init_to_protocol = open_channel;
}

wait_for_exit_shuts_down_example :
    ((wait_for_exit init_channels
        (some exit_completion_thread_protocol)).tx_channel_init_to_network.sent
      ≡ [] ++ (EventsInit.shutdown ∷ []))
    × ((wait_for_exit init_channels
          (some exit_completion_thread_protocol)).tx_channel_init_to_protocol
        ≡ open_channel)
wait_for_exit_shuts_down_example =
    wait_for_exit_shuts_down 8 init_channels exit_completion_thread_protocol refl

abbrev two_left : {E : Type 0} → Sender E
two_left = record { accepts = 2; sent = [] }

abbrev watched_network : NetworkChannels
watched_network = record {
  tx_channel_network_to_peermanager = two_left;
  tx_channel_network_to_looplisten = two_left;
  tx_threadnetwork_and_protocol_to_init = two_left;
}

abbrev watched_protocol : ProtocolChannels
watched_protocol = record {
  tx_channel_from_protocol_to_handlemessage = two_left;
  tx_threadnetwork_and_protocol_to_init = two_left;
}

abbrev watching : InitChannels
watching = record { tx_channel_init_to_network = two_left; tx_channel_init_to_protocol = two_left }

abbrev stop_handler : EventsCriticalCompletionThreadProtocol Panicked
stop_handler = EventsCriticalCompletionThreadProtocol.incident_confirmation_shutdown

network_exit_stops_protocol_example :
    let exited =
      (end_thread_network {JoinError = Panicked} watched_network
        (incident_complited_peer_manager (err manager_gone))
        (err 1)
        fine_listener).0 in
    let told = wait_for_exit watching (some exit_completion_thread_network) in
    let stopped = (end_thread_protocol watched_protocol stop_handler (ok (ok tt))).0 in
    (run_init watching (notices exited.tx_threadnetwork_and_protocol_to_init.sent) ≡ returns told)
    × (wait_protocol (orders_protocol told.tx_channel_init_to_protocol.sent) ≡ returns stop_handler)
    × (run_handle_message
          (new_handle_message open_channel)
          (told_handler stopped.tx_channel_from_protocol_to_handlemessage.sent)
        ≡ returns (ok tt))
network_exit_stops_protocol_example =
    network_exit_stops_protocol 1 1 1 watched_network watching watched_protocol
      (new_handle_message open_channel) (incident_complited_peer_manager (err manager_gone)) (err 1)
      fine_listener (ok (ok tt)) refl refl refl

abbrev handler_gone : EventsCriticalCompletionThreadProtocol Panicked
handler_gone =
    EventsCriticalCompletionThreadProtocol.incident_complited_handle_message
      (err ErrorHandleMessage.error_channel_peer_manager_closed)

no_panic : IsTaskPanic handler_gone → ⊥
no_panic (e, p) = cc

protocol_exit_stops_network_example :
    let exited = (end_thread_protocol watched_protocol handler_gone (err 3)).0 in
    let asked = wait_for_exit watching (some exit_completion_thread_protocol) in
    let stopped = (end_thread_network watched_network told fine_manager fine_listener).0 in
    (run_init watching (notices exited.tx_threadnetwork_and_protocol_to_init.sent) ≡ returns asked)
    × (wait_network (orders_network asked.tx_channel_init_to_network.sent) ≡ returns told)
    × (run_peer_manager Panicked
          (λ id. id)
          (new_peer_manager 77 open_channel)
          (told_manager
            (err (os_error 111))
            (record { id = 1; accepts = 1 })
            stopped.tx_channel_network_to_peermanager.sent)
        ≡ returns incident_confirmation_shutdown)
    × (run_listen (ok tt) open_channel (told_listener stopped.tx_channel_network_to_looplisten.sent)
        ≡ returns (ok tt))
protocol_exit_stops_network_example =
    protocol_exit_stops_network (λ id. id) 1 1 1 1 watched_protocol watching watched_network
      (new_peer_manager 77 open_channel) open_channel (err (os_error 111))
      (record { id = 1; accepts = 1 }) handler_gone (err 3) fine_manager fine_listener no_panic refl
      refl refl refl
