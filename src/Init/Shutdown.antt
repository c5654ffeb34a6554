-- ===== src/Init/Shutdown.antt =====
-- How the end of one thread ends the other: src/main.rs with src/network/thread_network.rs,
-- src/protocol/thread_protocol.rs and the loops of their tasks.
use p2p_network_implementati.Prelude.{
  ℕ, suc, ◌≡◌, refl, ap, ◌∙◌, List, [], ◌∷◌, ◌++◌, Option, some, Result, ok, err, returns, run_loop,
}
use p2p_network_implementati.Channel.{Sender, send}
use p2p_network_implementati.Network.Errors.{IoError}
use p2p_network_implementati.Network.Types.{
  EventsThreadNetwork, EventsThreadNetworkProtocol, exit_completion_thread_network,
  exit_completion_thread_protocol, EventsLoopListen, TcpStream,
}
use p2p_network_implementati.Network.PeerManager.{
  PeerManager, NewTask, ManagerIncident, incident_confirmation_shutdown, manager_step,
  run_peer_manager,
}
use p2p_network_implementati.Network.LoopListen.{ListenIncident, listen_step, run_listen}
use p2p_network_implementati.Network.Thread.{
  EventsInit, JoinPeerManager, JoinLoopListen, EventsCriticalCompletionThreadNetwork,
  NetworkIncident, network_critical, wait_network, NetworkChannels, shutdown_peermanager,
  shutdown_looplisten, network_shutdowns, notify_exit_network, end_thread_network,
}
use p2p_network_implementati.Network.Thread.Outcomes.{end_thread_network_notifies}
use p2p_network_implementati.Protocol.Errors.{EventsThreadProtocol}
use p2p_network_implementati.Protocol.HandleMessage.{
  HandleMessage, HandleIncident, incident_thread_protocol, handle_step, run_handle_message,
}
use p2p_network_implementati.Protocol.Thread.{
  JoinHandleMessage, EventsCriticalCompletionThreadProtocol, ProtocolIncident, protocol_critical,
  wait_protocol, ProtocolChannels, shutdown_handlemessage, notify_exit_protocol, end_awaited,
  end_thread_protocol,
}
use p2p_network_implementati.Protocol.Thread.Outcomes.{
  end_thread_protocol_reports, IsTaskPanic, after_notice,
}
use p2p_network_implementati.Init.{InitChannels, wait_for_exit, run_init}

-- The events sent to a thread, as what its `recv` answers; where none was sent, there is no answer.
abbrev pub notices : List EventsThreadNetworkProtocol → List (Option EventsThreadNetworkProtocol)
notices [] = []
notices (event ∷ events) = some event ∷ notices events

abbrev pub orders_protocol :
    {JoinError : Type 0} → List EventsInit → List (ProtocolIncident JoinError)
orders_protocol [] = []
orders_protocol (event ∷ events) =
    ProtocolIncident.incident_init (some event) ∷ orders_protocol events

abbrev pub orders_network :
    {JoinError : Type 0} → List EventsInit → List (NetworkIncident JoinError)
orders_network [] = []
orders_network (event ∷ events) = NetworkIncident.incident_init (some event) ∷ orders_network events

-- The events of a thread as its task takes them up.
abbrev pub told_handler : List EventsThreadProtocol → List HandleIncident
told_handler [] = []
told_handler (event ∷ events) = incident_thread_protocol (some event) ∷ told_handler events

awaited_keeps :
    {JoinError : Type 0} (c : ProtocolChannels) (handle : JoinHandleMessage JoinError)
    → (end_awaited c handle).0.tx_channel_from_protocol_to_handlemessage
      ≡ c.tx_channel_from_protocol_to_handlemessage
unfolding end_awaited notify_exit_protocol
awaited_keeps c (ok (ok u)) = refl
awaited_keeps c (ok (err e)) = refl
awaited_keeps c (err e) = refl

shuts_handler_down :
    {JoinError : Type 0} (n : ℕ) (c : ProtocolChannels) (handle : JoinHandleMessage JoinError)
    → c.tx_channel_from_protocol_to_handlemessage ≡ record { accepts = suc n; sent = [] }
    → (end_thread_protocol c EventsCriticalCompletionThreadProtocol.incident_confirmation_shutdown
        handle).0.tx_channel_from_protocol_to_handlemessage.sent
      ≡ EventsThreadProtocol.shutdown ∷ []
unfolding end_thread_protocol shutdown_handlemessage send
shuts_handler_down n c handle fresh =
    ap (λ tx. tx.sent) (awaited_keeps (shutdown_handlemessage c) handle) ∙ rw fresh refl

-- When the network thread ends, however its loop ended, and each of the channels on the way is fresh
-- and open: its notice ends the wait of the initial thread; what that then has sent to the protocol
-- thread ends the loop of that thread as a confirmed shutdown; and what that then sends to the message
-- handler ends its loop with `Ok`.
pub network_exit_stops_protocol :
    {JoinError : Type 0} (n m k : ℕ) (network : NetworkChannels) (init : InitChannels)
    (protocol : ProtocolChannels) (handler : HandleMessage)
    (reason : EventsCriticalCompletionThreadNetwork JoinError) (pm : JoinPeerManager JoinError)
    (ll : JoinLoopListen JoinError) (handle : JoinHandleMessage JoinError)
    → network.tx_threadnetwork_and_protocol_to_init ≡ record { accepts = suc n; sent = [] }
    → init.tx_channel_init_to_protocol ≡ record { accepts = suc m; sent = [] }
    → protocol.tx_channel_from_protocol_to_handlemessage ≡ record { accepts = suc k; sent = [] }
    → let exited = (end_thread_network network reason pm ll).0 in
      let told = wait_for_exit init (some exit_completion_thread_network) in
      let confirmed : EventsCriticalCompletionThreadProtocol JoinError =
        EventsCriticalCompletionThreadProtocol.incident_confirmation_shutdown in
      let stopped = (end_thread_protocol protocol confirmed handle).0 in
      (run_init init (notices exited.tx_threadnetwork_and_protocol_to_init.sent) ≡ returns told)
      × (wait_protocol (orders_protocol told.tx_channel_init_to_protocol.sent) ≡ returns confirmed)
      × (run_handle_message handler
            (told_handler stopped.tx_channel_from_protocol_to_handlemessage.sent)
          ≡ returns (ok tt))
network_exit_stops_protocol n m k network init protocol handler reason pm ll handle open_n open_i
      open_p =
    (
      ap (λ sent. run_init init (notices sent)) notices_are ∙ unfold run_init run_loop in refl,
      ap (λ sent. wait_protocol (orders_protocol sent)) orders_are
          ∙ unfold wait_protocol run_loop protocol_critical in refl,
      ap (λ events. run_handle_message handler (told_handler events))
            (shuts_handler_down k protocol handle open_p)
          ∙ unfold run_handle_message run_loop handle_step in refl,
    )
  where
    notices_are :
        (end_thread_network network reason pm ll).0.tx_threadnetwork_and_protocol_to_init.sent
        ≡ exit_completion_thread_network ∷ []
    notices_are =
        end_thread_network_notifies n network reason pm ll (ap (λ tx. tx.accepts) open_n)
        ∙ ap (λ tx. tx.sent ++ (exit_completion_thread_network ∷ [])) open_n

    orders_are :
        (wait_for_exit init (some exit_completion_thread_network)).tx_channel_init_to_protocol.sent
        ≡ EventsInit.shutdown ∷ []
    orders_are = unfold wait_for_exit send in rw open_i refl

-- The events of the network thread as its two tasks take them up.
abbrev pub told_manager :
    {JoinError : Type 0}
    → Result IoError TcpStream
    → NewTask
    → List EventsThreadNetwork
    → List (ManagerIncident JoinError)
told_manager connected task [] = []
told_manager connected task (event ∷ events) =
    ManagerIncident.incident_thread_network (some event) connected task
    ∷ told_manager connected task events

abbrev pub told_listener : List EventsThreadNetwork → List ListenIncident
told_listener [] = []
told_listener (event ∷ events) =
    ListenIncident.incident_thread_network (some event) ∷ told_listener events

module _ {JoinError : Type 0} (k l : ℕ) (c : NetworkChannels) (pm : JoinPeerManager JoinError)
    (ll : JoinLoopListen JoinError)
    (fresh_pm : c.tx_channel_network_to_peermanager ≡ record { accepts = suc k; sent = [] })
    (fresh_ll : c.tx_channel_network_to_looplisten ≡ record { accepts = suc l; sent = [] }) where
  abbrev told_to_stop : NetworkChannels
  told_to_stop =
      (end_thread_network c EventsCriticalCompletionThreadNetwork.incident_confirmation_shutdown pm
        ll).0

  shuts_manager_down :
      told_to_stop.tx_channel_network_to_peermanager.sent ≡ EventsThreadNetwork.shutdown ∷ []
  unfolding end_thread_network notify_exit_network network_shutdowns shutdown_peermanager
      shutdown_looplisten send
  shuts_manager_down = rw fresh_pm refl

  shuts_listener_down :
      told_to_stop.tx_channel_network_to_looplisten.sent ≡ EventsThreadNetwork.shutdown ∷ []
  unfolding end_thread_network notify_exit_network network_shutdowns shutdown_peermanager
      shutdown_looplisten send
  shuts_listener_down = rw fresh_ll refl

notice_lem :
    {JoinError : Type 0} (n : ℕ) (reason : EventsCriticalCompletionThreadProtocol JoinError)
    (tx : Sender EventsThreadNetworkProtocol)
    → (IsTaskPanic reason → ⊥)
    → tx ≡ record { accepts = suc n; sent = [] }
    → (after_notice reason tx).sent ≡ exit_completion_thread_protocol ∷ []
unfolding send
notice_lem n EventsCriticalCompletionThreadProtocol.incident_confirmation_shutdown tx no_panic e =
    rw e refl
notice_lem n EventsCriticalCompletionThreadProtocol.incident_channel_init_closed tx no_panic e =
    rw e refl
notice_lem n (EventsCriticalCompletionThreadProtocol.incident_complited_handle_message r) tx
      no_panic e =
    rw e refl
notice_lem n (EventsCriticalCompletionThreadProtocol.incident_join_handle_handle_message j) tx
      no_panic e =
    absurd (no_panic (j, refl))

-- When the protocol thread ends, though not by a panic of its handler, and each of the channels on the
-- way is fresh and open: its notice ends the wait of the initial thread; what that then has sent to the
-- network thread ends the loop of that thread as a confirmed shutdown; and what that then sends to the
-- peer manager and to the listener ends the loop of each, as a confirmed shutdown and with `Ok`.
pub protocol_exit_stops_network :
    {JoinError : Type 0} (error_id : JoinError → ℕ) (n m k l : ℕ) (protocol : ProtocolChannels)
    (init : InitChannels) (network : NetworkChannels) (manager : PeerManager)
    (tx : Sender EventsLoopListen) (connected : Result IoError TcpStream) (task : NewTask)
    (reason : EventsCriticalCompletionThreadProtocol JoinError)
    (handle : JoinHandleMessage JoinError) (pm : JoinPeerManager JoinError)
    (ll : JoinLoopListen JoinError)
    → (IsTaskPanic reason → ⊥)
    → protocol.tx_threadnetwork_and_protocol_to_init ≡ record { accepts = suc n; sent = [] }
    → init.tx_channel_init_to_network ≡ record { accepts = suc m; sent = [] }
    → network.tx_channel_network_to_peermanager ≡ record { accepts = suc k; sent = [] }
    → network.tx_channel_network_to_looplisten ≡ record { accepts = suc l; sent = [] }
    → let exited = (end_thread_protocol protocol reason handle).0 in
      let told = wait_for_exit init (some exit_completion_thread_protocol) in
      let confirmed : EventsCriticalCompletionThreadNetwork JoinError =
        EventsCriticalCompletionThreadNetwork.incident_confirmation_shutdown in
      let stopped = (end_thread_network network confirmed pm ll).0 in
      (run_init init (notices exited.tx_threadnetwork_and_protocol_to_init.sent) ≡ returns told)
      × (wait_network (orders_network told.tx_channel_init_to_network.sent) ≡ returns confirmed)
      × (run_peer_manager JoinError error_id manager
            (told_manager connected task stopped.tx_channel_network_to_peermanager.sent)
          ≡ returns incident_confirmation_shutdown)
      × (run_listen (ok tt) tx (told_listener stopped.tx_channel_network_to_looplisten.sent)
          ≡ returns (ok tt))
protocol_exit_stops_network {JoinError = JE} error_id n m k l protocol init network manager tx
      connected task reason handle pm ll no_panic open_p open_i open_pm open_ll =
    (
      ap (λ sent. run_init init (notices sent)) notices_are ∙ unfold run_init run_loop in refl,
      ap (λ sent. wait_network (orders_network sent)) orders_are
          ∙ unfold wait_network run_loop network_critical in refl,
      ap (λ events. run_peer_manager JE error_id manager (told_manager connected task events))
            (shuts_manager_down k l network pm ll open_pm open_ll)
          ∙ unfold run_peer_manager run_loop manager_step in refl,
      ap (λ events. run_listen (ok tt) tx (told_listener events))
            (shuts_listener_down k l network pm ll open_pm open_ll)
          ∙ unfold run_listen run_loop listen_step in refl,
    )
  where
    notices_are :
        (end_thread_protocol protocol reason handle).0.tx_threadnetwork_and_protocol_to_init.sent
        ≡ exit_completion_thread_protocol ∷ []
    notices_are =
        ap (λ t. t.sent) (end_thread_protocol_reports protocol reason handle).1
        ∙ notice_lem n reason protocol.tx_threadnetwork_and_protocol_to_init no_panic open_p

    orders_are :
        (wait_for_exit init (some exit_completion_thread_protocol)).tx_channel_init_to_network.sent
        ≡ EventsInit.shutdown ∷ []
    orders_are = unfold wait_for_exit send in rw open_i refl
