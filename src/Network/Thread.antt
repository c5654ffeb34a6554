-- ===== src/Network/Thread.antt =====
-- src/network/thread_network.rs: the thread that runs the peer manager and the listener. What
-- awaiting the two tasks gives is an argument; `JoinError` (tokio) is a parameter.
pub mod Outcomes
use p2p_network_implementati.Prelude.{
  List, Flow, continues, returns, run_loop, Option, none, some, Result, ok, err,
}
use p2p_network_implementati.Channel.{Sender, send}
use p2p_network_implementati.Network.Errors.{
  ErrorPeerManager, ErrorLoopListen, ErrorThreadNetwork, error_peer_manager, error_loop_listen,
  error_peer_manager_error_loop_listen, error_peer_manager_join_handle_loop_listen,
  error_loop_listen_join_handle_peer_manager, error_peer_manager_join_handle,
  error_loop_listen_join_handle, error_peer_manager_error_loop_listen_join_handle,
}
use p2p_network_implementati.Network.Types.{
  EventsThreadNetwork, EventsThreadNetworkProtocol, exit_completion_thread_network,
}

abbrev pub JoinPeerManager : Type 0 → Type 0
JoinPeerManager JoinError = Result JoinError (Result ErrorPeerManager (Unit {0}))

abbrev pub JoinLoopListen : Type 0 → Type 0
JoinLoopListen JoinError = Result JoinError (Result ErrorLoopListen (Unit {0}))

abbrev pub ThreadResult : Type 0 → Type 0
ThreadResult JoinError = Result (ErrorThreadNetwork JoinError) (Unit {0})

pub data EventsInit : Type 0 where
  shutdown : EventsInit

pub data EventsCriticalCompletionThreadNetwork (JoinError : Type 0) : Type 0 where
  incident_confirmation_shutdown : EventsCriticalCompletionThreadNetwork JoinError
  incident_channel_init_closed : EventsCriticalCompletionThreadNetwork JoinError
  incident_complited_peer_manager :
      Result ErrorPeerManager (Unit {0}) → EventsCriticalCompletionThreadNetwork JoinError
  incident_complited_loop_listen :
      Result ErrorLoopListen (Unit {0}) → EventsCriticalCompletionThreadNetwork JoinError
  incident_join_handle_peer_manager : JoinError → EventsCriticalCompletionThreadNetwork JoinError
  incident_join_handle_loop_listen : JoinError → EventsCriticalCompletionThreadNetwork JoinError

-- What `select!` takes up; each of these ends the loop.
pub data NetworkIncident (JoinError : Type 0) : Type 0 where
  incident_init : Option EventsInit → NetworkIncident JoinError
  result_state_peermanager : JoinPeerManager JoinError → NetworkIncident JoinError
  result_state_looplisten : JoinLoopListen JoinError → NetworkIncident JoinError

unfoldable pub network_critical :
    {JoinError : Type 0}
    → NetworkIncident JoinError
    → EventsCriticalCompletionThreadNetwork JoinError
network_critical (incident_init (some shutdown)) = incident_confirmation_shutdown
network_critical (incident_init none) = incident_channel_init_closed
network_critical (result_state_peermanager (ok result)) = incident_complited_peer_manager result
network_critical (result_state_peermanager (err e)) = incident_join_handle_peer_manager e
network_critical (result_state_looplisten (ok result)) = incident_complited_loop_listen result
network_critical (result_state_looplisten (err e)) = incident_join_handle_loop_listen e

-- The loop over what `select!` takes up. It waits in `continues` and ends at the first incident.
unfoldable pub wait_network :
    {JoinError : Type 0}
    → List (NetworkIncident JoinError)
    → Flow (Unit {0}) (EventsCriticalCompletionThreadNetwork JoinError)
wait_network incidents =
    run_loop (λ waiting i. returns (network_critical i)) (continues tt) incidents

-- The arms of `IncidentConfirmationShutdown` and `IncidentChannelInitClosed`, the same but for the
-- log.
unfoldable pub join_tasks :
    {JoinError : Type 0}
    → JoinPeerManager JoinError
    → JoinLoopListen JoinError
    → ThreadResult JoinError
join_tasks (ok (ok _)) (ok (ok _)) = ok tt
join_tasks (ok (ok _)) (ok (err error_looplisten)) = err (error_loop_listen error_looplisten)
join_tasks (ok (err error_peermanager)) (ok (ok _)) = err (error_peer_manager error_peermanager)
join_tasks (ok (err error_peermanager)) (ok (err error_looplisten)) =
    err (error_peer_manager_error_loop_listen error_peermanager error_looplisten)
join_tasks (ok (ok _)) (err error_joinhandle_looplisten) =
    err (error_loop_listen_join_handle error_joinhandle_looplisten)
join_tasks (ok (err error_pm)) (err error_joinhandle_looplisten) =
    err (error_peer_manager_join_handle_loop_listen error_pm error_joinhandle_looplisten)
join_tasks (err error_joinhandle_peermanager) (ok (ok _)) =
    err (error_peer_manager_join_handle error_joinhandle_peermanager)
join_tasks (err error_joinhandle_peermanager) (ok (err error_ll)) =
    err (error_loop_listen_join_handle_peer_manager error_ll error_joinhandle_peermanager)
join_tasks (err error_joinhandle_peermanager) (err error_joinhandle_looplisten) = err (
    error_peer_manager_error_loop_listen_join_handle error_joinhandle_peermanager
      error_joinhandle_looplisten)

-- `IncidentComplitedPeerManager(result_peermanager)`.
unfoldable pub end_complited_peer_manager :
    {JoinError : Type 0}
    → Result ErrorPeerManager (Unit {0})
    → JoinLoopListen JoinError
    → ThreadResult JoinError
end_complited_peer_manager (ok _) (ok (ok _)) = ok tt
end_complited_peer_manager (ok _) (ok (err error_ll)) = err (error_loop_listen error_ll)
end_complited_peer_manager (err error_pm) (ok (ok _)) = err (error_peer_manager error_pm)
end_complited_peer_manager (err error_pm) (ok (err error_ll)) =
    err (error_peer_manager_error_loop_listen error_pm error_ll)
end_complited_peer_manager (ok _) (err error_looplisten) =
    err (error_loop_listen_join_handle error_looplisten)
end_complited_peer_manager (err error_pm) (err error_looplisten) =
    err (error_loop_listen_join_handle error_looplisten)

-- `IncidentComplitedLoopListen(result_looplisten)`.
unfoldable pub end_complited_loop_listen :
    {JoinError : Type 0}
    → Result ErrorLoopListen (Unit {0})
    → JoinPeerManager JoinError
    → ThreadResult JoinError
end_complited_loop_listen (ok _) (ok (ok _)) = ok tt
end_complited_loop_listen (err error_looplisten) (ok (ok _)) =
    err (error_loop_listen error_looplisten)
end_complited_loop_listen (ok _) (ok (err error_peermanager)) =
    err (error_peer_manager error_peermanager)
end_complited_loop_listen (err error_looplisten) (ok (err error_peermanager)) =
    err (error_peer_manager_error_loop_listen error_peermanager error_looplisten)
end_complited_loop_listen (ok _) (err error_peermanager) =
    err (error_peer_manager_join_handle error_peermanager)
end_complited_loop_listen (err error_looplisten) (err error_peermanager) =
    err (error_peer_manager_join_handle error_peermanager)

-- The result that `match critical_result_networkloop` gives.
unfoldable pub network_result :
    {JoinError : Type 0}
    → EventsCriticalCompletionThreadNetwork JoinError
    → JoinPeerManager JoinError
    → JoinLoopListen JoinError
    → ThreadResult JoinError
network_result incident_confirmation_shutdown pm ll = join_tasks pm ll
network_result incident_channel_init_closed pm ll = join_tasks pm ll
network_result (incident_complited_peer_manager result) pm ll = end_complited_peer_manager result ll
network_result (incident_complited_loop_listen result) pm ll = end_complited_loop_listen result pm
network_result (incident_join_handle_peer_manager e) pm ll = err (error_peer_manager_join_handle e)
network_result (incident_join_handle_loop_listen e) pm ll = err (error_loop_listen_join_handle e)

-- The channels of the thread: to its two tasks and to the initial thread.
pub record NetworkChannels : Type 0 where
  pub tx_channel_network_to_peermanager : Sender EventsThreadNetwork
  pub tx_channel_network_to_looplisten : Sender EventsThreadNetwork
  pub tx_threadnetwork_and_protocol_to_init : Sender EventsThreadNetworkProtocol

unfoldable pub shutdown_peermanager : NetworkChannels → NetworkChannels
shutdown_peermanager c = record c {
  tx_channel_network_to_peermanager =
      (send c.tx_channel_network_to_peermanager EventsThreadNetwork.shutdown).0;
}

unfoldable pub shutdown_looplisten : NetworkChannels → NetworkChannels
shutdown_looplisten c = record c {
  tx_channel_network_to_looplisten =
      (send c.tx_channel_network_to_looplisten EventsThreadNetwork.shutdown).0;
}

-- The shutdown events that each arm sends before it waits.
unfoldable pub network_shutdowns :
    {JoinError : Type 0}
    → NetworkChannels
    → EventsCriticalCompletionThreadNetwork JoinError
    → NetworkChannels
network_shutdowns c incident_confirmation_shutdown = shutdown_looplisten (shutdown_peermanager c)
network_shutdowns c incident_channel_init_closed = shutdown_looplisten (shutdown_peermanager c)
network_shutdowns c (incident_complited_peer_manager result) = shutdown_looplisten c
network_shutdowns c (incident_complited_loop_listen result) = shutdown_peermanager c
network_shutdowns c (incident_join_handle_peer_manager e) = c
network_shutdowns c (incident_join_handle_loop_listen e) = c

-- The notice of the exit, which every arm sends.
unfoldable pub notify_exit_network : NetworkChannels → NetworkChannels
notify_exit_network c = record c {
  tx_threadnetwork_and_protocol_to_init =
      (send c.tx_threadnetwork_and_protocol_to_init exit_completion_thread_network).0;
}

-- The whole `match critical_result_networkloop`: the channels after it, and the result.
unfoldable pub end_thread_network :
    {JoinError : Type 0}
    → NetworkChannels
    → EventsCriticalCompletionThreadNetwork JoinError
    → JoinPeerManager JoinError
    → JoinLoopListen JoinError
    → NetworkChannels × ThreadResult JoinError
end_thread_network c reason pm ll =
    (notify_exit_network (network_shutdowns c reason), network_result reason pm ll)
