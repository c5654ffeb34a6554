-- ===== src/Init.antt =====
-- src/main.rs, error_init.rs, events_init.rs: the initial thread. What joining the two threads gives
-- is an argument; `JoinError` (tokio) and the payload `Panic` of a panic (std) are parameters.
pub mod Outcomes
pub mod Shutdown
use p2p_network_implementati.Prelude.{
  List, Flow, continues, returns, run_loop, Option, none, some, Result, ok, err,
}
use p2p_network_implementati.Channel.{Sender, send}
use p2p_network_implementati.Network.Errors.{ErrorThreadNetwork}
use p2p_network_implementati.Network.Types.{
  EventsThreadNetworkProtocol, exit_completion_thread_network, exit_completion_thread_protocol,
}
use p2p_network_implementati.Network.Thread.{EventsInit, ThreadResult}
use p2p_network_implementati.Protocol.Errors.{ErrorThreadProtocol}
use p2p_network_implementati.Protocol.Thread.{ProtocolResult}

pub data ErrorInit (JoinError : Type 0) (Panic : Type 0) : Type 0 where
  error_thread_protocol : Result Panic (ErrorThreadProtocol JoinError) → ErrorInit JoinError Panic
  error_thread_network : Result Panic (ErrorThreadNetwork JoinError) → ErrorInit JoinError Panic
  error_thread_network_thread_protocol :
      Result Panic (ErrorThreadNetwork JoinError)
      → Result Panic (ErrorThreadProtocol JoinError)
      → ErrorInit JoinError Panic

-- The channels from the initial thread to the other two.
pub record InitChannels : Type 0 where
  pub tx_channel_init_to_network : Sender EventsInit
  pub tx_channel_init_to_protocol : Sender EventsInit

-- One answer of `blocking_recv` in the `while let`, each of whose arms breaks.
unfoldable pub wait_for_exit : InitChannels → Option EventsThreadNetworkProtocol → InitChannels
wait_for_exit c (some exit_completion_thread_network) = record c {
  tx_channel_init_to_protocol = (send c.tx_channel_init_to_protocol EventsInit.shutdown).0;
}
wait_for_exit c (some exit_completion_thread_protocol) = record c {
  tx_channel_init_to_network = (send c.tx_channel_init_to_network EventsInit.shutdown).0;
}
wait_for_exit c none = c

-- The `while let`, over the answers of `blocking_recv`: it waits in `continues` and ends at the first.
unfoldable pub run_init :
    InitChannels → List (Option EventsThreadNetworkProtocol) → Flow InitChannels InitChannels
run_init c answers = run_loop (λ s answer. returns (wait_for_exit s answer)) (continues c) answers

-- The final `match (result_network, result_protocol)`.
unfoldable pub init_result :
    {JoinError Panic : Type 0}
    → Result Panic (ThreadResult JoinError)
    → Result Panic (ProtocolResult JoinError)
    → Result (ErrorInit JoinError Panic) (Unit {0})
init_result (ok (ok _)) (ok (ok _)) = ok tt
init_result (ok (err net_err)) (ok (ok _)) = err (error_thread_network (ok net_err))
init_result (ok (ok _)) (ok (err pro_err)) = err (error_thread_protocol (ok pro_err))
init_result (ok (err net_err)) (ok (err pro_err)) =
    err (error_thread_network_thread_protocol (ok net_err) (ok pro_err))
init_result (err net_panic) (ok (ok _)) = err (error_thread_network (err net_panic))
init_result (ok (ok _)) (err pro_panic) = err (error_thread_protocol (err pro_panic))
init_result (err net_panic) (err pro_panic) =
    err (error_thread_network_thread_protocol (err net_panic) (err pro_panic))
init_result (err net_panic) (ok (err pro_err)) =
    err (error_thread_network_thread_protocol (err net_panic) (ok pro_err))
init_result (ok (err net_err)) (err pro_panic) =
    err (error_thread_network_thread_protocol (ok net_err) (err pro_panic))
