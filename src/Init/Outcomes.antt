-- ===== src/Init/Outcomes.antt =====
-- What the initial thread (src/main.rs) makes of the end of the other two threads.
use p2p_network_implementati.Prelude.{ℕ, suc, ◌≡◌, refl, ap, [], ◌∷◌, ◌++◌, Result, ok, err, some}
use p2p_network_implementati.Channel.{Sender, send_accepts}
use p2p_network_implementati.Network.Types.{
  EventsThreadNetworkProtocol, exit_completion_thread_network, exit_completion_thread_protocol,
}
use p2p_network_implementati.Network.Thread.{EventsInit, ThreadResult}
use p2p_network_implementati.Protocol.Thread.{ProtocolResult}
use p2p_network_implementati.Init.{
  ErrorInit, error_thread_protocol, error_thread_network, error_thread_network_thread_protocol,
  InitChannels, wait_for_exit, init_result,
}

-- A failure of a thread, as the join of the thread would have given it.
abbrev failed : {E Panic : Type 0} → Result Panic E → Result Panic (Result E (Unit {0}))
failed (ok e) = ok (err e)
failed (err panic) = err panic

-- Both joins, read back from the result of the program.
abbrev pub threads_of :
    {JoinError Panic : Type 0}
    → Result (ErrorInit JoinError Panic) (Unit {0})
    → Result Panic (ThreadResult JoinError) × Result Panic (ProtocolResult JoinError)
threads_of (ok _) = (ok (ok tt), ok (ok tt))
threads_of (err (error_thread_protocol protocol)) = (ok (ok tt), failed protocol)
threads_of (err (error_thread_network network)) = (failed network, ok (ok tt))
threads_of (err (error_thread_network_thread_protocol network protocol)) =
    (failed network, failed protocol)

-- The result of the program loses nothing: what both threads returned, or with what they panicked,
-- can be read back from it. So it is `Ok` only where both threads ended well.
pub threads_of-init_result :
    {JoinError Panic : Type 0} (network : Result Panic (ThreadResult JoinError))
    (protocol : Result Panic (ProtocolResult JoinError))
    → threads_of (init_result network protocol) ≡ (network, protocol)
unfolding init_result
threads_of-init_result (ok (ok u)) (ok (ok v)) = refl
threads_of-init_result (ok (err e)) (ok (ok v)) = refl
threads_of-init_result (ok (ok u)) (ok (err f)) = refl
threads_of-init_result (ok (err e)) (ok (err f)) = refl
threads_of-init_result (err p) (ok (ok v)) = refl
threads_of-init_result (ok (ok u)) (err q) = refl
threads_of-init_result (err p) (err q) = refl
threads_of-init_result (err p) (ok (err f)) = refl
threads_of-init_result (ok (err e)) (err q) = refl

-- The channel to the thread that did not end first.
abbrev tx_of_other : EventsThreadNetworkProtocol → InitChannels → Sender EventsInit
tx_of_other exit_completion_thread_network c = c.tx_channel_init_to_protocol
tx_of_other exit_completion_thread_protocol c = c.tx_channel_init_to_network

abbrev tx_of_same : EventsThreadNetworkProtocol → InitChannels → Sender EventsInit
tx_of_same exit_completion_thread_network c = c.tx_channel_init_to_network
tx_of_same exit_completion_thread_protocol c = c.tx_channel_init_to_protocol

-- When one thread tells that it exits, the initial thread tells the other one, and only that one, to
-- shut down, while the channel to it is open.
pub wait_for_exit_shuts_down :
    (n : ℕ) (c : InitChannels) (exit : EventsThreadNetworkProtocol)
    → (tx_of_other exit c).accepts ≡ suc n
    → ((tx_of_other exit (wait_for_exit c (some exit))).sent
        ≡ (tx_of_other exit c).sent ++ (EventsInit.shutdown ∷ []))
      × (tx_of_same exit (wait_for_exit c (some exit)) ≡ tx_of_same exit c)
unfolding wait_for_exit
wait_for_exit_shuts_down n c exit_completion_thread_network h =
    (ap (λ r. r.0.sent) (send_accepts n c.tx_channel_init_to_protocol EventsInit.shutdown h), refl)
wait_for_exit_shuts_down n c exit_completion_thread_protocol h =
    (ap (λ r. r.0.sent) (send_accepts n c.tx_channel_init_to_network EventsInit.shutdown h), refl)
