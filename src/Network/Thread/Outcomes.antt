-- ===== src/Network/Thread/Outcomes.antt =====
-- How the result of the network thread (src/network/thread_network.rs) depends on the results of the
-- peer manager and of the listener.
use p2p_network_implementati.Prelude.{
  ℕ, suc, ◌≡◌, ◌≢◌, ap, subst, refl, sym, ◌∙◌, [], ◌∷◌, ◌++◌, Result, ok, err,
}
use p2p_network_implementati.Channel.{send_accepts}
use p2p_network_implementati.Network.Errors.{ErrorPeerManager, ErrorLoopListen}
use p2p_network_implementati.Network.Types.{exit_completion_thread_network}
use p2p_network_implementati.Network.Thread.{
  JoinPeerManager, JoinLoopListen, EventsCriticalCompletionThreadNetwork,
  incident_confirmation_shutdown, incident_channel_init_closed, incident_complited_peer_manager,
  incident_complited_loop_listen, incident_join_handle_peer_manager,
  incident_join_handle_loop_listen, network_result, join_tasks, end_complited_peer_manager,
  end_complited_loop_listen, NetworkChannels, shutdown_peermanager, shutdown_looplisten,
  network_shutdowns, notify_exit_network, end_thread_network,
}

-- What the thread knows of each task at the end: the result that ended the loop, or the awaited one.
abbrev manager_known :
    {JoinError : Type 0}
    → EventsCriticalCompletionThreadNetwork JoinError
    → JoinPeerManager JoinError
    → JoinPeerManager JoinError
manager_known (incident_complited_peer_manager result) pm = ok result
manager_known (incident_join_handle_peer_manager e) pm = err e
manager_known _ pm = pm

-- The listener is not awaited once the manager panicked.
abbrev listener_known :
    {JoinError : Type 0}
    → EventsCriticalCompletionThreadNetwork JoinError
    → JoinLoopListen JoinError
    → JoinLoopListen JoinError
listener_known (incident_complited_loop_listen result) ll = ok result
listener_known (incident_join_handle_loop_listen e) ll = err e
listener_known _ ll = ll

join_tasks-ok :
    {JoinError : Type 0} (pm : JoinPeerManager JoinError) (ll : JoinLoopListen JoinError)
    → join_tasks pm ll ≡ ok tt
    → (pm ≡ ok (ok tt)) × (ll ≡ ok (ok tt))
unfolding join_tasks
join_tasks-ok (ok (ok u)) (ok (ok v)) e = (refl, refl)
join_tasks-ok (ok (ok u)) (ok (err l)) e = cc
join_tasks-ok (ok (err p)) (ok (ok v)) e = cc
join_tasks-ok (ok (err p)) (ok (err l)) e = cc
join_tasks-ok (ok (ok u)) (err j) e = cc
join_tasks-ok (ok (err p)) (err j) e = cc
join_tasks-ok (err i) (ok (ok v)) e = cc
join_tasks-ok (err i) (ok (err l)) e = cc
join_tasks-ok (err i) (err j) e = cc

manager_first :
    {JoinError : Type 0} (p : Result ErrorPeerManager (Unit {0}))
    (l : Result ErrorLoopListen (Unit {0}))
    → end_complited_peer_manager {JoinError = JoinError} p (ok l) ≡ join_tasks (ok p) (ok l)
unfolding end_complited_peer_manager join_tasks
manager_first (ok u) (ok v) = refl
manager_first (ok u) (err l) = refl
manager_first (err p) (ok v) = refl
manager_first (err p) (err l) = refl

listener_first :
    {JoinError : Type 0} (p : Result ErrorPeerManager (Unit {0}))
    (l : Result ErrorLoopListen (Unit {0}))
    → end_complited_loop_listen {JoinError = JoinError} l (ok p) ≡ join_tasks (ok p) (ok l)
unfolding end_complited_loop_listen join_tasks
listener_first (ok u) (ok v) = refl
listener_first (ok u) (err l) = refl
listener_first (err p) (ok v) = refl
listener_first (err p) (err l) = refl

-- The order in which the two tasks of the network thread return does not matter, as long as neither
-- panics: the thread's result is the same whether the manager returned first, the listener did, or
-- the thread was told to shut down or lost its channel to the initial thread.
pub network_result_order :
    {JoinError : Type 0} (p : Result ErrorPeerManager (Unit {0}))
    (l : Result ErrorLoopListen (Unit {0})) (other_pm : JoinPeerManager JoinError)
    (other_ll : JoinLoopListen JoinError)
    → (network_result (incident_complited_peer_manager p) other_pm (ok l)
        ≡ network_result incident_confirmation_shutdown (ok p) (ok l))
      × (network_result (incident_complited_loop_listen l) (ok p) other_ll
          ≡ network_result incident_confirmation_shutdown (ok p) (ok l))
      × (network_result {JoinError = JoinError} incident_channel_init_closed (ok p) (ok l)
          ≡ network_result incident_confirmation_shutdown (ok p) (ok l))
unfolding network_result
network_result_order p l other_pm other_ll = (manager_first p l, listener_first p l, refl)

-- The network thread ends well only where the peer manager and the listener both did, whatever
-- ended its loop.
pub network_result-ok :
    {JoinError : Type 0} (reason : EventsCriticalCompletionThreadNetwork JoinError)
    (pm : JoinPeerManager JoinError) (ll : JoinLoopListen JoinError)
    → network_result reason pm ll ≡ ok tt
    → (manager_known reason pm ≡ ok (ok tt)) × (listener_known reason ll ≡ ok (ok tt))
unfolding network_result
network_result-ok incident_confirmation_shutdown pm ll e = join_tasks-ok pm ll e
network_result-ok incident_channel_init_closed pm ll e = join_tasks-ok pm ll e
network_result-ok (incident_complited_peer_manager p) pm (ok l) e =
    join_tasks-ok (ok p) (ok l) (sym (manager_first p l) ∙ e)
network_result-ok (incident_complited_peer_manager (ok u)) pm (err j) e =
    unfold end_complited_peer_manager in cc
network_result-ok (incident_complited_peer_manager (err p)) pm (err j) e =
    unfold end_complited_peer_manager in cc
network_result-ok (incident_complited_loop_listen l) (ok p) ll e =
    join_tasks-ok (ok p) (ok l) (sym (listener_first p l) ∙ e)
network_result-ok (incident_complited_loop_listen (ok u)) (err j) ll e =
    unfold end_complited_loop_listen in cc
network_result-ok (incident_complited_loop_listen (err l)) (err j) ll e =
    unfold end_complited_loop_listen in cc
network_result-ok (incident_join_handle_peer_manager j) pm ll e = cc
network_result-ok (incident_join_handle_loop_listen j) pm ll e = cc

-- An error of the peer manager is lost where the listener panics after it: the result is the same
-- as if the manager had ended well. On a shutdown the two cases are told apart.
pub network_result_loses :
    {JoinError : Type 0} (p : ErrorPeerManager) (j : JoinError) (other : JoinPeerManager JoinError)
    → (network_result (incident_complited_peer_manager (err p)) other (err j)
        ≡ network_result (incident_complited_peer_manager (ok tt)) other (err j))
      × (network_result incident_confirmation_shutdown (ok (err p)) (err j)
          ≢ network_result incident_confirmation_shutdown (ok (ok tt)) (err j))
unfolding network_result end_complited_peer_manager join_tasks
network_result_loses p j other = (refl, λ e. cc)

notify_exit_network-sends :
    (n : ℕ) (c : NetworkChannels)
    → c.tx_threadnetwork_and_protocol_to_init.accepts ≡ suc n
    → (notify_exit_network c).tx_threadnetwork_and_protocol_to_init.sent
      ≡ c.tx_threadnetwork_and_protocol_to_init.sent ++ (exit_completion_thread_network ∷ [])
unfolding notify_exit_network
notify_exit_network-sends n c h =
    rw (send_accepts n c.tx_threadnetwork_and_protocol_to_init exit_completion_thread_network h)

network_shutdowns_init :
    {JoinError : Type 0} (c : NetworkChannels)
    (reason : EventsCriticalCompletionThreadNetwork JoinError)
    → (network_shutdowns c reason).tx_threadnetwork_and_protocol_to_init
      ≡ c.tx_threadnetwork_and_protocol_to_init
unfolding network_shutdowns shutdown_peermanager shutdown_looplisten
network_shutdowns_init c incident_confirmation_shutdown = refl
network_shutdowns_init c incident_channel_init_closed = refl
network_shutdowns_init c (incident_complited_peer_manager p) = refl
network_shutdowns_init c (incident_complited_loop_listen l) = refl
network_shutdowns_init c (incident_join_handle_peer_manager j) = refl
network_shutdowns_init c (incident_join_handle_loop_listen j) = refl

-- However its loop ended, the network thread tells the initial thread exactly once that it exits,
-- while the channel to it is open.
pub end_thread_network_notifies :
    {JoinError : Type 0} (n : ℕ) (c : NetworkChannels)
    (reason : EventsCriticalCompletionThreadNetwork JoinError) (pm : JoinPeerManager JoinError)
    (ll : JoinLoopListen JoinError)
    → c.tx_threadnetwork_and_protocol_to_init.accepts ≡ suc n
    → (end_thread_network c reason pm ll).0.tx_threadnetwork_and_protocol_to_init.sent
      ≡ c.tx_threadnetwork_and_protocol_to_init.sent ++ (exit_completion_thread_network ∷ [])
unfolding end_thread_network
end_thread_network_notifies n c reason pm ll h =
    let same = network_shutdowns_init c reason in
    subst
      (λ tx.
        (notify_exit_network (network_shutdowns c reason)
          ).tx_threadnetwork_and_protocol_to_init.sent
        ≡ tx.sent ++ (exit_completion_thread_network ∷ []))
      same
      (notify_exit_network-sends n (network_shutdowns c reason) (ap (λ tx. tx.accepts) same ∙ h))
