-- ===== src/Network/PeerManager/Counting.antt =====
-- The counter `peerid` of src/network/peermanager.rs: one more than the number of running tasks.
use p2p_network_implementati.Prelude.{
  ℕ, ◌-◌, ◌^◌, ◌<◌, ◌≡◌, refl, List, [], ◌∷◌, none, some, Result, ok, err, arith, lookup, length,
  continues, returns, panics, run_loop, Option-cases, Bool-cases, inl, inr,
}
use p2p_network_implementati.Channel.{Sender, send}
use p2p_network_implementati.Network.Errors.{ErrorPeer, ErrorSendEvents}
use p2p_network_implementati.Network.Types.{
  PeerId, MessagePayload, TypeConnection, TcpStream, EventsPeer, EventsPeerManager,
  EventsThreadNetwork, EventsLoopListen,
}
use p2p_network_implementati.Network.Wire.{SocketAddr}
use p2p_network_implementati.Network.Peer.{create_peer, PeerResult}
use p2p_network_implementati.Protocol.Errors.{EventsHandleMessage}
use p2p_network_implementati.Network.PeerManager.{
  PeerManager, NewTask, ManagerFlow, ManagerIncident, incident_thread_network, incident_looplisten,
  incident_protocol, incident_peer, result_peer, u64_next, u64_previous, tell_protocol, add_peer,
  connect_peer, on_ready_message, on_violent_completion, forget_peer, take_task, after_send,
  send_events_peer, on_completed, manager_step, new_peer_manager, run_peer_manager,
}
use p2p_network_implementati.Network.PeerManager.Distinct.{Fresh, Distinct-remove, length-remove}
use p2p_network_implementati.Network.PeerManager.Tasks.{
  IsCounted, same_tasks, new-Recorded, insert-Recorded, still_there,
}

-- What the runtime guarantees about an incident: a new task has an id that no running task has, and
-- fewer than 2^64 - 1 tasks run; a task that ends was running, and a task that returned gives the id
-- of its peer, one that panicked its own.
module _ (JoinError : Type 0) (error_id : JoinError → ℕ) where
  abbrev Started : PeerManager → NewTask → Type 0
  Started s task = Fresh task.id s.set_task_peers × (length s.set_task_peers < 2 ^ 64 - 2)

  abbrev Ended : PeerManager → ℕ → Result JoinError (PeerId × PeerResult JoinError) → Type 0
  Ended s id (ok (peerid, result)) = lookup id s.set_task_peers ≡ some peerid
  Ended s id (err e) =
      (peerid : PeerId) × (error_id e ≡ id) × (lookup id s.set_task_peers ≡ some peerid)

  abbrev Sound : PeerManager → ManagerIncident JoinError → Type 0
  Sound s (incident_thread_network event connected task) = Started s task
  Sound s (incident_looplisten event task) = Started s task
  Sound s (result_peer id result) = Ended s id result
  Sound s _ = Unit {0}

  abbrev Counts : ManagerFlow → Type 0
  Counts (continues s) = IsCounted s
  Counts _ = Unit {0}

  tell_protocol-Counts :
      (s : PeerManager) (event : EventsPeerManager) → IsCounted s → Counts (tell_protocol s event)
  unfolding tell_protocol
  tell_protocol-Counts s event h =
      elim (Bool-cases (send s.tx_channel_peermanager_to_protocol event).1) [
        | inl sent ↦ rw sent (same_tasks s _ refl refl refl h)
        | inr lost ↦ rw lost tt
      ]

  connect_peer-Counts :
      (s : PeerManager) (t : TypeConnection) (socket : TcpStream) (address : SocketAddr)
      (task : NewTask)
      → IsCounted s
      → Started s task
      → Counts (connect_peer JoinError s t socket address task)
  unfolding connect_peer
  connect_peer-Counts s t socket address task h start = created (create_peer socket)
    where
      created :
          (r : Result (ErrorPeer JoinError) (SocketAddr × SocketAddr))
          → Counts (elim r [
            | ok addresses ↦ add_peer s t address addresses.1 task
            | err e ↦ continues (record s { peerid = u64_previous (u64_next s.peerid) })
          ])
      created (ok addresses) =
          unfold add_peer in
          tell_protocol-Counts _ _ (record {
            counted = omega (arith, h.counted, start.1);
            distinct = (start.0, h.distinct);
            bounded = omega (arith, start.1);
            recorded = insert-Recorded task.id s.peerid s.set_task_peers s.set_id_peers h.recorded;
          })
      created (err e) = same_tasks s _ (omega (arith, h.counted, h.bounded)) refl refl h

  on_ready_message-IsCounted :
      (s : PeerManager) (peerid : PeerId) (message : MessagePayload)
      → IsCounted s
      → IsCounted (on_ready_message s peerid message)
  unfolding on_ready_message
  on_ready_message-IsCounted s peerid message h =
      after (send_events_peer peerid message s.set_all_peers).1
    where
      after :
          (r : Result ErrorSendEvents (Unit {0}))
          → IsCounted (after_send s peerid (send_events_peer peerid message s.set_all_peers).0 r)
      after (ok _) = same_tasks s _ refl refl refl h
      after (err ErrorSendEvents.error_channel_peer_closed) = same_tasks s _ refl refl refl h
      after (err ErrorSendEvents.missing_peer) = same_tasks s _ refl refl refl h

  on_violent_completion-IsCounted :
      (s : PeerManager) (peerid : PeerId) → IsCounted s → IsCounted (on_violent_completion s peerid)
  unfolding on_violent_completion
  on_violent_completion-IsCounted s peerid h = elim (Option-cases (lookup peerid s.set_all_peers)) [
    | inl absent ↦ rw (absent, on_violent_completion) h
    | inr (peer, there) ↦ rw (there, on_violent_completion) (same_tasks s _ refl refl refl h)
  ]

  -- A task that ends takes one from the counter.
  ended-IsCounted :
      (s : PeerManager) (id : ℕ) (peerid running : PeerId)
      → IsCounted s
      → lookup id s.set_task_peers ≡ some running
      → IsCounted (forget_peer (take_task s id) peerid)
  unfolding forget_peer take_task
  ended-IsCounted s id peerid running h there = record {
    counted =
        omega
          (arith, h.counted, h.bounded, length-remove id s.set_task_peers running h.distinct there);
    distinct = Distinct-remove id s.set_task_peers h.distinct;
    bounded = omega (arith, h.bounded, length-remove id s.set_task_peers running h.distinct there);
    recorded = λ j p left. h.recorded j p (still_there id j s.set_task_peers p left);
  }

  on_completed-Counts :
      (s : PeerManager) (id : ℕ) (result : Result JoinError (PeerId × PeerResult JoinError))
      → IsCounted s
      → Ended s id result
      → Counts (on_completed JoinError error_id s id result)
  unfolding on_completed
  on_completed-Counts s id (ok (peerid, result)) h there =
      tell_protocol-Counts _ _ (ended-IsCounted s id peerid peerid h there)
  on_completed-Counts s id (err e) h (peerid, is_id, there) =
      let known' : lookup (error_id e) (take_task s id).set_id_peers ≡ some peerid =
        rw is_id (unfold take_task in h.recorded id peerid there) in
      rw (known', on_completed)
        (tell_protocol-Counts _ _ (ended-IsCounted s id peerid peerid h there))

  manager_step-Counts :
      (s : PeerManager) (i : ManagerIncident JoinError)
      → IsCounted s
      → Sound s i
      → Counts (manager_step JoinError error_id s i)
  unfolding manager_step
  manager_step-Counts s
        (incident_thread_network
          (some (EventsThreadNetwork.outgoing_connection a))
          (ok socket)
          task)
        h sound =
      connect_peer-Counts s _ socket a task h sound
  manager_step-Counts s
        (incident_thread_network (some (EventsThreadNetwork.outgoing_connection a)) (err e) task) h
        sound =
      h
  manager_step-Counts s (incident_thread_network (some EventsThreadNetwork.shutdown) connected task)
        h sound =
      tt
  manager_step-Counts s (incident_thread_network none connected task) h sound = tt
  manager_step-Counts s
        (incident_looplisten (some (EventsLoopListen.incoming_connection socket a)) task) h sound =
      connect_peer-Counts s _ socket a task h sound
  manager_step-Counts s (incident_looplisten none task) h sound = tt
  manager_step-Counts s (incident_protocol (some (EventsHandleMessage.ready_message p m))) h sound =
      on_ready_message-IsCounted s p m h
  manager_step-Counts s
        (incident_protocol (some (EventsHandleMessage.incidet_violent_complited_peer p))) h sound =
      on_violent_completion-IsCounted s p h
  manager_step-Counts s (incident_protocol none) h sound = tt
  manager_step-Counts s (incident_peer (some (EventsPeer.ready_low_message p m))) h sound =
      tell_protocol-Counts s _ h
  manager_step-Counts s (incident_peer (some EventsPeer.shutdown)) h sound = h
  manager_step-Counts s (incident_peer (some (EventsPeer.low_level_message m))) h sound = h
  manager_step-Counts s (incident_peer none) h sound = tell_protocol-Counts s _ h
  manager_step-Counts s (result_peer id result) h sound = on_completed-Counts s id result h sound

  -- The runtime keeps its guarantees at each incident that the loop takes up.
  abbrev SoundRun : ManagerFlow → List (ManagerIncident JoinError) → Type 0
  SoundRun flow [] = Unit {0}
  SoundRun (continues s) (i ∷ is) = Sound s i × SoundRun (manager_step JoinError error_id s i) is
  SoundRun _ (i ∷ is) = Unit {0}

  run-Counts :
      (is : List (ManagerIncident JoinError)) (flow : ManagerFlow)
      → Counts flow
      → SoundRun flow is
      → Counts (run_loop (manager_step JoinError error_id) flow is)
  unfolding run_loop
  run-Counts [] flow h sound = h
  run-Counts (i ∷ is) (continues s) h (now, later) =
      run-Counts is (manager_step JoinError error_id s i) (manager_step-Counts s i h now) later
  run-Counts (i ∷ is) (returns r) h sound = tt
  run-Counts (i ∷ is) panics h sound = tt

  -- For as long as the manager runs, over any incidents in which a new task has an id that no running
  -- task has, fewer than 2^64 - 1 tasks run, and a task that ends was running and gives the id of its
  -- peer if it returned and its own id if it panicked: `peerid` is one more than the number of running
  -- peer tasks, so that it never goes below 1 and never wraps, and every running task is recorded in
  -- `set_id_peers` under its own id.
  pub run_peer_manager-IsCounted :
      (is : List (ManagerIncident JoinError)) (nonce : ℕ) (tx : Sender EventsPeerManager)
      (s : PeerManager)
      → SoundRun (continues (new_peer_manager nonce tx)) is
      → run_peer_manager JoinError error_id (new_peer_manager nonce tx) is ≡ continues s
      → IsCounted s
  unfolding run_peer_manager
  run_peer_manager-IsCounted is nonce tx s sound e = rw e at (
      run-Counts is (continues (new_peer_manager nonce tx))
        (unfold new_peer_manager in
          record {
            counted = omega arith;
            distinct = tt;
            bounded = omega arith;
            recorded = new-Recorded nonce tx;
          })
        sound)
