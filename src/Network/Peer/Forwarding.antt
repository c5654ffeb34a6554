-- ===== src/Network/Peer/Forwarding.antt =====
-- What the actor of src/network/peer.rs has passed on while its loop runs.
use p2p_network_implementati.Prelude.{
  ◌≡◌, refl, sym, ap, ◌∙◌, List, [], ◌∷◌, ◌++◌, append_assoc, append-nil, none, some, ok, err,
  arith, continues, run_loop, run_loop-continues,
}
use p2p_network_implementati.Channel.{sent-send}
use p2p_network_implementati.Network.Types.{PeerId, EventsPeer, EventsPeerManager, low_raw_message}
use p2p_network_implementati.Network.Peer.{
  PeerChannels, PeerIncident, incident_peermanager, incident_task_read, result_state_task_read,
  result_state_task_write, peer_step, send_to_task_write, send_to_peermanager, run_peer,
}

-- The messages that the peer manager handed over, as events for the task that writes.
abbrev to_write : {JoinError : Type 0} → List (PeerIncident JoinError) → List EventsPeer
to_write [] = []
to_write (incident_peermanager (some (EventsPeerManager.ready_low_message m)) ∷ is) =
    EventsPeer.low_level_message m ∷ to_write is
to_write (_ ∷ is) = to_write is

-- The messages that the reader handed over, as events for the peer manager.
abbrev to_report : {JoinError : Type 0} → PeerId → List (PeerIncident JoinError) → List EventsPeer
to_report peerid [] = []
to_report peerid (incident_task_read (some (low_raw_message m)) ∷ is) =
    EventsPeer.ready_low_message peerid m ∷ to_report peerid is
to_report peerid (_ ∷ is) = to_report peerid is

module _ (JoinError : Type 0) (peerid : PeerId) where
  -- What one turn adds to the two channels.
  peer_step-adds :
      (c d : PeerChannels) (i : PeerIncident JoinError)
      → peer_step JoinError peerid c i ≡ continues d
      → (d.to_task_write.sent ≡ c.to_task_write.sent ++ to_write (i ∷ []))
        × (d.to_peermanager.sent ≡ c.to_peermanager.sent ++ to_report peerid (i ∷ []))
  unfolding peer_step send_to_task_write send_to_peermanager
  peer_step-adds c d (incident_peermanager (some (EventsPeerManager.ready_low_message m))) e =
      ground (
        arith,
        sent-send c.to_task_write (EventsPeer.low_level_message m),
        append-nil c.to_peermanager.sent,
      )
  peer_step-adds c d (incident_task_read (some (low_raw_message m))) e = ground (
    arith,
    sent-send c.to_peermanager (EventsPeer.ready_low_message peerid m),
    append-nil c.to_task_write.sent,
  )
  peer_step-adds c d (incident_peermanager none) e = cc
  peer_step-adds c d (result_state_task_read (ok r)) e = cc
  peer_step-adds c d (result_state_task_read (err r)) e = cc
  peer_step-adds c d (result_state_task_write (ok r)) e = cc
  peer_step-adds c d (result_state_task_write (err r)) e = cc
  peer_step-adds c d _ e =
      ground (arith, append-nil c.to_task_write.sent, append-nil c.to_peermanager.sent)

  to_write-cons :
      (i : PeerIncident JoinError) (is : List (PeerIncident JoinError))
      → to_write (i ∷ is) ≡ to_write (i ∷ []) ++ to_write is
  to_write-cons (incident_peermanager (some (EventsPeerManager.ready_low_message m))) is = refl
  to_write-cons _ is = refl

  to_report-cons :
      (i : PeerIncident JoinError) (is : List (PeerIncident JoinError))
      → to_report peerid (i ∷ is) ≡ to_report peerid (i ∷ []) ++ to_report peerid is
  to_report-cons (incident_task_read (some (low_raw_message m))) is = refl
  to_report-cons _ is = refl

  -- As long as a peer runs it has passed on every message, once and in order: those of the manager
  -- to the task that writes, and those of the reader to the manager, under the peer's own id.
  pub run_peer_forwards :
      (is : List (PeerIncident JoinError)) (c d : PeerChannels)
      → run_peer JoinError peerid c is ≡ continues d
      → (d.to_task_write.sent ≡ c.to_task_write.sent ++ to_write is)
        × (d.to_peermanager.sent ≡ c.to_peermanager.sent ++ to_report peerid is)
  unfolding run_peer run_loop
  run_peer_forwards [] c d e =
      ground (arith, append-nil c.to_task_write.sent, append-nil c.to_peermanager.sent)
  run_peer_forwards (i ∷ is) c d e =
      let step = peer_step JoinError peerid in
      let (m, p) = run_loop-continues step (step c i) is d e in
      let (write_now, report_now) = peer_step-adds c m i p in
      let (write_later, report_later) = run_peer_forwards is m d (rw p at e) in
      (
        write_later
            ∙ ap (λ t. t ++ to_write is) write_now
            ∙ append_assoc c.to_task_write.sent (to_write (i ∷ [])) (to_write is)
            ∙ ap (λ t. c.to_task_write.sent ++ t) (sym (to_write-cons i is)),
        report_later
            ∙ ap (λ t. t ++ to_report peerid is) report_now
            ∙ append_assoc c.to_peermanager.sent (to_report peerid (i ∷ [])) (to_report peerid is)
            ∙ ap (λ t. c.to_peermanager.sent ++ t) (sym (to_report-cons i is)),
      )
