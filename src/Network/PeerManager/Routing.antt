-- ===== src/Network/PeerManager/Routing.antt =====
-- Which peers an event of src/network/peermanager.rs reaches.
use p2p_network_implementati.Prelude.{
  ℕ, ◌≡◌, refl, ◌∙◌, List, [], ◌∷◌, Option, none, some, Bool, Result, ok, err, Map, lookup, insert,
  lookup-insert, lookup-remove, Bool-cases, inl, inr, ◌==◌, ==_iff, if◌then◌else◌,
}
use p2p_network_implementati.Channel.{send}
use p2p_network_implementati.Network.Types.{PeerId, MessagePayload, EventsPeerManager}
use p2p_network_implementati.Network.Peer.{PeerResult}
use p2p_network_implementati.Network.PeerManager.{
  PeerManager, PeerSystemMetadata, send_events_peer, on_ready_message, on_violent_completion,
  forget_peer, take_task, finished_peer,
}
use p2p_network_implementati.Prelude.{◌↔◌, ◌≢◌, ap, true, false, Option-cases}
use p2p_network_implementati.Network.PeerManager.{
  EventsCriticalCompletionPeerManager, incident_confirmation_shutdown,
  incident_channel_thread_network_closed, incident_channel_loop_listen_closed,
  incident_channel_protocol_closed, incident_zero_peers,
}
use p2p_network_implementati.Network.PeerManager.Ending.{
  bulk_peer_disconnection, drain_tasks, end_peer_manager, manager_result,
}

-- An entry after an event was sent to its peer.
abbrev pub after_event : EventsPeerManager → PeerSystemMetadata → PeerSystemMetadata
after_event event peer = record peer {
  tx_channel_peermanager_to_peer = (send peer.tx_channel_peermanager_to_peer event).0;
}

abbrev pub event_sent : EventsPeerManager → PeerSystemMetadata → Bool
event_sent event peer = (send peer.tx_channel_peermanager_to_peer event).1

abbrev pub delivered : EventsPeerManager → Option PeerSystemMetadata → Option PeerSystemMetadata
delivered event none = none
delivered event (some peer) = if event_sent event peer then some (after_event event peer) else none

abbrev pub informed : EventsPeerManager → Option PeerSystemMetadata → Option PeerSystemMetadata
informed event none = none
informed event (some peer) = some (after_event event peer)

-- Reading at `k` where only the entry at `p` may differ.
unchanged_at :
    (p k : PeerId) (all_peers : Map PeerSystemMetadata)
    → lookup p all_peers ≡ none
    → lookup k all_peers ≡ (if p == k then none else lookup k all_peers)
unchanged_at p k all_peers absent = elim (Bool-cases (p == k)) [
  | inl same ↦ let e : p ≡ k = (==_iff p k).0 same in rw (same, ← e) absent
  | inr other ↦ rw other
]

routed :
    (s : PeerManager) (peerid k : PeerId) (message : MessagePayload) (o : Option PeerSystemMetadata)
    → lookup peerid s.set_all_peers ≡ o
    → lookup k (on_ready_message s peerid message).set_all_peers ≡ (
        if peerid == k
        then delivered (EventsPeerManager.ready_low_message message) o
        else lookup k s.set_all_peers)
unfolding on_ready_message send_events_peer
routed s peerid k message none e =
    rw (e, on_ready_message, send_events_peer) (unchanged_at peerid k s.set_all_peers e)
routed s peerid k message (some peer) e =
    let event : EventsPeerManager = EventsPeerManager.ready_low_message message in
    let all : Map PeerSystemMetadata = insert peerid (after_event event peer) s.set_all_peers in
    rw (e, on_ready_message, send_events_peer)
      (elim (Bool-cases (event_sent event peer)) [
        | inl sent ↦ rw sent (lookup-insert peerid k (after_event event peer) s.set_all_peers)
        | inr lost ↦ rw lost (
            lookup-remove peerid k all ∙ elim (Bool-cases (peerid == k)) [
              | inl same ↦ rw same
              | inr other ↦
                  rw other
                    (lookup-insert peerid k (after_event event peer) s.set_all_peers ∙ rw other)
            ])
      ])

-- A message of the protocol reaches the channel of its peer and no other: the peer's entry holds the
-- message if the channel took it and is dropped if the channel was closed, and every other entry
-- stays. For an unknown peer nothing changes.
pub on_ready_message_routes :
    (s : PeerManager) (peerid k : PeerId) (message : MessagePayload)
    → lookup k (on_ready_message s peerid message).set_all_peers ≡ (
        if peerid == k
        then delivered (EventsPeerManager.ready_low_message message) (lookup peerid s.set_all_peers)
        else lookup k s.set_all_peers)
on_ready_message_routes s peerid k message = routed s peerid k message _ refl

ended :
    (s : PeerManager) (peerid k : PeerId) (o : Option PeerSystemMetadata)
    → lookup peerid s.set_all_peers ≡ o
    → lookup k (on_violent_completion s peerid).set_all_peers
      ≡ (if peerid == k then informed EventsPeerManager.shutdown o else lookup k s.set_all_peers)
unfolding on_violent_completion
ended s peerid k none e = rw (e, on_violent_completion) (unchanged_at peerid k s.set_all_peers e)
ended s peerid k (some peer) e =
    rw (e, on_violent_completion)
      (lookup-insert peerid k (after_event EventsPeerManager.shutdown peer) s.set_all_peers)

-- `Shutdown` for a peer that broke the protocol reaches that peer's channel and no other, and no
-- entry is dropped.
pub on_violent_completion_routes :
    (s : PeerManager) (peerid k : PeerId)
    → lookup k (on_violent_completion s peerid).set_all_peers ≡ (
        if peerid == k
        then informed EventsPeerManager.shutdown (lookup peerid s.set_all_peers)
        else lookup k s.set_all_peers)
on_violent_completion_routes s peerid k = ended s peerid k _ refl

-- At the end every peer is sent `Shutdown`, and no entry is dropped.
pub bulk_peer_disconnection_all :
    (k : PeerId) (all_peers : Map PeerSystemMetadata)
    → lookup k (bulk_peer_disconnection all_peers)
      ≡ informed EventsPeerManager.shutdown (lookup k all_peers)
unfolding bulk_peer_disconnection lookup
bulk_peer_disconnection_all k [] = refl
bulk_peer_disconnection_all k ((j, peer) ∷ rest) = elim (Bool-cases (j == k)) [
  | inl same ↦ rw same
  | inr other ↦ rw other (bulk_peer_disconnection_all k rest)
]

module _ {JoinError : Type 0} (error_id : JoinError → ℕ) where
  abbrev pub Ending : Type 0
  Ending = ℕ × Result JoinError (PeerId × PeerResult JoinError)

  -- The peer that a task stood for: it returned its id, or its record has it.
  abbrev peer_of : Map PeerId → Result JoinError (PeerId × PeerResult JoinError) → Option PeerId
  peer_of ids (ok (peerid, result)) = some peerid
  peer_of ids (err e) = lookup (error_id e) ids

  abbrev is_peer : PeerId → Option PeerId → Bool
  is_peer k none = false
  is_peer k (some peerid) = peerid == k

  -- Whether one of the tasks stood for the peer `k`.
  abbrev pub ended_peer : PeerId → Map PeerId → List Ending → Bool
  ended_peer k ids [] = false
  ended_peer k ids ((id, result) ∷ rest) =
      if is_peer k (peer_of ids result) then true else ended_peer k ids rest

  -- One task that ends.
  after_task : PeerManager → Option PeerId → ℕ → PeerManager
  after_task s none id = take_task s id
  after_task s (some peerid) id = forget_peer (take_task s id) peerid

  after_task-keeps :
      (s : PeerManager) (o : Option PeerId) (id : ℕ)
      → (after_task s o id).set_id_peers ≡ s.set_id_peers
  unfolding after_task take_task forget_peer
  after_task-keeps s none id = refl
  after_task-keeps s (some peerid) id = refl

  lookup-after_task :
      (k : PeerId) (s : PeerManager) (o : Option PeerId) (id : ℕ)
      → lookup k (after_task s o id).set_all_peers
        ≡ (if is_peer k o then none else lookup k s.set_all_peers)
  unfolding after_task take_task forget_peer
  lookup-after_task k s none id = refl
  lookup-after_task k s (some peerid) id = lookup-remove peerid k s.set_all_peers

  drain_tasks-cons :
      (s : PeerManager) (id : ℕ) (result : Result JoinError (PeerId × PeerResult JoinError))
      (rest : List Ending)
      → drain_tasks JoinError error_id s ((id, result) ∷ rest)
        ≡ drain_tasks JoinError error_id (after_task s (peer_of s.set_id_peers result) id) rest
  unfolding drain_tasks after_task take_task finished_peer
  drain_tasks-cons s id (ok (peerid, result)) rest = refl
  drain_tasks-cons s id (err e) rest = elim (Option-cases (lookup (error_id e) s.set_id_peers)) [
    | inl absent ↦ rw (absent, drain_tasks) refl
    | inr (peerid, there) ↦ rw (there, drain_tasks) refl
  ]

  lookup-drain_tasks :
      (k : PeerId) (endings : List Ending) (s : PeerManager)
      → lookup k (drain_tasks JoinError error_id s endings).set_all_peers
        ≡ (if ended_peer k s.set_id_peers endings then none else lookup k s.set_all_peers)
  lookup-drain_tasks k [] s = unfold drain_tasks in refl
  lookup-drain_tasks k ((id, result) ∷ rest) s =
      let o = peer_of s.set_id_peers result in
      ap (λ (t : PeerManager). lookup k t.set_all_peers) (drain_tasks-cons s id result rest)
      ∙ lookup-drain_tasks k rest (after_task s o id)
      ∙ rw after_task-keeps (
          rw lookup-after_task
            (both (ended_peer k s.set_id_peers rest) (is_peer k o) (lookup k s.set_all_peers)))
    where
      both :
          (later now : Bool) (entry : Option PeerSystemMetadata)
          → (if later then none else (if now then none else entry))
            ≡ (if (if now then true else later) then none else entry)
      both true true entry = refl
      both true false entry = refl
      both false true entry = refl
      both false false entry = refl

  left :
      (k : PeerId) (s : PeerManager) (endings : List Ending)
      → lookup k
          (drain_tasks JoinError error_id
            (record s { set_all_peers = bulk_peer_disconnection s.set_all_peers })
            endings).set_all_peers
        ≡ (if ended_peer k s.set_id_peers endings
            then none
            else informed EventsPeerManager.shutdown (lookup k s.set_all_peers))
  left k s endings =
      lookup-drain_tasks k endings _
      ∙ ap (λ entry. if ended_peer k s.set_id_peers endings then none else entry)
          (bulk_peer_disconnection_all k s.set_all_peers)

  -- However the loop of the manager ended, but for `IncidentZeroPeers`, whatever tasks then end: the
  -- entry of a peer is gone if one of these tasks stood for it, by the id that the task returned or by
  -- the record of the task if it panicked, and is otherwise the earlier one, with `Shutdown` sent to
  -- the peer. The manager returns `Ok` exactly after a confirmed shutdown.
  pub end_peer_manager_leaves :
      (k : PeerId) (s : PeerManager) (reason : EventsCriticalCompletionPeerManager)
      (endings : List Ending)
      → reason ≢ incident_zero_peers
      → (lookup k (end_peer_manager JoinError error_id s reason endings).0.set_all_peers ≡ (
          if ended_peer k s.set_id_peers endings
          then none
          else informed EventsPeerManager.shutdown (lookup k s.set_all_peers)))
        × (((end_peer_manager JoinError error_id s reason endings).1 ≡ ok tt)
            ↔ (reason ≡ incident_confirmation_shutdown))
  unfolding end_peer_manager manager_result
  end_peer_manager_leaves k s incident_confirmation_shutdown endings some_left =
      (left k s endings, (λ e. refl, λ e. refl))
  end_peer_manager_leaves k s incident_channel_thread_network_closed endings some_left =
      (left k s endings, (λ e. cc, λ e. cc))
  end_peer_manager_leaves k s incident_channel_loop_listen_closed endings some_left =
      (left k s endings, (λ e. cc, λ e. cc))
  end_peer_manager_leaves k s incident_channel_protocol_closed endings some_left =
      (left k s endings, (λ e. cc, λ e. cc))
  end_peer_manager_leaves k s incident_zero_peers endings some_left = absurd (some_left refl)
