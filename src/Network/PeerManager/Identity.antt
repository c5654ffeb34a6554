-- ===== src/Network/PeerManager/Identity.antt =====
-- Which id a new peer gets (src/network/peermanager.rs).
use p2p_network_implementati.Prelude.{
  none, if◌then◌else◌, Bool-cases, inl, inr, ap, Map, remove, Result, ℕ, ◌+◌, ◌^◌, ◌<◌, ◌≡◌, refl,
  ◌∙◌, [], ◌∷◌, ◌++◌, some, false, ok, err, arith, lookup, insert, lookup-insert, lookup-remove,
  continues, ◌==◌, ==_refl,
}
use p2p_network_implementati.Channel.{sent-send}
use p2p_network_implementati.Network.Errors.{ErrorPeer}
use p2p_network_implementati.Network.Types.{PeerId, TypeConnection, TcpStream, EventsPeerManager}
use p2p_network_implementati.Network.Wire.{SocketAddr}
use p2p_network_implementati.Network.Peer.{create_peer, PeerResult}
use p2p_network_implementati.Network.PeerManager.{
  PeerManager, PeerSystemMetadata, NewTask, u64_next, u64_previous, tell_protocol, add_peer,
  connect_peer, forget_peer, take_task, on_completed, finished_peer,
}

-- Telling the protocol changes the channel and nothing else.
tell_protocol-same :
    (s t : PeerManager) (event : EventsPeerManager)
    → tell_protocol s event ≡ continues t
    → (t.peerid ≡ s.peerid)
      × (t.set_all_peers ≡ s.set_all_peers)
      × (t.set_task_peers ≡ s.set_task_peers)
      × (t.set_id_peers ≡ s.set_id_peers)
      × (t.tx_channel_peermanager_to_protocol.sent
          ≡ s.tx_channel_peermanager_to_protocol.sent ++ (event ∷ []))
unfolding tell_protocol
tell_protocol-same s t event e =
    ground (arith, sent-send s.tx_channel_peermanager_to_protocol event)

abbrev pub new_entry : SocketAddr → TypeConnection → NewTask → PeerSystemMetadata
new_entry address t task = record {
  socket_address = address;
  type_connect = t;
  tx_channel_peermanager_to_peer = record { accepts = task.accepts; sent = [] };
}

-- What the manager tells the protocol of a new connection.
abbrev pub new_connection :
    PeerManager → TypeConnection → SocketAddr → SocketAddr → EventsPeerManager
new_connection s kind address local = EventsPeerManager.incident_new_connection (record {
  peerid = s.peerid;
  type_connection = kind;
  nonce = s.nonce;
  local_address = local;
  remove_address = address;
})

module _ (JoinError : Type 0) (s : PeerManager) (kind : TypeConnection) (socket : TcpStream)
    (address : SocketAddr) (task : NewTask) where
  connect_peer_adds :
      (t : PeerManager) (remote local : SocketAddr)
      → create_peer {JoinError = JoinError} socket ≡ ok (remote, local)
      → connect_peer JoinError s kind socket address task ≡ continues t
      → (t.peerid ≡ u64_next s.peerid)
        × (t.set_task_peers ≡ (task.id, s.peerid) ∷ s.set_task_peers)
        × (t.set_all_peers ≡ insert s.peerid (new_entry address kind task) s.set_all_peers)
        × (t.set_id_peers ≡ insert task.id s.peerid s.set_id_peers)
        × (t.tx_channel_peermanager_to_protocol.sent
            ≡ s.tx_channel_peermanager_to_protocol.sent
              ++ (new_connection s kind address local ∷ []))
  unfolding connect_peer add_peer
  connect_peer_adds t remote local created e =
      let (counter, all, tasks, ids, sent) =
        tell_protocol-same _ t _ (rw (created, connect_peer) at e) in
      (counter, tasks, all, ids, sent)

  -- A socket that has no address leaves the manager as it was.
  pub connect_peer_fails :
      (e : ErrorPeer JoinError)
      → s.peerid < 2 ^ 64
      → create_peer {JoinError = JoinError} socket ≡ err e
      → connect_peer JoinError s kind socket address task ≡ continues s
  unfolding connect_peer
  connect_peer_fails e small failed =
      rw (failed, connect_peer) (λ i. continues (record s { peerid = back i }))
    where
      back : u64_previous (u64_next s.peerid) ≡ s.peerid
      back = omega arith

rest_lem :
    (p k : PeerId) (entry : PeerSystemMetadata) (all before : Map PeerSystemMetadata)
    → all ≡ insert p entry before
    → (if p == k then none else lookup k all) ≡ (if p == k then none else lookup k before)
rest_lem p k entry all before e = elim (Bool-cases (p == k)) [
  | inl same ↦ rw same
  | inr other ↦ rw (other, e) (lookup-insert p k entry before ∙ rw other)
]

-- What a task says of itself when it ends: the id of its peer if it returned, its own if it panicked.
abbrev pub SaysOfItself :
    {JoinError : Type 0}
    → (JoinError → ℕ)
    → ℕ
    → PeerId
    → Result JoinError (PeerId × PeerResult JoinError)
    → Type 0
SaysOfItself error_id id peerid (ok (p, result)) = p ≡ peerid
SaysOfItself error_id id peerid (err e) = error_id e ≡ id

-- The peer of the task is found again, by the id that it returned or by the record of its task.
finished_peer_lem :
    {JoinError : Type 0} (error_id : JoinError → ℕ) (id : ℕ) (peerid : PeerId) (ids : Map PeerId)
    (s : PeerManager) (result : Result JoinError (PeerId × PeerResult JoinError))
    → SaysOfItself error_id id peerid result
    → s.set_id_peers ≡ insert id peerid ids
    → finished_peer JoinError error_id s result ≡ some peerid
unfolding finished_peer
finished_peer_lem error_id id peerid ids s (ok (p, result)) says recorded = ap some says
finished_peer_lem error_id id peerid ids s (err e) says recorded =
    rw (says, recorded) (lookup-insert id id peerid ids ∙ rw ==_refl refl)

-- A connection that is made and ends again, whether its task returns the id of its peer or panics,
-- leaves the counter and the other entries and tasks as they were: the entry under its id is gone,
-- and the protocol was told of the connection and then of the end of that peer. The counter is below
-- 2^64 - 1, and the protocol receives both events.
pub connect_then_ends :
    (JoinError : Type 0) (error_id : JoinError → ℕ) (s t u : PeerManager) (kind : TypeConnection)
    (socket : TcpStream) (address remote local : SocketAddr) (task : NewTask)
    (result : Result JoinError (PeerId × PeerResult JoinError)) (k : PeerId)
    → s.peerid + 1 < 2 ^ 64
    → create_peer {JoinError = JoinError} socket ≡ ok (remote, local)
    → connect_peer JoinError s kind socket address task ≡ continues t
    → SaysOfItself error_id task.id s.peerid result
    → on_completed JoinError error_id t task.id result ≡ continues u
    → (u.peerid ≡ s.peerid)
      × (u.set_task_peers ≡ remove task.id s.set_task_peers)
      × (lookup k u.set_all_peers ≡ (if s.peerid == k then none else lookup k s.set_all_peers))
      × (u.tx_channel_peermanager_to_protocol.sent
          ≡ (s.tx_channel_peermanager_to_protocol.sent
              ++ (new_connection s kind address local ∷ []))
            ++ (EventsPeerManager.incident_completed_peer s.peerid ∷ []))
unfolding on_completed forget_peer take_task remove
connect_then_ends JE error_id s t u kind socket address remote local task result k small created
      joined says ended =
    let (counter, tasks, all, ids, sent) =
      connect_peer_adds JE s kind socket address task t remote local created joined in
    let found : finished_peer JE error_id (take_task t task.id) result ≡ some s.peerid =
      finished_peer_lem error_id task.id s.peerid s.set_id_peers (take_task t task.id) result says
        ids in
    let gone : PeerManager = forget_peer (take_task t task.id) s.peerid in
    let told : tell_protocol gone (EventsPeerManager.incident_completed_peer s.peerid)
        ≡ continues u =
      rw (found, on_completed) at ended in
    let (counter', all', tasks', ids', sent') = tell_protocol-same gone u _ told in
    (
      omega arith,
      tasks' ∙ ap (remove task.id) tasks ∙ rw ==_refl refl,
      ap (lookup k) all'
          ∙ lookup-remove s.peerid k t.set_all_peers
          ∙ rest_lem s.peerid k (new_entry address kind task) t.set_all_peers s.set_all_peers all,
      sent' ∙ ap (λ l. l ++ (EventsPeerManager.incident_completed_peer s.peerid ∷ [])) sent,
    )

-- The counter is taken back for each peer that ends, whichever it is. So when a peer ends while the
-- peer of the id `q` just below the counter runs on in another task, and a connection is made next,
-- the new peer gets `q` as well: two running tasks then stand for the same id, and the entry of the
-- older one, with the channel to its task, is that of the new one.
pub ids_collide :
    (JoinError : Type 0) (error_id : JoinError → ℕ) (s t u : PeerManager) (kind : TypeConnection)
    (socket : TcpStream) (address remote local : SocketAddr) (task : NewTask) (id j : ℕ)
    (p q : PeerId) (result : PeerResult JoinError)
    → s.peerid ≡ q + 1
    → q + 1 < 2 ^ 64
    → lookup j s.set_task_peers ≡ some q
    → (id == j) ≡ false
    → (task.id == j) ≡ false
    → on_completed JoinError error_id s id (ok (p, result)) ≡ continues t
    → create_peer {JoinError = JoinError} socket ≡ ok (remote, local)
    → connect_peer JoinError t kind socket address task ≡ continues u
    → (lookup j u.set_task_peers ≡ some q)
      × (lookup task.id u.set_task_peers ≡ some q)
      × (lookup q u.set_all_peers ≡ some (new_entry address kind task))
unfolding on_completed forget_peer take_task lookup
ids_collide JE error_id s t u kind socket address remote local task id j p q result top small
      running not_j not_task ended created joined =
    let gone : PeerManager = forget_peer (take_task s id) p in
    let told : tell_protocol gone (EventsPeerManager.incident_completed_peer p) ≡ continues t =
      ended in
    let (counter, all, tasks, ids, sent) =
      tell_protocol-same gone t (EventsPeerManager.incident_completed_peer p) told in
    let (counter', tasks', all', ids', sent') =
      connect_peer_adds JE t kind socket address task u remote local created joined in
    let same : t.peerid ≡ q = omega arith in
    (
      rw (tasks', not_task, tasks) (lookup-remove id j s.set_task_peers ∙ rw not_j running),
      rw (tasks', ==_refl, same) refl,
      rw (all', same) (lookup-insert q q _ t.set_all_peers ∙ rw ==_refl refl),
    )
