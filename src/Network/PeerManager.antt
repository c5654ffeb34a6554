-- ===== src/Network/PeerManager.antt =====
-- src/network/peermanager.rs: the manager that opens, routes to and closes the peers.
-- tokio's `JoinError` and the `id()` of one are parameters. The peers' tasks (`set_task_peers`) are
-- listed by the task's id with the peer's id that the task returns. What the operating system and the
-- runtime decide (the answer of `connect`, the id of a new task, which task ends first and how) comes
-- with each incident. `active_peers` is never used and left out. `peerid` is a `u64` and wraps.
pub mod Ending
pub mod Distinct
pub mod Counting
pub mod Tasks
pub mod Identity
pub mod Routing
use p2p_network_implementati.Prelude.{
  ℕ, ◌+◌, ◌-◌, ◌%◌, ◌^◌, List, [], ◌∷◌, Option, none, some, Bool, true, false, Result, ok, err,
  if◌then◌else◌, ◌==◌, Map, lookup, insert, remove, Flow, continues, returns, run_loop,
}
use p2p_network_implementati.Channel.{Sender, send}
use p2p_network_implementati.Network.Errors.{IoError, ErrorPeerManager, ErrorSendEvents, ErrorPeer}
use p2p_network_implementati.Network.Types.{
  PeerId, MessagePayload, TypeConnection, incoming_connection, outgoing_connection,
  StructContextConnection, TcpStream, EventsPeer, EventsPeerManager, EventsThreadNetwork,
  EventsLoopListen,
}
use p2p_network_implementati.Network.Wire.{SocketAddr}
use p2p_network_implementati.Network.Peer.{create_peer, PeerResult}
use p2p_network_implementati.Protocol.Errors.{EventsHandleMessage}

pub record PeerSystemMetadata : Type 0 where
  pub socket_address : SocketAddr
  pub type_connect : TypeConnection
  pub tx_channel_peermanager_to_peer : Sender EventsPeerManager

-- `active_peers` and `listen_address`, which nothing reads, and the receiving ends are left out.
pub record PeerManager : Type 0 where
  pub peerid : ℕ  -- u64
  pub set_all_peers : Map PeerSystemMetadata
  pub set_task_peers : Map PeerId
  pub set_id_peers : Map PeerId
  pub nonce : ℕ
  pub tx_channel_peermanager_to_protocol : Sender EventsPeerManager

-- `PeerManager::create`; the nonce is drawn at random.
unfoldable pub new_peer_manager : ℕ → Sender EventsPeerManager → PeerManager
new_peer_manager nonce tx = record {
  peerid = 1;
  set_all_peers = [];
  set_task_peers = [];
  set_id_peers = [];
  nonce = nonce;
  tx_channel_peermanager_to_protocol = tx;
}

-- What the runtime decides about a new peer: the id of its task, and how long the task receives.
pub record NewTask : Type 0 where
  pub id : ℕ
  pub accepts : ℕ

pub data EventsCriticalCompletionPeerManager : Type 0 where
  incident_confirmation_shutdown : EventsCriticalCompletionPeerManager
  incident_channel_thread_network_closed : EventsCriticalCompletionPeerManager
  incident_channel_loop_listen_closed : EventsCriticalCompletionPeerManager
  incident_channel_protocol_closed : EventsCriticalCompletionPeerManager
  incident_zero_peers : EventsCriticalCompletionPeerManager

abbrev pub ManagerFlow : Type 0
ManagerFlow = Flow PeerManager EventsCriticalCompletionPeerManager

-- `self.peerid += 1` and `self.peerid -= 1`, as a release build does them: they wrap. A build with
-- overflow checks panics where they do.
abbrev pub u64_next : ℕ → ℕ
u64_next n = (n + 1) % 2 ^ 64

abbrev pub u64_previous : ℕ → ℕ
u64_previous n = (n + 2 ^ 64 - 1) % 2 ^ 64

-- `tx_channel_peermanager_to_protocol.send(event)`; a closed channel ends the loop.
unfoldable pub tell_protocol : PeerManager → EventsPeerManager → ManagerFlow
tell_protocol s event =
    let (tx, sent) = send s.tx_channel_peermanager_to_protocol event in
    let s' : PeerManager = record s { tx_channel_peermanager_to_protocol = tx } in
    if sent then continues s' else returns incident_channel_protocol_closed

-- A peer that was created: its task is spawned, its entries are made, and the protocol is told.
unfoldable pub add_peer :
    PeerManager → TypeConnection → SocketAddr → SocketAddr → NewTask → ManagerFlow
unfolding tell_protocol
add_peer s type_connection address local_address task =
    let new_peerid = s.peerid in
    tell_protocol
      (record s {
        peerid = u64_next new_peerid;
        set_task_peers = (task.id, new_peerid) ∷ s.set_task_peers;
        set_all_peers =
            insert new_peerid
              (record {
                socket_address = address;
                type_connect = type_connection;
                tx_channel_peermanager_to_peer = record { accepts = task.accepts; sent = [] };
              })
              s.set_all_peers;
        set_id_peers = insert task.id new_peerid s.set_id_peers;
      })
      (EventsPeerManager.incident_new_connection (record {
        peerid = new_peerid;
        type_connection = type_connection;
        nonce = s.nonce;
        local_address = local_address;
        remove_address = address;
      }))

-- Both branches that have a socket. Where `Peer::create` fails, `peerid` is taken back.
unfoldable pub connect_peer :
    (JoinError : Type 0)
    → PeerManager
    → TypeConnection
    → TcpStream
    → SocketAddr
    → NewTask
    → ManagerFlow
unfolding add_peer
connect_peer JoinError s type_connection socket address task =
    elim (create_peer {JoinError = JoinError} socket) [
      | ok addresses ↦ add_peer s type_connection address addresses.1 task
      | err e ↦ continues (record s { peerid = u64_previous (u64_next s.peerid) })
    ]

-- `send_events_peer`: the map afterwards, and the result.
unfoldable pub send_events_peer :
    PeerId
    → MessagePayload
    → Map PeerSystemMetadata
    → Map PeerSystemMetadata × Result ErrorSendEvents (Unit {0})
send_events_peer basic_peerid message all_peers = elim (lookup basic_peerid all_peers) [
  | none ↦ (all_peers, err ErrorSendEvents.missing_peer)
  | some peer ↦
      let (tx, sent) =
        send peer.tx_channel_peermanager_to_peer (EventsPeerManager.ready_low_message message) in
      let all_peers' =
        insert basic_peerid (record peer { tx_channel_peermanager_to_peer = tx }) all_peers in
      (all_peers', if sent then ok tt else err ErrorSendEvents.error_channel_peer_closed)
]

after_send :
    PeerManager → PeerId → Map PeerSystemMetadata → Result ErrorSendEvents (Unit {0}) → PeerManager
after_send s peerid all_peers (ok _) = record s { set_all_peers = all_peers }
after_send s peerid all_peers (err ErrorSendEvents.error_channel_peer_closed) = record s {
  set_all_peers = remove peerid all_peers;
}
after_send s peerid all_peers (err ErrorSendEvents.missing_peer) = record s {
  set_all_peers = all_peers;
}

-- `IncidentProtocolReadyMessagePeer`.
unfoldable pub on_ready_message : PeerManager → PeerId → MessagePayload → PeerManager
unfolding after_send
on_ready_message s peerid message =
    let (all_peers, result) = send_events_peer peerid message s.set_all_peers in
    after_send s peerid all_peers result

-- `IncidetViolentComplitedPeer`.
unfoldable pub on_violent_completion : PeerManager → PeerId → PeerManager
on_violent_completion s peerid = elim (lookup peerid s.set_all_peers) [
  | none ↦ s
  | some peer ↦ record s {
    set_all_peers =
        insert peerid
          (record peer {
            tx_channel_peermanager_to_peer =
                (send peer.tx_channel_peermanager_to_peer EventsPeerManager.shutdown).0;
          })
          s.set_all_peers;
  }
]

-- A finished peer is forgotten: `set_all_peers.remove(&peerid); self.peerid -= 1;`.
unfoldable pub forget_peer : PeerManager → PeerId → PeerManager
forget_peer s peerid = record s {
  set_all_peers = remove peerid s.set_all_peers;
  peerid = u64_previous s.peerid;
}

-- `JoinSet::join_next` hands out a task once.
unfoldable pub take_task : PeerManager → ℕ → PeerManager
take_task s id = record s { set_task_peers = remove id s.set_task_peers }

-- What `select!` takes up, with what the environment decided about it.
pub data ManagerIncident (JoinError : Type 0) : Type 0 where
  incident_thread_network :
      Option EventsThreadNetwork → Result IoError TcpStream → NewTask → ManagerIncident JoinError
  incident_looplisten : Option EventsLoopListen → NewTask → ManagerIncident JoinError
  incident_protocol : Option EventsHandleMessage → ManagerIncident JoinError
  incident_peer : Option EventsPeer → ManagerIncident JoinError
  result_peer : ℕ → Result JoinError (PeerId × PeerResult JoinError) → ManagerIncident JoinError

module _ (JoinError : Type 0) (error_id : JoinError → ℕ) where
  -- The peer that a finished task stood for: it returned its id, or the error's task is looked up.
  unfoldable pub finished_peer :
      PeerManager → Result JoinError (PeerId × PeerResult JoinError) → Option PeerId
  finished_peer s (ok (peerid, result)) = some peerid
  finished_peer s (err error_peer) = lookup (error_id error_peer) s.set_id_peers

  -- `IncidentComplitedPeerResult`; the arms differ in the log only.
  unfoldable pub on_completed :
      PeerManager → ℕ → Result JoinError (PeerId × PeerResult JoinError) → ManagerFlow
  unfolding finished_peer
  on_completed s id result =
      let s' = take_task s id in
      elim (finished_peer s' result) [
        | none ↦ continues s'
        | some peerid ↦
            tell_protocol (forget_peer s' peerid) (EventsPeerManager.incident_completed_peer peerid)
      ]

  -- One turn of the loop of `PeerManager::run`.
  unfoldable pub manager_step : PeerManager → ManagerIncident JoinError → ManagerFlow
  manager_step s
        (incident_thread_network
          (some (EventsThreadNetwork.outgoing_connection address))
          (ok socket)
          task) =
      connect_peer JoinError s outgoing_connection socket address task
  manager_step s
        (incident_thread_network
          (some (EventsThreadNetwork.outgoing_connection address))
          (err e)
          task) =
      continues s
  manager_step s (incident_thread_network (some EventsThreadNetwork.shutdown) connected task) =
      returns incident_confirmation_shutdown
  manager_step s (incident_thread_network none connected task) =
      returns incident_channel_thread_network_closed
  manager_step s
        (incident_looplisten (some (EventsLoopListen.incoming_connection socket address)) task) =
      connect_peer JoinError s TypeConnection.incoming_connection socket address task
  manager_step s (incident_looplisten none task) = returns incident_channel_loop_listen_closed
  manager_step s (incident_protocol (some (EventsHandleMessage.ready_message peerid message))) =
      continues (on_ready_message s peerid message)
  manager_step s
        (incident_protocol (some (EventsHandleMessage.incidet_violent_complited_peer peerid))) =
      continues (on_violent_completion s peerid)
  manager_step s (incident_protocol none) = returns incident_channel_protocol_closed
  manager_step s (incident_peer (some (EventsPeer.ready_low_message peerid message))) =
      tell_protocol s (EventsPeerManager.ready_message peerid message)
  manager_step s (incident_peer (some EventsPeer.shutdown)) = continues s
  manager_step s (incident_peer (some (EventsPeer.low_level_message message))) = continues s
  manager_step s (incident_peer none) =
      tell_protocol s EventsPeerManager.incident_completed_all_peer
  manager_step s (result_peer id result) = on_completed s id result

  unfoldable pub run_peer_manager : PeerManager → List (ManagerIncident JoinError) → ManagerFlow
  run_peer_manager s incidents = run_loop manager_step (continues s) incidents
