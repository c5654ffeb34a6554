-- ===== src/Protocol/HandleMessage/Registry.antt =====
-- The two maps of src/protocol/handlemessage.rs, `HandleMessage`, over the life of its loop.
use p2p_network_implementati.Prelude.{
  ℕ, ◌≡◌, refl, List, Option, none, some, Result, ok, err, arith, Map, lookup, insert, remove,
  lookup-insert, lookup-remove, contains_key, ◌==◌, if◌then◌else◌, Bool-cases, Option-cases, inl,
  inr, ==_iff, continues, run_loop-keeps,
}
use p2p_network_implementati.Channel.{Sender, send}
use p2p_network_implementati.Network.Errors.{ErrorCreateVersionMessage}
use p2p_network_implementati.Network.Wire.{VersionMessage, build_version_message}
use p2p_network_implementati.Network.Types.{
  PeerId, MessagePayload, version, TypeConnection, incoming_connection, outgoing_connection,
  StructContextConnection, EventsPeerManager,
}
use p2p_network_implementati.Protocol.Errors.{EventsHandleMessage, EventsThreadProtocol}
use p2p_network_implementati.Protocol.Handshake.{
  PeerContextMetadata, PeerStateMetadata, new_state, Now,
}
use p2p_network_implementati.Protocol.Handshake.Invariant.{
  IsHandshake, new_state-IsHandshake, handle_msg-IsHandshake,
}
use p2p_network_implementati.Protocol.HandleMessage.{
  HandleMessage, HandleIncident, incident_thread_protocol, incident_peermanager, HandleFlow,
  insert_new, context_of, mark_send_version, open_outgoing, open_connection, on_new_connection,
  on_ready_message, handle_step, new_handle_message, run_handle_message,
}

-- A peer stands in both maps or in neither, and its handshake is in order.
abbrev pub Paired : Option PeerContextMetadata → Option PeerStateMetadata → Type 0
Paired none none = Unit {0}
Paired (some context) (some state) = IsHandshake context.type_connect state
Paired none (some state) = ⊥
Paired (some context) none = ⊥

abbrev Registered : Map PeerContextMetadata → Map PeerStateMetadata → Type 0
Registered contexts states = (k : ℕ) → Paired (lookup k contexts) (lookup k states)

pub record IsRegistry (s : HandleMessage) : Type 0 where
  pub paired : (k : ℕ) → Paired (lookup k s.set_context_peers) (lookup k s.set_state_peers)

mark_send_version-IsHandshake :
    (state : PeerStateMetadata)
    → IsHandshake outgoing_connection state
    → IsHandshake outgoing_connection (mark_send_version state)
unfolding mark_send_version
mark_send_version-IsHandshake state h = ground arith

-- A peer's own state may be replaced by one whose handshake is in order.
Registered-set_state :
    (contexts : Map PeerContextMetadata) (states : Map PeerStateMetadata) (peerid : ℕ)
    (context : PeerContextMetadata) (state : PeerStateMetadata)
    → Registered contexts states
    → lookup peerid contexts ≡ some context
    → IsHandshake context.type_connect state
    → Registered contexts (insert peerid state states)
Registered-set_state contexts states peerid context state h found good k =
    elim (Bool-cases (peerid == k)) [
      | inl same ↦
          let e : peerid ≡ k = (==_iff peerid k).0 same in rw (lookup-insert, same, ← e, found) good
      | inr other ↦ rw (lookup-insert, other) (h k)
    ]

Registered-remove :
    (contexts : Map PeerContextMetadata) (states : Map PeerStateMetadata) (peerid : ℕ)
    → Registered contexts states
    → Registered (remove peerid contexts) (remove peerid states)
Registered-remove contexts states peerid h k = elim (Bool-cases (peerid == k)) [
  | inl same ↦ rw (lookup-remove peerid k contexts, lookup-remove peerid k states, same) tt
  | inr other ↦ rw (lookup-remove peerid k contexts, lookup-remove peerid k states, other) (h k)
]

abbrev value_or {ℓ} : {A : Type ℓ} → Option A → A → A
value_or none a = a
value_or (some b) a = b

lookup-insert_new :
    {V : Type 0} (p k : ℕ) (v : V) (m : Map V)
    → lookup k (insert_new p v m) ≡ (if p == k then some (value_or (lookup p m) v) else lookup k m)
unfolding insert_new
lookup-insert_new p k v m = elim (Option-cases (lookup p m)) [
  | inl absent ↦ rw (absent, contains_key) (lookup-insert p k v m)
  | inr (old, there) ↦
      rw (there, contains_key)
        (elim (Bool-cases (p == k)) [
          | inl same ↦ let e : p ≡ k = (==_iff p k).0 same in rw (same, ← e) there
          | inr other ↦ rw other
        ])
]

Paired-value_or :
    (context : PeerContextMetadata) (o : Option PeerContextMetadata) (q : Option PeerStateMetadata)
    → Paired o q
    → Paired (some (value_or o context)) (some (value_or q new_state))
Paired-value_or context none none h = new_state-IsHandshake context.type_connect
Paired-value_or context (some c) (some s) h = h
Paired-value_or context none (some s) h = absurd h
Paired-value_or context (some c) none h = absurd h

Registered-insert_new :
    (contexts : Map PeerContextMetadata) (states : Map PeerStateMetadata) (peerid : ℕ)
    (context : PeerContextMetadata)
    → Registered contexts states
    → Registered (insert_new peerid context contexts) (insert_new peerid new_state states)
Registered-insert_new contexts states peerid context h k = elim (Bool-cases (peerid == k)) [
  | inl same ↦
      rw
        (
          lookup-insert_new peerid k context contexts,
          lookup-insert_new peerid k new_state states,
          same,
        )
        (Paired-value_or context (lookup peerid contexts) (lookup peerid states) (h peerid))
  | inr other ↦
      rw
        (
          lookup-insert_new peerid k context contexts,
          lookup-insert_new peerid k new_state states,
          other,
        )
        (h k)
]

-- What a turn leaves behind, where the loop goes on.
abbrev Keeps : HandleFlow → Type 0
Keeps (continues s) = Registered s.set_context_peers s.set_state_peers
Keeps _ = Unit {0}

open_connection-Keeps :
    (s : HandleMessage) (peerid : PeerId) (context : PeerContextMetadata)
    (state : PeerStateMetadata) (t : TypeConnection) (now : Now)
    → Registered s.set_context_peers s.set_state_peers
    → lookup peerid s.set_context_peers ≡ some context
    → context.type_connect ≡ t
    → IsHandshake t state
    → Keeps (open_connection s peerid context state t now)
unfolding open_connection
open_connection-Keeps s peerid context state incoming_connection now h found is_t good = h
open_connection-Keeps s peerid context state outgoing_connection now h found is_t good =
    outgoing (build_version_message context.local_address context.remove_address context.nonce now)
  where
    marked :
        Registered s.set_context_peers (insert peerid (mark_send_version state) s.set_state_peers)
    marked =
        Registered-set_state s.set_context_peers s.set_state_peers peerid context
          (mark_send_version state) h found (rw is_t (mark_send_version-IsHandshake state good))

    outgoing :
        (m : Result ErrorCreateVersionMessage VersionMessage)
        → Keeps (open_outgoing s peerid state m)
    outgoing (err e) = h
    outgoing (ok m) =
        elim (Bool-cases
          (send s.tx_channel_to_peermanager
            (EventsHandleMessage.ready_message peerid (version m))).1) [
              | inl sent ↦ rw sent marked
              | inr lost ↦ rw lost tt
            ]

on_new_connection-Keeps :
    (s : HandleMessage) (c : StructContextConnection) (now : Now)
    → Registered s.set_context_peers s.set_state_peers
    → Keeps (on_new_connection s c now)
unfolding on_new_connection
on_new_connection-Keeps s c now h = elim (Option-cases (lookup c.peerid contexts)) [
  | inl absent ↦ rw (absent, on_new_connection) added
  | inr (context, there) ↦
      rw (there, on_new_connection)
        (elim (Option-cases (lookup c.peerid states)) [
          | inl absent ↦ rw (absent, on_new_connection) added
          | inr (state, found) ↦
              rw (found, on_new_connection)
                (open_connection-Keeps _ c.peerid context state context.type_connect now added there
                  refl (rw (there, found) at (added c.peerid)))
        ])
]
  where
    contexts : Map PeerContextMetadata
    contexts = insert_new c.peerid (context_of c) s.set_context_peers

    states : Map PeerStateMetadata
    states = insert_new c.peerid new_state s.set_state_peers

    added : Registered contexts states
    added = Registered-insert_new s.set_context_peers s.set_state_peers c.peerid (context_of c) h

on_ready_message-Keeps :
    (s : HandleMessage) (peerid : PeerId) (message : MessagePayload) (now : Now)
    → Registered s.set_context_peers s.set_state_peers
    → Keeps (on_ready_message s peerid message now)
unfolding on_ready_message
on_ready_message-Keeps s peerid message now h =
    elim (Option-cases (lookup peerid s.set_context_peers)) [
      | inl absent ↦ rw (absent, on_ready_message) h
      | inr (context, there) ↦
          rw (there, on_ready_message)
            (elim (Option-cases (lookup peerid s.set_state_peers)) [
              | inl absent ↦ rw (absent, on_ready_message) h
              | inr (state, found) ↦
                  rw (found, on_ready_message)
                    (Registered-set_state s.set_context_peers s.set_state_peers peerid context _ h
                      there
                      (handle_msg-IsHandshake peerid context state s.tx_channel_to_peermanager now
                        message (rw (there, found) at (h peerid))))
            ])
    ]

handle_step-Keeps :
    (s : HandleMessage) (i : HandleIncident)
    → Registered s.set_context_peers s.set_state_peers
    → Keeps (handle_step s i)
unfolding handle_step
handle_step-Keeps s (incident_thread_protocol (some EventsThreadProtocol.shutdown)) h = tt
handle_step-Keeps s (incident_thread_protocol none) h = tt
handle_step-Keeps s (incident_peermanager now none) h = tt
handle_step-Keeps s (incident_peermanager now (some (EventsPeerManager.ready_message p m))) h =
    on_ready_message-Keeps s p m now h
handle_step-Keeps s (incident_peermanager now (some (EventsPeerManager.incident_new_connection c)))
      h =
    on_new_connection-Keeps s c now h
handle_step-Keeps s (incident_peermanager now (some EventsPeerManager.incident_completed_all_peer))
      h =
    λ k. unfold lookup in tt
handle_step-Keeps s (incident_peermanager now (some (EventsPeerManager.incident_completed_peer p)))
      h =
    Registered-remove s.set_context_peers s.set_state_peers p h
handle_step-Keeps s (incident_peermanager now (some (EventsPeerManager.ready_low_message m))) h = h
handle_step-Keeps s (incident_peermanager now (some EventsPeerManager.shutdown)) h = h

-- However the incidents arrive, for as long as the loop runs each peer stands in both maps or in
-- neither, and each handshake is in order.
pub run_handle_message-IsRegistry :
    (incidents : List HandleIncident) (tx : Sender EventsHandleMessage) (s : HandleMessage)
    → run_handle_message (new_handle_message tx) incidents ≡ continues s
    → IsRegistry s
unfolding run_handle_message
run_handle_message-IsRegistry incidents tx s e = record {
  paired =
      run_loop-keeps (λ t. Registered t.set_context_peers t.set_state_peers) handle_step
        (λ t u i h q. rw q at (handle_step-Keeps t i h)) incidents (new_handle_message tx) s
        (λ k. unfold lookup new_handle_message in tt) e;
}
