-- ===== src/Protocol/HandleMessage/Exchange.antt =====
-- Two whole message handlers of src/protocol/handlemessage.rs, at the two ends of one connection.
use p2p_network_implementati.Prelude.{
  ℕ, suc, true, ◌≡◌, refl, ap, ◌∙◌, List, [], ◌∷◌, ◌++◌, some, ok, lookup, insert, remove, ==_refl,
  continues, run_loop, arith,
}
use p2p_network_implementati.Channel.{Sender, send_accepts}
use p2p_network_implementati.Network.Types.{
  PeerId, MessagePayload, version, verack, incoming_connection, outgoing_connection,
  StructContextConnection, EventsPeerManager,
}
use p2p_network_implementati.Network.Wire.{
  VersionMessage, VerackMessage, build_verack_message, validation_version_message,
}
use p2p_network_implementati.Protocol.Errors.{EventsHandleMessage}
use p2p_network_implementati.Protocol.Handshake.{
  PeerContextMetadata, PeerStateMetadata, new_state, Now, handle_msg, handle_verack,
}
use p2p_network_implementati.Protocol.Handshake.Answers.{
  built, validation-build_version_message, greeted, completed, opened, answer_incoming,
  answer_outgoing,
}
use p2p_network_implementati.Protocol.HandleMessage.{
  HandleMessage, HandleIncident, incident_peermanager, HandleFlow, context_of, insert_new,
  mark_send_version, open_outgoing, open_connection, on_new_connection, on_ready_message,
  handle_step, new_handle_message, run_handle_message,
}

-- A handler that knows one peer.
abbrev pub alone :
    PeerId → PeerContextMetadata → PeerStateMetadata → Sender EventsHandleMessage → HandleMessage
alone peerid context state tx = record {
  set_context_peers = (peerid, context) ∷ [];
  set_state_peers = (peerid, state) ∷ [];
  tx_channel_to_peermanager = tx;
}

on_new_connection-alone :
    (c : StructContextConnection) (tx : Sender EventsHandleMessage) (now : Now)
    → on_new_connection (new_handle_message tx) c now
      ≡ open_connection
          (alone c.peerid (context_of c) new_state tx)
          c.peerid
          (context_of c)
          new_state
          c.type_connection
          now
unfolding on_new_connection insert_new new_handle_message lookup insert remove
on_new_connection-alone c tx now = ground (arith, ==_refl c.peerid)

on_ready_message-alone :
    (peerid : PeerId) (context : PeerContextMetadata) (state : PeerStateMetadata)
    (tx : Sender EventsHandleMessage) (m : MessagePayload) (now : Now)
    → on_ready_message (alone peerid context state tx) peerid m now ≡ (
        let h = handle_msg peerid m context state tx now in
        continues (alone peerid context h.state h.tx_channel))
unfolding on_ready_message lookup insert remove
on_ready_message-alone peerid context state tx m now = ground (arith, ==_refl peerid)

open_outgoing-alone :
    (peerid : PeerId) (context : PeerContextMetadata) (tx : Sender EventsHandleMessage)
    (mine : VersionMessage) (n time : ℕ)
    → built context time ≡ ok mine
    → tx.accepts ≡ suc n
    → open_connection
        (alone peerid context new_state tx)
        peerid
        context
        new_state
        outgoing_connection
        (ok time)
      ≡ continues (
          alone peerid context opened (record {
            accepts = n;
            sent = tx.sent ++ (EventsHandleMessage.ready_message peerid (version mine) ∷ []);
          }))
unfolding open_connection open_outgoing mark_send_version new_state insert remove
open_outgoing-alone peerid context tx mine n time mine_built room =
    let hello = EventsHandleMessage.ready_message peerid (version mine) in
    rw (mine_built, open_outgoing)
      (rw (send_accepts n tx hello room) (ground (arith, ==_refl peerid)))

-- The incidents of one connection, each at its clock reading.
abbrev pub life :
    Now → StructContextConnection → Now → VersionMessage → Now → VerackMessage → List HandleIncident
life connected c greeting_read theirs verack_read ack =
    incident_peermanager connected (some (EventsPeerManager.incident_new_connection c))
    ∷ incident_peermanager greeting_read
        (some (EventsPeerManager.ready_message c.peerid (version theirs)))
    ∷ incident_peermanager verack_read
        (some (EventsPeerManager.ready_message c.peerid (verack ack)))
    ∷ []

-- What a handler has sent to a peer when their handshake is complete.
abbrev pub greeted_and_acknowledged :
    PeerId → VersionMessage → List EventsHandleMessage → List EventsHandleMessage
greeted_and_acknowledged peerid mine before =
    (before ++ (EventsHandleMessage.ready_message peerid (version mine) ∷ []))
    ++ (EventsHandleMessage.ready_message peerid (verack build_verack_message) ∷ [])

abbrev done : StructContextConnection → Sender EventsHandleMessage → VersionMessage → ℕ → HandleFlow
done c tx mine n = continues (
    alone c.peerid (context_of c) completed
      (record { accepts = n; sent = greeted_and_acknowledged c.peerid mine tx.sent }))

verack_alone :
    (peerid : PeerId) (context : PeerContextMetadata) (tx : Sender EventsHandleMessage)
    (ack : VerackMessage) (now : Now)
    → on_ready_message (alone peerid context greeted tx) peerid (verack ack) now
      ≡ continues (alone peerid context completed tx)
verack_alone peerid context tx ack now =
    on_ready_message-alone peerid context greeted tx (verack ack) now
    ∙ unfold handle_msg handle_verack in refl

version_outgoing_alone :
    (peerid : PeerId) (context : PeerContextMetadata) (tx : Sender EventsHandleMessage)
    (theirs : VersionMessage) (n : ℕ) (now : Now)
    → context.type_connect ≡ outgoing_connection
    → validation_version_message theirs ≡ true
    → tx.accepts ≡ suc n
    → on_ready_message (alone peerid context opened tx) peerid (version theirs) now
      ≡ continues (
          alone peerid context greeted (record {
            accepts = n;
            sent =
                tx.sent
                ++ (EventsHandleMessage.ready_message peerid (verack build_verack_message) ∷ []);
          }))
unfolding handle_msg
version_outgoing_alone peerid context tx theirs n now out good room =
    on_ready_message-alone peerid context opened tx (version theirs) now
    ∙ rw (out, answer_outgoing peerid context theirs tx n now good room) refl

version_incoming_alone :
    (peerid : PeerId) (context : PeerContextMetadata) (tx : Sender EventsHandleMessage)
    (mine theirs : VersionMessage) (n time : ℕ)
    → context.type_connect ≡ incoming_connection
    → built context time ≡ ok mine
    → validation_version_message theirs ≡ true
    → tx.accepts ≡ suc (suc n)
    → on_ready_message (alone peerid context new_state tx) peerid (version theirs) (ok time)
      ≡ continues (
          alone peerid context greeted
            (record { accepts = n; sent = greeted_and_acknowledged peerid mine tx.sent }))
unfolding handle_msg
version_incoming_alone peerid context tx mine theirs n time inc mine_built good room =
    on_ready_message-alone peerid context new_state tx (version theirs) (ok time)
    ∙ rw (inc, answer_incoming peerid context theirs mine tx n time good mine_built room) refl

caller_completes :
    (c : StructContextConnection) (tx : Sender EventsHandleMessage) (mine theirs : VersionMessage)
    (ack : VerackMessage) (n time : ℕ) (t u : Now)
    → c.type_connection ≡ outgoing_connection
    → built (context_of c) time ≡ ok mine
    → validation_version_message theirs ≡ true
    → tx.accepts ≡ suc (suc n)
    → run_handle_message (new_handle_message tx) (life (ok time) c t theirs u ack)
      ≡ done c tx mine n
unfolding run_handle_message run_loop handle_step
caller_completes c tx mine theirs ack n time t u out mine_built good room =
    let p = c.peerid in
    let context = context_of c in
    let hello : EventsHandleMessage = EventsHandleMessage.ready_message p (version mine) in
    let tx1 : Sender EventsHandleMessage = record {
      accepts = suc n;
      sent = tx.sent ++ (hello ∷ []);
    } in
    let i2 : HandleIncident =
      incident_peermanager t (some (EventsPeerManager.ready_message p (version theirs))) in
    let i3 : HandleIncident =
      incident_peermanager u (some (EventsPeerManager.ready_message p (verack ack))) in
    ap (λ f. run_loop handle_step f (i2 ∷ i3 ∷ []))
      (on_new_connection-alone c tx (ok time)
        ∙ ap (λ k. open_connection (alone p context new_state tx) p context new_state k (ok time))
            out
        ∙ open_outgoing-alone p context tx mine (suc n) time mine_built room)
    ∙ ap (λ f. run_loop handle_step f (i3 ∷ []))
        (version_outgoing_alone p context tx1 theirs n t out good refl)
    ∙ verack_alone p context _ ack u

callee_completes :
    (c : StructContextConnection) (tx : Sender EventsHandleMessage) (mine theirs : VersionMessage)
    (ack : VerackMessage) (n time : ℕ) (t u : Now)
    → c.type_connection ≡ incoming_connection
    → built (context_of c) time ≡ ok mine
    → validation_version_message theirs ≡ true
    → tx.accepts ≡ suc (suc n)
    → run_handle_message (new_handle_message tx) (life t c (ok time) theirs u ack)
      ≡ done c tx mine n
unfolding run_handle_message run_loop handle_step open_connection
callee_completes c tx mine theirs ack n time t u inc mine_built good room =
    let p = c.peerid in
    let context = context_of c in
    let i2 : HandleIncident =
      incident_peermanager (ok time) (some (EventsPeerManager.ready_message p (version theirs))) in
    let i3 : HandleIncident =
      incident_peermanager u (some (EventsPeerManager.ready_message p (verack ack))) in
    ap (λ f. run_loop handle_step f (i2 ∷ i3 ∷ []))
      (on_new_connection-alone c tx t
        ∙ ap (λ k. open_connection (alone p context new_state tx) p context new_state k t) inc)
    ∙ ap (λ f. run_loop handle_step f (i3 ∷ []))
        (version_incoming_alone p context tx mine theirs n time inc mine_built good room)
    ∙ verack_alone p context _ ack u

-- Two message handlers at the two ends of a connection, each of which just started, whose clocks
-- can be read when they build their version messages and whose managers take what they send,
-- complete their handshakes: each is told of the connection, then gets the version message that the
-- other built, then a verack. Each then knows its one peer, with a completed handshake, and has
-- sent it exactly its version message and a verack, in this order.
pub handlers_complete :
    (ca cb : StructContextConnection) (tx_a tx_b : Sender EventsHandleMessage)
    (va vb : VersionMessage) (na nb time_a time_b : ℕ) (t_a u_a t_b u_b : Now)
    → ca.type_connection ≡ outgoing_connection
    → cb.type_connection ≡ incoming_connection
    → built (context_of ca) time_a ≡ ok va
    → built (context_of cb) time_b ≡ ok vb
    → tx_a.accepts ≡ suc (suc na)
    → tx_b.accepts ≡ suc (suc nb)
    → (run_handle_message
          (new_handle_message tx_a)
          (life (ok time_a) ca t_a vb u_a build_verack_message)
        ≡ continues (
            alone ca.peerid
              (context_of ca)
              completed
              (record { accepts = na; sent = greeted_and_acknowledged ca.peerid va tx_a.sent })))
      × (run_handle_message
            (new_handle_message tx_b)
            (life t_b cb (ok time_b) va u_b build_verack_message)
          ≡ continues (
              alone cb.peerid
                (context_of cb)
                completed
                (record { accepts = nb; sent = greeted_and_acknowledged cb.peerid vb tx_b.sent })))
handlers_complete ca cb tx_a tx_b va vb na nb time_a time_b t_a u_a t_b u_b out inc ea eb ra rb = (
  caller_completes ca tx_a va vb build_verack_message na time_a t_a u_a out ea
      (validation-build_version_message (context_of cb) time_b eb) ra,
  callee_completes cb tx_b vb va build_verack_message nb time_b t_b u_b inc eb
      (validation-build_version_message (context_of ca) time_a ea) rb,
)
