-- ===== src/Network/LoopListen/Handover.antt =====
-- What the listener of src/network/looplisten.rs has handed to the peer manager.
use p2p_network_implementati.Prelude.{
  ◌≡◌, refl, sym, ap, ◌∙◌, List, [], ◌∷◌, ◌++◌, append_assoc, append-nil, none, Result, ok, err,
  arith, continues, run_loop, run_loop-continues,
}
use p2p_network_implementati.Channel.{Sender, sent-send}
use p2p_network_implementati.Network.Errors.{IoError}
use p2p_network_implementati.Network.Types.{EventsLoopListen}
use p2p_network_implementati.Network.LoopListen.{
  ListenIncident, result_accept, incident_thread_network, listen_step, run_listen,
}

-- The connections that were accepted.
abbrev accepted : List ListenIncident → List EventsLoopListen
accepted [] = []
accepted (result_accept (ok (socket, address)) ∷ is) =
    EventsLoopListen.incoming_connection socket address ∷ accepted is
accepted (_ ∷ is) = accepted is

accepted-cons :
    (i : ListenIncident) (is : List ListenIncident)
    → accepted (i ∷ is) ≡ accepted (i ∷ []) ++ accepted is
accepted-cons (result_accept (ok (socket, address))) is = refl
accepted-cons _ is = refl

listen_step-adds :
    (tx ty : Sender EventsLoopListen) (i : ListenIncident)
    → listen_step tx i ≡ continues ty
    → ty.sent ≡ tx.sent ++ accepted (i ∷ [])
unfolding listen_step
listen_step-adds tx ty (result_accept (ok (socket, address))) e =
    ground (arith, sent-send tx (EventsLoopListen.incoming_connection socket address))
listen_step-adds tx ty (incident_thread_network none) e = cc
listen_step-adds tx ty _ e = ground (arith, append-nil tx.sent)

from_loop :
    (is : List ListenIncident) (tx ty : Sender EventsLoopListen)
    → run_loop listen_step (continues tx) is ≡ continues ty
    → ty.sent ≡ tx.sent ++ accepted is
unfolding run_loop
from_loop [] tx ty e = ground (arith, append-nil tx.sent)
from_loop (i ∷ is) tx ty e =
    let (m, p) = run_loop-continues listen_step (listen_step tx i) is ty e in
    from_loop is m ty (rw p at e)
    ∙ ap (λ t. t ++ accepted is) (listen_step-adds tx m i p)
    ∙ append_assoc tx.sent (accepted (i ∷ [])) (accepted is)
    ∙ ap (λ t. tx.sent ++ t) (sym (accepted-cons i is))

-- While the listener runs, every accepted connection has been handed to the peer manager, once and in
-- order; an accept that failed hands over nothing and stops nothing.
pub run_listen_hands_over :
    (is : List ListenIncident) (bound : Result IoError (Unit {0})) (tx ty : Sender EventsLoopListen)
    → run_listen bound tx is ≡ continues ty
    → ty.sent ≡ tx.sent ++ accepted is
unfolding run_listen
run_listen_hands_over is (ok _) tx ty e = from_loop is tx ty e
run_listen_hands_over is (err x) tx ty e = cc
