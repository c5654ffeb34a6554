-- ===== src/Network/LoopListen.antt =====
-- src/network/looplisten.rs: the listener that hands incoming connections to the peer manager.
pub mod Handover
use p2p_network_implementati.Prelude.{
  List, Option, none, some, Bool, true, false, Result, ok, err, if◌then◌else◌, Flow, continues,
  returns, run_loop,
}
use p2p_network_implementati.Channel.{Sender, send}
use p2p_network_implementati.Network.Errors.{IoError, ErrorLoopListen}
use p2p_network_implementati.Network.Types.{TcpStream, EventsThreadNetwork, EventsLoopListen}
use p2p_network_implementati.Network.Wire.{SocketAddr}

-- What `select!` takes up.
pub data ListenIncident : Type 0 where
  result_accept : Result IoError (TcpStream × SocketAddr) → ListenIncident
  incident_thread_network : Option EventsThreadNetwork → ListenIncident

abbrev pub ListenFlow : Type 0
ListenFlow = Flow (Sender EventsLoopListen) (Result ErrorLoopListen (Unit {0}))

unfoldable pub hand_over : Sender EventsLoopListen → TcpStream → SocketAddr → ListenFlow
hand_over tx socket address =
    let (tx', sent) = send tx (EventsLoopListen.incoming_connection socket address) in
    if sent then continues tx' else returns (err ErrorLoopListen.error_channel_peer_manager_closed)

-- One turn of the loop.
unfoldable pub listen_step : Sender EventsLoopListen → ListenIncident → ListenFlow
unfolding hand_over
listen_step tx (result_accept (ok (socket, address))) = hand_over tx socket address
listen_step tx (result_accept (err e)) = continues tx
listen_step tx (incident_thread_network (some EventsThreadNetwork.shutdown)) = returns (ok tt)
listen_step tx (incident_thread_network (some (EventsThreadNetwork.outgoing_connection address))) =
    continues tx
listen_step tx (incident_thread_network none) =
    returns (err ErrorLoopListen.error_channel_thread_network_closed)

-- `run`; `bound` is the answer of `TcpListener::bind`.
unfoldable pub run_listen :
    Result IoError (Unit {0}) → Sender EventsLoopListen → List ListenIncident → ListenFlow
run_listen (err e) tx incidents = returns (err (ErrorLoopListen.error_input_output e))
run_listen (ok _) tx incidents = run_loop listen_step (continues tx) incidents
