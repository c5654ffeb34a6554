-- ===== src/Tests/Peers.antt =====
-- The theorems on the actor of a connection, at concrete results of its tasks.
use p2p_network_implementati.Prelude.{
  ℕ, List, [], ◌∷◌, ◌++◌, ◌≡◌, ◌≢◌, refl, some, ok, err, run_loop,
}
use p2p_network_implementati.Channel.{send}
use p2p_network_implementati.Network.Errors.{SuccessTaskRead, SuccessTaskWrite, SuccessPeer}
use p2p_network_implementati.Network.Types.{
  verack, version, EventsPeer, EventsPeerManager, low_raw_message,
}
use p2p_network_implementati.Network.Wire.{build_verack_message}
use p2p_network_implementati.Network.Peer.{
  JoinRead, JoinWrite, PeerChannels, PeerIncident, incident_peermanager, incident_task_read,
  run_peer, peer_step, send_to_task_write, send_to_peermanager, incident_channel_task_read_closed,
  EventsCriticalCompletion, incident_confirmation_shutdown, incident_channel_task_write_closed,
  incident_complited_task_read,
}
use p2p_network_implementati.Network.Peer.Forwarding.{run_peer_forwards}
use p2p_network_implementati.Network.PeerEnd.{end_peer, end_both, both_successful}
use p2p_network_implementati.Network.PeerEnd.Outcomes.{end_peer_order, end_peer-ok, success_of}
use p2p_network_implementati.Tests.Data.{open_channel, greeting}

-- A `JoinError`, as the id of its task.
abbrev Panicked : Type 0
Panicked = ℕ

abbrev channels : PeerChannels
channels = record {
  to_task_read = open_channel;
  to_task_write = open_channel;
  to_peermanager = open_channel;
}

abbrev busy : List (PeerIncident Panicked)
busy =
    incident_peermanager (some (EventsPeerManager.ready_low_message (version greeting)))
    ∷ incident_task_read (some (low_raw_message (verack build_verack_message)))
    ∷ []

run_peer_forwards_example :
    (EventsPeer.low_level_message (version greeting) ∷ []
      ≡ [] ++ (EventsPeer.low_level_message (version greeting) ∷ []))
    × (EventsPeer.ready_low_message 4 (verack build_verack_message) ∷ []
        ≡ [] ++ (EventsPeer.ready_low_message 4 (verack build_verack_message) ∷ []))
run_peer_forwards_example =
    run_peer_forwards Panicked 4 busy channels
      (record {
        to_task_read = open_channel;
        to_task_write = record {
          accepts = 8;
          sent = EventsPeer.low_level_message (version greeting) ∷ [];
        };
        to_peermanager = record {
          accepts = 8;
          sent = EventsPeer.ready_low_message 4 (verack build_verack_message) ∷ [];
        };
      })
      (unfold run_peer run_loop peer_step send_to_task_write send_to_peermanager send in refl)

abbrev read_to_the_end : JoinRead Panicked
read_to_the_end = ok (ok SuccessTaskRead.successful_eof)

abbrev wrote_all : JoinWrite Panicked
wrote_all = ok (ok SuccessTaskWrite.successful)

end_peer_order_example :
    ((end_peer {JoinError = Panicked} channels
        (incident_complited_task_read (ok SuccessTaskRead.successful_eof))
        (err 3)
        (err 9)).1
      ≡ (end_peer channels incident_confirmation_shutdown read_to_the_end (err 9)).1)
    × ((end_peer {JoinError = Panicked} channels
          (EventsCriticalCompletion.incident_join_handle_task_write 9)
          read_to_the_end
          wrote_all).1
        ≡ (end_peer channels incident_confirmation_shutdown read_to_the_end (err 9)).1)
end_peer_order_example = end_peer_order channels read_to_the_end (err 3) (err 9) wrote_all

abbrev broken_pipe : SuccessPeer
broken_pipe = SuccessPeer.successful_task_read_broken_pipe_task_write_successful

abbrev stopped : EventsCriticalCompletion Panicked
stopped = incident_confirmation_shutdown

end_peer-ok_example :
    ((r : SuccessTaskRead) × (w : SuccessTaskWrite) × (read_to_the_end ≡ ok (ok r))
      × (wrote_all ≡ ok (ok w))
      × (broken_pipe ≡ success_of r))
    × (stopped ≢ incident_channel_task_read_closed)
    × (stopped ≢ incident_channel_task_write_closed)
end_peer-ok_example =
    end_peer-ok channels stopped read_to_the_end wrote_all broken_pipe
      (unfold end_peer end_both both_successful in refl)
