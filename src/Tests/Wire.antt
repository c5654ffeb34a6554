-- ===== src/Tests/Wire.antt =====
-- The theorems on the wire format and on writing, at concrete messages.
use p2p_network_implementati.Prelude.{
  List, ℕ, [], ◌∷◌, ◌++◌, ◌+◌, ◌≡◌, refl, value, length, ◌≤◌, continues,
}
use p2p_network_implementati.Network.Errors.{os_error}
use p2p_network_implementati.Network.Types.{MessagePayload, version, verack}
use p2p_network_implementati.Network.Wire.{
  serialize_version_message, unserialize_version_message, build_verack_message,
}
use p2p_network_implementati.Network.Wire.RoundTrip.{unserialize_version_message-serialize}
use p2p_network_implementati.Network.Wire.Totality.{unserialize_version_message_takes}
use p2p_network_implementati.Network.TaskWrite.{OwnedWriteHalf, start_task_write}
use p2p_network_implementati.Network.TaskWrite.Writes.{start_task_write-frames, frames, to_write}
use p2p_network_implementati.Tests.Data.{digest, greeting, greeting-IsVersionMessage}

abbrev trailing : List ℕ
trailing = 1 ∷ 2 ∷ 3 ∷ []

unserialize_version_message-serialize_example :
    (unserialize_version_message (serialize_version_message greeting ++ trailing)
      ≡ value (greeting, length (serialize_version_message greeting)))
    × (length (serialize_version_message greeting) ≡ 93 + length greeting.user_agent.text)
unserialize_version_message-serialize_example =
    unserialize_version_message-serialize greeting trailing greeting-IsVersionMessage

unserialize_version_message_takes_example :
    (length (serialize_version_message greeting)
      ≤ length (serialize_version_message greeting ++ trailing))
    × (length (serialize_version_message greeting) ≡ 93 + length greeting.user_agent.text)
unserialize_version_message_takes_example =
    unserialize_version_message_takes (serialize_version_message greeting ++ trailing) greeting
      (length (serialize_version_message greeting)) unserialize_version_message-serialize_example.0

abbrev socket : OwnedWriteHalf
socket = record { writes = 5; failure = os_error 32; written = [] }

abbrev queue : List MessagePayload
queue = version greeting ∷ verack build_verack_message ∷ []

start_task_write-frames_example :
    start_task_write digest socket (to_write queue)
    ≡ continues (record { writes = 1; failure = os_error 32; written = frames digest queue })
start_task_write-frames_example = start_task_write-frames digest queue socket 1 refl
