-- ===== src/Network/TaskWrite.antt =====
-- src/network/task_write.rs: the task that frames messages and writes them to the socket.
pub mod Writes
use p2p_network_implementati.Prelude.{
  ℕ, zero, suc, List, [], ◌∷◌, ◌++◌, Option, none, some, Result, ok, err, Flow, continues, returns,
  run_loop,
}
use p2p_network_implementati.Network.Errors.{IoError, ErrorTaskWrite, SuccessTaskWrite}
use p2p_network_implementati.Network.Types.{MessagePayload, version, verack, EventsPeer}
use p2p_network_implementati.Network.Wire.{
  HeaderMessage, serialize_header_message, new_header_message, serialize_version_message,
  serialize_verack_message, length_version_message, length_verack_message, checksum_calculate,
  bytes_version, bytes_verack,
}

-- The write half of the socket: `write_all` succeeds `writes` more times and then fails with
-- `failure`. `written` holds what the completed calls wrote.
pub record OwnedWriteHalf : Type 0 where
  pub writes : ℕ
  pub failure : IoError
  pub written : List ℕ

write_all_within : ℕ → OwnedWriteHalf → List ℕ → Result IoError OwnedWriteHalf
write_all_within zero socket bytes = err socket.failure
write_all_within (suc n) socket bytes =
    ok (record socket { writes = n; written = socket.written ++ bytes })

unfoldable pub write_all : OwnedWriteHalf → List ℕ → Result IoError OwnedWriteHalf
unfolding write_all_within
write_all socket bytes = write_all_within socket.writes socket bytes

-- The two `write_all` calls of a message, the header and then the payload.
abbrev pub payload_bytes : MessagePayload → List ℕ
payload_bytes (version v) = serialize_version_message v
payload_bytes (verack v) = serialize_verack_message v ∷ []

module _ (digest : List ℕ → List ℕ) where
  unfoldable pub create_header_message : MessagePayload → HeaderMessage
  create_header_message (version v) =
      new_header_message bytes_version (length_version_message v)
        (checksum_calculate digest (serialize_version_message v))
  create_header_message (verack v) =
      new_header_message bytes_verack (length_verack_message v)
        (checksum_calculate digest (serialize_verack_message v ∷ []))

  -- All the bytes of a message on the wire.
  unfoldable pub frame : MessagePayload → List ℕ
  unfolding create_header_message
  frame message = serialize_header_message (create_header_message message) ++ payload_bytes message

  unfoldable pub write_message :
      OwnedWriteHalf → MessagePayload → Flow OwnedWriteHalf (Result ErrorTaskWrite SuccessTaskWrite)
  write_message socket message =
      elim (write_all socket (serialize_header_message (create_header_message message))) [
        | err e ↦ returns (err (ErrorTaskWrite.error_input_output e))
        | ok socket' ↦ elim (write_all socket' (payload_bytes message)) [
          | err e ↦ returns (err (ErrorTaskWrite.error_input_output e))
          | ok socket'' ↦ continues socket''
        ]
      ]

  -- One turn of the loop of `start_task_write`, on what `recv()` gave.
  unfoldable pub task_write_step :
      OwnedWriteHalf
      → Option EventsPeer
      → Flow OwnedWriteHalf (Result ErrorTaskWrite SuccessTaskWrite)
  task_write_step socket (some (EventsPeer.low_level_message message)) =
      write_message socket message
  task_write_step socket (some EventsPeer.shutdown) = returns (ok SuccessTaskWrite.successful)
  task_write_step socket (some (EventsPeer.ready_low_message peerid message)) = continues socket
  task_write_step socket none = returns (err ErrorTaskWrite.error_channel_peer_closed)

  unfoldable pub start_task_write :
      OwnedWriteHalf
      → List (Option EventsPeer)
      → Flow OwnedWriteHalf (Result ErrorTaskWrite SuccessTaskWrite)
  start_task_write socket incidents = run_loop task_write_step (continues socket) incidents
