-- ===== src/Network/TaskRead.antt =====
-- src/network/task_read.rs: the task that collects bytes from the socket and cuts messages out.
pub mod Header
pub mod Framing
pub mod Safety
pub mod Stream
pub mod Delivery
pub mod Malformed
use p2p_network_implementati.Prelude.{
  ℕ, ◌+◌, ◌*◌, ◌^◌, List, [], ◌∷◌, ◌++◌, Option, none, some, Result, ok, err, Outcome, value, fails,
  panic, ◌>>=◌, ◌>>◌, return_if, map_err, Flow, continues, returns, panics, run_loop, if◌then◌else◌,
  ltb, leb, ◌==◌, not, length, drop, bytes_eq, Bool, true, false,
}
use p2p_network_implementati.Bytes.{array_at, slice_from, from_le_bytes}
use p2p_network_implementati.Channel.{Sender, send}
use p2p_network_implementati.Network.Errors.{
  IoError, ErrorTaskRead, SuccessTaskRead, ErrorParsing, invalid_magic_bytes, invalid_command,
  large_payload_size, invalid_check_sum, error_low_level_parsing,
}
use p2p_network_implementati.Network.Types.{
  TypeCommandMessage, MessagePayload, version, verack, EventsPeer, EventsTaskRead, low_raw_message,
}
use p2p_network_implementati.Network.Wire.{
  magic_bytes_value, bytes_version, bytes_verack, unserialize_version_message,
  serialize_version_message, unserialize_verack_message, serialize_verack_message,
  checksum_calculate,
}

abbrev pub len_header_message : ℕ
len_header_message = 24

abbrev pub max_size_payload : ℕ
max_size_payload = 4 * 2 ^ 20

unfoldable pub message_type_definition : List ℕ → TypeCommandMessage
message_type_definition command =
    if bytes_eq command bytes_version
    then TypeCommandMessage.version_message
    else if bytes_eq command bytes_verack
    then TypeCommandMessage.verack_message
    else TypeCommandMessage.uncertain_message

pub record ReadState : Type 0 where
  pub storage_buffer : List ℕ
  pub to_peer : Sender EventsTaskRead

-- What `select!` takes up: the socket's answer (the bytes read, at most 4096 in the source, which has
-- a buffer of that size, and any number here; none of them at the end of the
-- stream) or what the channel from the peer gave.
pub data ReadIncident : Type 0 where
  result_read : Result IoError (List ℕ) → ReadIncident
  incident_peer : Option EventsPeer → ReadIncident

-- What the task does with a processed buffer. `drain(..n)` panics where the buffer is shorter.
unfoldable pub deliver :
    ReadState
    → Outcome ErrorParsing (Option (MessagePayload × ℕ))
    → Flow ReadState (Result ErrorTaskRead SuccessTaskRead)
deliver s (value (some (message, len))) =
    if leb (len_header_message + len) (length s.storage_buffer)
    then (let (to_peer, sent) = send s.to_peer (low_raw_message message) in
        if sent
        then continues (record {
          storage_buffer = drop (len_header_message + len) s.storage_buffer;
          to_peer = to_peer;
        })
        else returns (err ErrorTaskRead.error_channel_peer_closed))
    else panics
deliver s (value none) = continues s
deliver s (fails e) = returns (err (ErrorTaskRead.error_parsing e))
deliver s panic = panics

module _ (digest : List ℕ → List ℕ) where
  -- What follows the length test of a version message.
  unfoldable pub process_version_payload :
      List ℕ → List ℕ → Outcome ErrorParsing (Option (MessagePayload × ℕ))
  process_version_payload storage_buffer checksum = do
    bytes_payload ← slice_from storage_buffer 24
    (version_message, length_message) ←
        map_err error_low_level_parsing (unserialize_version_message bytes_payload)
    return_if (ltb max_size_payload length_message) large_payload_size
    return_if
        (not (
          bytes_eq checksum
            (checksum_calculate digest (serialize_version_message version_message))))
        invalid_check_sum
    value (some (version version_message, length_message))

  -- The branches of `raw_byte_processing`, from `offsit = 16` on.
  unfoldable pub process_command :
      TypeCommandMessage → List ℕ → Outcome ErrorParsing (Option (MessagePayload × ℕ))
  process_command TypeCommandMessage.version_message storage_buffer = do
    bytes_length ← array_at ErrorParsing.conversion_error storage_buffer 16 4
    checksum ← array_at ErrorParsing.conversion_error storage_buffer 20 4
    if ltb (length storage_buffer) (len_header_message + from_le_bytes bytes_length)
        then value none
        else process_version_payload storage_buffer checksum
  process_command TypeCommandMessage.verack_message storage_buffer = do
    bytes_length ← array_at ErrorParsing.conversion_error storage_buffer 16 4
    checksum ← array_at ErrorParsing.conversion_error storage_buffer 20 4
    let (message, length_message) = unserialize_verack_message
    if ltb (length storage_buffer) (len_header_message + 0) then value none else do
      return_if (ltb max_size_payload length_message) large_payload_size
      return_if
          (not
            (bytes_eq checksum (checksum_calculate digest (serialize_verack_message message ∷ []))))
          invalid_check_sum
      value (some (verack message, length_message))
  process_command TypeCommandMessage.uncertain_message storage_buffer = fails invalid_command

  -- The test `storage_buffer.len() < 0` never holds.
  unfoldable pub raw_byte_processing : List ℕ → Outcome ErrorParsing (Option (MessagePayload × ℕ))
  raw_byte_processing storage_buffer = if ltb (length storage_buffer) 0 then value none else do
    bytes_magic_bytes ← array_at ErrorParsing.conversion_error storage_buffer 0 4
    return_if (not (from_le_bytes bytes_magic_bytes == magic_bytes_value)) invalid_magic_bytes
    command ← array_at ErrorParsing.conversion_error storage_buffer 4 12
    process_command (message_type_definition command) storage_buffer

  -- `read(..)` gave these bytes. Every branch of the inner loop leaves it: it runs once.
  unfoldable pub on_read :
      ReadState → List ℕ → Flow ReadState (Result ErrorTaskRead SuccessTaskRead)
  on_read s [] = returns (ok SuccessTaskRead.successful_eof)
  on_read s (b ∷ bytes) =
      let storage = s.storage_buffer ++ (b ∷ bytes) in
      deliver (record s { storage_buffer = storage }) (raw_byte_processing storage)

  -- One turn of the loop of `start_task_read`.
  unfoldable pub task_read_step :
      ReadState → ReadIncident → Flow ReadState (Result ErrorTaskRead SuccessTaskRead)
  task_read_step s (result_read (err e)) = returns (err (ErrorTaskRead.error_input_output e))
  task_read_step s (result_read (ok bytes)) = on_read s bytes
  task_read_step s (incident_peer (some EventsPeer.shutdown)) =
      returns (ok SuccessTaskRead.successful)
  task_read_step s (incident_peer (some (EventsPeer.ready_low_message peerid message))) =
      continues s
  task_read_step s (incident_peer (some (EventsPeer.low_level_message message))) = continues s
  task_read_step s (incident_peer none) = returns (err ErrorTaskRead.error_channel_peer_closed)

  unfoldable pub start_task_read :
      Sender EventsTaskRead
      → List ReadIncident
      → Flow ReadState (Result ErrorTaskRead SuccessTaskRead)
  start_task_read to_peer incidents =
      run_loop task_read_step (continues (record { storage_buffer = []; to_peer = to_peer }))
        incidents
