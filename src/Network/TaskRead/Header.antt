-- ===== src/Network/TaskRead/Header.antt =====
-- The header of a frame as src/network/task_read.rs finds it again in its buffer.
use p2p_network_implementati.Prelude.{
  ℕ, ◌≡◌, refl, List, ◌++◌, append_assoc, bind_value, length, length-take_le, arith, ltb, bytes_eq,
  false,
}
use p2p_network_implementati.Bytes.{to_le_bytes}
use p2p_network_implementati.Bytes.Laws.{length-to_le_bytes, from_le_bytes-to_le_bytes}
use p2p_network_implementati.Bytes.Cursor.{At, At-skip, array_at-At}
use p2p_network_implementati.Network.Types.{TypeCommandMessage}
use p2p_network_implementati.Network.Wire.{
  serialize_header_message, new_header_message, magic_bytes_value, bytes_version, bytes_verack,
  checksum_calculate,
}
use p2p_network_implementati.Network.TaskRead.{
  raw_byte_processing, process_command, message_type_definition,
}

-- The crate sha2: a SHA-256 digest has 32 bytes.
abbrev pub HasDigestSize : (List ℕ → List ℕ) → Type 0
HasDigestSize digest = (bytes : List ℕ) → length (digest bytes) ≡ 32

pub length-checksum_calculate :
    (digest : List ℕ → List ℕ) (bytes : List ℕ)
    → HasDigestSize digest
    → length (checksum_calculate digest bytes) ≡ 4
unfolding checksum_calculate
length-checksum_calculate digest bytes h =
    length-take_le 4 (digest (digest bytes)) (omega (arith, h (digest bytes)))

pub message_type_definition-version :
    message_type_definition bytes_version ≡ TypeCommandMessage.version_message
unfolding message_type_definition bytes_eq
message_type_definition-version = refl

pub message_type_definition-verack :
    message_type_definition bytes_verack ≡ TypeCommandMessage.verack_message
unfolding message_type_definition bytes_eq
message_type_definition-verack = refl

-- A buffer that begins with the header of a known command.
module _ (command checksum tail : List ℕ) (len : ℕ) where
  abbrev pub header_bytes : List ℕ
  header_bytes = serialize_header_message (new_header_message command len checksum)

  At-header :
      At
        (header_bytes ++ tail)
        0
        (to_le_bytes 4 magic_bytes_value ++ (command ++ (to_le_bytes 4 len ++ (checksum ++ tail))))
  unfolding serialize_header_message new_header_message
  At-header = record { inside = omega arith; rest_eq = simp append_assoc }

  At-command : At (header_bytes ++ tail) 4 (command ++ (to_le_bytes 4 len ++ (checksum ++ tail)))
  At-command = At-skip _ _ 4 At-header (length-to_le_bytes 4 magic_bytes_value)

  module _ (command_size : length command ≡ 12) where
    pub At-length : At (header_bytes ++ tail) 16 (to_le_bytes 4 len ++ (checksum ++ tail))
    At-length = At-skip _ _ 12 At-command command_size

    pub At-checksum : At (header_bytes ++ tail) 20 (checksum ++ tail)
    At-checksum = At-skip _ _ 4 At-length (length-to_le_bytes 4 len)

    pub At-payload : length checksum ≡ 4 → At (header_bytes ++ tail) 24 tail
    At-payload h = At-skip _ _ 4 At-checksum h

    pub raw_byte_processing-header :
        (digest : List ℕ → List ℕ)
        → raw_byte_processing digest (header_bytes ++ tail)
          ≡ process_command digest (message_type_definition command) (header_bytes ++ tail)
    unfolding raw_byte_processing
    raw_byte_processing-header digest = rw never (
        bind_value _ (array_at-At _ _ 4 _ At-header (length-to_le_bytes 4 magic_bytes_value)) (
          rw (from_le_bytes-to_le_bytes 4 magic_bytes_value (omega arith))
            (bind_value _ (array_at-At _ _ 12 _ At-command command_size) refl)))
      where
        never : ltb (length (header_bytes ++ tail)) 0 ≡ false
        never = ground arith
