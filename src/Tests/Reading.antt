-- ===== src/Tests/Reading.antt =====
-- The theorems on the task that reads, at concrete buffers.
use p2p_network_implementati.Prelude.{
  ℕ, zero, suc, ◌+◌, ◌≤◌, List, [], ◌∷◌, ◌++◌, ◌≡◌, ◌≢◌, refl, sym, ap, subst, ◌∙◌, append_assoc,
  length, take, drop, Outcome, value, panic, continues, returns, panics, err, arith,
}
use p2p_network_implementati.Bytes.{array_at, to_le_bytes, to_be_bytes, from_le_bytes}
use p2p_network_implementati.Network.Errors.{ErrorTaskRead, ErrorParsing, invalid_magic_bytes}
use p2p_network_implementati.Network.Types.{version, verack, low_raw_message}
use p2p_network_implementati.Network.Wire.{
  build_verack_message, checksum_calculate, bytes_version, serialize_header_message,
  new_header_message, serialize_version_message, magic_bytes_value, serialize_netaddr,
  serialize_useragent,
}
use p2p_network_implementati.Network.TaskWrite.{frame, create_header_message}
use p2p_network_implementati.Network.TaskRead.{
  ReadState, deliver, max_size_payload, raw_byte_processing, on_read,
}
use p2p_network_implementati.Network.TaskRead.Framing.{raw_byte_processing-frame_version}
use p2p_network_implementati.Network.TaskRead.Safety.{
  raw_byte_processing_short, raw_byte_processing_sound, on_read-panics,
}
use p2p_network_implementati.Network.TaskRead.Stream.{
  on_read-version, on_read-verack, on_read_after_verack, on_read_partial,
}
use p2p_network_implementati.Network.Errors.{os_error}
use p2p_network_implementati.Network.Wire.{unserialize_version_message}
use p2p_network_implementati.Network.Wire.Short.{unserialize_version_message_short}
use p2p_network_implementati.Network.TaskWrite.{OwnedWriteHalf}
use p2p_network_implementati.Network.TaskWrite.Writes.{start_task_write-frames}
use p2p_network_implementati.Network.TaskRead.{start_task_read}
use p2p_network_implementati.Network.TaskRead.Delivery.{version_delivered, reads}
use p2p_network_implementati.Network.TaskRead.Malformed.{on_read_short_payload}
use p2p_network_implementati.Tests.Data.{
  digest, digest_size, open_channel, greeting, greeting-IsVersionMessage,
}

-- The frame of the greeting, and a cut inside its payload.
abbrev greeting_frame : List ℕ
greeting_frame = frame digest (version greeting)

abbrev fresh_reader : ReadState
fresh_reader = record { storage_buffer = []; to_peer = open_channel }

enough : 3 ≤ length (take 40 greeting_frame)
unfolding frame serialize_header_message to_le_bytes
enough = omega arith

abbrev half_read : ReadState
half_read = record { storage_buffer = take 40 greeting_frame; to_peer = open_channel }

abbrev Nonempty : List ℕ → Type 0
Nonempty [] = ⊥
Nonempty (b ∷ bytes) = Unit {0}

not_empty : (bytes : List ℕ) → Nonempty bytes → bytes ≢ []
not_empty bytes h e = subst Nonempty e h

-- The rest of the greeting and the start of what follows it.
abbrev second_part : List ℕ
second_part = drop 40 greeting_frame ++ (0xd9 ∷ [])

take-drop : (n : ℕ) (xs : List ℕ) → take n xs ++ drop n xs ≡ xs
take-drop zero xs = refl
take-drop (suc n) [] = refl
take-drop (suc n) (x ∷ xs) = ap (λ t. x ∷ t) (take-drop n xs)

greeting_fits : length (serialize_version_message greeting) ≤ max_size_payload
unfolding serialize_version_message to_le_bytes serialize_netaddr to_be_bytes serialize_useragent
greeting_fits = omega arith

on_read-version_example :
    on_read digest half_read second_part
    ≡ continues (record {
      storage_buffer = 0xd9 ∷ [];
      to_peer = record { accepts = 8; sent = low_raw_message (version greeting) ∷ [] };
    })
unfolding frame create_header_message serialize_header_message new_header_message
    serialize_version_message to_le_bytes checksum_calculate
on_read-version_example =
    on_read-version digest digest_size greeting 8 half_read second_part (0xd9 ∷ [])
      greeting-IsVersionMessage greeting_fits (not_empty second_part tt) refl
      (sym (append_assoc (take 40 greeting_frame) (drop 40 greeting_frame) (0xd9 ∷ []))
        ∙ ap (λ t. t ++ (0xd9 ∷ [])) (take-drop 40 greeting_frame))

-- Ten more bytes of the greeting, and what is still missing then.
abbrev next_part : List ℕ
next_part = take 10 (drop 40 greeting_frame)

abbrev last_part : List ℕ
last_part = drop 10 (drop 40 greeting_frame)

on_read_partial_example :
    on_read digest half_read next_part
    ≡ continues
        (record { storage_buffer = take 40 greeting_frame ++ next_part; to_peer = open_channel })
unfolding frame create_header_message serialize_header_message new_header_message
    serialize_version_message to_le_bytes checksum_calculate serialize_netaddr
on_read_partial_example =
    on_read_partial digest digest_size greeting half_read next_part last_part greeting_fits
      (not_empty next_part tt) (not_empty last_part tt) (omega arith)
      (append_assoc (take 40 greeting_frame) next_part last_part
        ∙ ap (λ t. take 40 greeting_frame ++ t) (take-drop 10 (drop 40 greeting_frame))
        ∙ take-drop 40 greeting_frame)

abbrev verack_frame : List ℕ
verack_frame = frame digest (verack build_verack_message)

on_read-verack_example :
    on_read digest fresh_reader (verack_frame ++ greeting_frame)
    ≡ continues (record {
      storage_buffer = 0 ∷ greeting_frame;
      to_peer = record { accepts = 8; sent = low_raw_message (verack build_verack_message) ∷ [] };
    })
unfolding frame create_header_message serialize_header_message new_header_message to_le_bytes
on_read-verack_example =
    on_read-verack digest digest_size build_verack_message 8 fresh_reader
      (verack_frame ++ greeting_frame) greeting_frame
      (not_empty (verack_frame ++ greeting_frame) tt) refl refl

on_read_after_verack_example :
    on_read digest
      (record { storage_buffer = 0 ∷ []; to_peer = open_channel })
      (take 40 greeting_frame)
    ≡ returns (err (ErrorTaskRead.error_parsing invalid_magic_bytes))
unfolding frame serialize_header_message to_le_bytes new_header_message checksum_calculate
    serialize_version_message serialize_netaddr to_be_bytes serialize_useragent
on_read_after_verack_example =
    on_read_after_verack digest (version greeting)
      (record { storage_buffer = 0 ∷ []; to_peer = open_channel }) (take 40 greeting_frame)
      (drop 40 greeting_frame) [] refl enough refl

raw_byte_processing_short_example : raw_byte_processing digest (0xd9 ∷ 0xb4 ∷ []) ≡ panic
raw_byte_processing_short_example =
    raw_byte_processing_short digest (0xd9 ∷ 0xb4 ∷ []) (omega arith)

on_read_short : on_read digest fresh_reader (0xd9 ∷ 0xb4 ∷ []) ≡ panics
unfolding on_read deliver
on_read_short = rw (raw_byte_processing_short digest (0xd9 ∷ 0xb4 ∷ []) (omega arith))

on_read-panics_example : raw_byte_processing digest (0xd9 ∷ 0xb4 ∷ []) ≡ panic
on_read-panics_example = on_read-panics digest fresh_reader 0xd9 (0xb4 ∷ []) on_read_short

abbrev greeting_size : ℕ
greeting_size = length (serialize_version_message greeting)

abbrev field : List ℕ → ℕ → ℕ → Outcome ErrorParsing (List ℕ)
field = array_at ErrorParsing.conversion_error

raw_byte_processing_sound_example :
    (24 + greeting_size ≤ length (greeting_frame ++ verack_frame))
    × ((magic : List ℕ) × (field (greeting_frame ++ verack_frame) 0 4 ≡ value magic)
        × (from_le_bytes magic ≡ magic_bytes_value))
    × (field (greeting_frame ++ verack_frame) 4 12 ≡ value bytes_version)
    × (field (greeting_frame ++ verack_frame) 20 4
        ≡ value (checksum_calculate digest (serialize_version_message greeting)))
raw_byte_processing_sound_example =
    raw_byte_processing_sound digest (greeting_frame ++ verack_frame) (version greeting)
      greeting_size
      (raw_byte_processing-frame_version digest digest_size greeting verack_frame
        greeting-IsVersionMessage greeting_fits)

-- The greeting as a fresh socket takes it, and its bytes in two pieces.
abbrev fresh_socket : OwnedWriteHalf
fresh_socket = record { writes = 5; failure = os_error 32; written = [] }

abbrev used_socket : OwnedWriteHalf
used_socket = record { writes = 3; failure = os_error 32; written = greeting_frame ++ [] }

version_delivered_example :
    start_task_read digest open_channel
      (reads (take 40 greeting_frame ∷ drop 40 greeting_frame ∷ []))
    ≡ continues (record {
      storage_buffer = [];
      to_peer = record { accepts = 8; sent = low_raw_message (version greeting) ∷ [] };
    })
unfolding frame create_header_message serialize_header_message new_header_message
    serialize_version_message to_le_bytes checksum_calculate
version_delivered_example =
    version_delivered digest digest_size greeting greeting-IsVersionMessage greeting_fits
      fresh_socket used_socket 8 open_channel (take 40 greeting_frame) (drop 40 greeting_frame ∷ [])
      refl (omega arith)
      (start_task_write-frames digest (version greeting ∷ []) fresh_socket 3 refl)
      (ap (λ t. t ++ []) (sym (take-drop 40 greeting_frame))
        ∙ append_assoc (take 40 greeting_frame) (drop 40 greeting_frame) [])
      (tt, tt) (omega arith) refl

unserialize_version_message_short_example :
    unserialize_version_message (0x71 ∷ 0x11 ∷ 1 ∷ 0 ∷ []) ≡ panic
unserialize_version_message_short_example =
    unserialize_version_message_short (0x71 ∷ 0x11 ∷ 1 ∷ 0 ∷ []) (omega arith)

-- A version message of two bytes, with a wrong checksum.
abbrev made_up : List ℕ
made_up =
    serialize_header_message (new_header_message bytes_version 2 (1 ∷ 2 ∷ 3 ∷ 4 ∷ []))
    ++ (8 ∷ 9 ∷ [])

on_read_short_payload_example : on_read digest fresh_reader made_up ≡ panics
unfolding serialize_header_message new_header_message to_le_bytes
on_read_short_payload_example =
    on_read_short_payload digest (1 ∷ 2 ∷ 3 ∷ 4 ∷ []) (8 ∷ 9 ∷ []) [] refl (omega arith)
      fresh_reader made_up (not_empty made_up tt) refl
