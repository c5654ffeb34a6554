-- ===== src/Network/TaskRead/Framing.antt =====
-- What the task that writes (src/network/task_write.rs) puts on the wire, and what the task that
-- reads (src/network/task_read.rs) makes of it.
use p2p_network_implementati.Prelude.{
  ℕ, ◌+◌, ◌≤◌, ◌<◌, ◌≡◌, refl, ap, ◌∙◌, List, [], ◌∷◌, ◌++◌, append_assoc, none, some, value,
  bind_value, length, length-append, arith, ltb, bytes_eq_refl, true, false, map_err,
}
use p2p_network_implementati.Bytes.Laws.{length-to_le_bytes, from_le_bytes-to_le_bytes}
use p2p_network_implementati.Bytes.Cursor.{length-At, array_at-At, slice_from-At}
use p2p_network_implementati.Network.Errors.{error_low_level_parsing}
use p2p_network_implementati.Network.Types.{version, verack}
use p2p_network_implementati.Network.Wire.{
  serialize_header_message, new_header_message, bytes_version, bytes_verack, VersionMessage,
  IsVersionMessage, serialize_version_message, checksum_calculate, length_version_message,
  VerackMessage, length_verack_message, unserialize_verack_message, serialize_verack_message,
}
use p2p_network_implementati.Network.Wire.RoundTrip.{
  version_read_back, length-serialize_version_message,
}
use p2p_network_implementati.Network.TaskWrite.{create_header_message, frame}
use p2p_network_implementati.Network.TaskRead.{
  raw_byte_processing, process_command, process_version_payload, max_size_payload,
}
use p2p_network_implementati.Network.TaskRead.Header.{
  HasDigestSize, length-checksum_calculate, message_type_definition-version,
  message_type_definition-verack, At-length, At-checksum, At-payload, raw_byte_processing-header,
}

module _ (digest : List ℕ → List ℕ) (digest_size : HasDigestSize digest) where
  -- A version message within the limit is recovered from its frame, whatever bytes follow: the
  -- reader answers with the message and with the size of its payload.
  pub raw_byte_processing-frame_version :
      (v : VersionMessage) (rest : List ℕ)
      → IsVersionMessage v
      → length (serialize_version_message v) ≤ max_size_payload
      → raw_byte_processing digest (frame digest (version v) ++ rest)
        ≡ value (some (version v, length (serialize_version_message v)))
  unfolding frame create_header_message
  raw_byte_processing-frame_version v rest h fits =
      ap (raw_byte_processing digest) (append_assoc header payload rest)
      ∙ raw_byte_processing-header bytes_version check tail len refl digest
      ∙ (unfold process_command in
          rw message_type_definition-version (
            bind_value _
              (array_at-At _ _ 4 _ (At-length bytes_version check tail len refl)
                (length-to_le_bytes 4 len))
              (bind_value _
                (array_at-At _ _ 4 _ (At-checksum bytes_version check tail len refl) check_size)
                (rw (from_le_bytes-to_le_bytes 4 len (omega (arith, len_eq)))
                  (rw enough payload_read)))))
    where
      payload : List ℕ
      payload = serialize_version_message v

      tail : List ℕ
      tail = payload ++ rest

      len : ℕ
      len = length_version_message v

      check : List ℕ
      check = checksum_calculate digest payload

      header : List ℕ
      header = serialize_header_message (new_header_message bytes_version len check)

      len_eq : len ≡ length payload
      len_eq = unfold length_version_message in omega arith

      check_size : length check ≡ 4
      check_size = length-checksum_calculate digest payload digest_size

      size : length payload ≡ 80 + (8 + length v.user_agent.text) + 4 + 1
      size = length-serialize_version_message v rest h

      enough : ltb (length (header ++ tail)) (24 + len) ≡ false
      enough = ground (
        arith,
        length-At (At-payload bytes_version check tail len refl check_size),
        len_eq,
        length-append payload rest,
      )

      payload_read :
          process_version_payload digest (header ++ tail) check
          ≡ value (some (version v, length payload))
      payload_read =
          unfold process_version_payload in
          bind_value _ (slice_from-At (At-payload bytes_version check tail len refl check_size)) (
            bind_value _ (ap (map_err error_low_level_parsing) (version_read_back v rest h)) (
              let small : ltb max_size_payload (80 + (8 + length v.user_agent.text) + 4 + 1)
                  ≡ false =
                ground (arith, size) in
              rw (small, bytes_eq_refl check, size) refl))

  -- A verack message is recovered from its frame, with a payload of no bytes; the byte that the
  -- writer sent for the payload is among the bytes that follow.
  pub raw_byte_processing-frame_verack :
      (v : VerackMessage) (rest : List ℕ)
      → raw_byte_processing digest (frame digest (verack v) ++ rest) ≡ value (some (verack v, 0))
  unfolding frame create_header_message
  raw_byte_processing-frame_verack VerackMessage.verack_message rest =
      ap (raw_byte_processing digest)
        (append_assoc header (serialize_verack_message VerackMessage.verack_message ∷ []) rest)
      ∙ raw_byte_processing-header bytes_verack check tail len refl digest
      ∙ (unfold process_command unserialize_verack_message in
          rw message_type_definition-verack (
            bind_value _
              (array_at-At _ _ 4 _ (At-length bytes_verack check tail len refl)
                (length-to_le_bytes 4 len))
              (bind_value _
                (array_at-At _ _ 4 _ (At-checksum bytes_verack check tail len refl) check_size)
                (rw (enough, bytes_eq_refl check) refl))))
    where
      tail : List ℕ
      tail = serialize_verack_message VerackMessage.verack_message ∷ rest

      len : ℕ
      len = length_verack_message VerackMessage.verack_message

      check : List ℕ
      check = checksum_calculate digest (serialize_verack_message VerackMessage.verack_message ∷ [])

      header : List ℕ
      header = serialize_header_message (new_header_message bytes_verack len check)

      check_size : length check ≡ 4
      check_size =
          length-checksum_calculate digest
            (serialize_verack_message VerackMessage.verack_message ∷ []) digest_size

      enough : ltb (length (header ++ tail)) (24 + 0) ≡ false
      enough = ground (arith, length-At (At-payload bytes_verack check tail len refl check_size))

  length-header_of_size :
      (command check : List ℕ) (len : ℕ)
      → length command ≡ 12
      → length check ≡ 4
      → length (serialize_header_message (new_header_message command len check)) ≡ 24
  length-header_of_size command check len hc hk = omega (
    arith,
    length-At (At-payload command check [] len hc hk),
    length-append (serialize_header_message (new_header_message command len check)) [],
  )

  pub length-frame_version :
      (v : VersionMessage)
      → length (frame digest (version v)) ≡ 24 + length (serialize_version_message v)
  unfolding frame create_header_message
  length-frame_version v = omega (
    arith,
    length-append (serialize_header_message (create_header_message digest (version v)))
        (serialize_version_message v),
    length-header_of_size bytes_version (checksum_calculate digest (serialize_version_message v))
        (length_version_message v) refl (length-checksum_calculate digest _ digest_size),
  )

  pub length-version_header :
      (v : VersionMessage)
      → length (serialize_header_message (create_header_message digest (version v))) ≡ 24
  unfolding create_header_message
  length-version_header v =
      length-header_of_size bytes_version (checksum_calculate digest (serialize_version_message v))
        (length_version_message v) refl (length-checksum_calculate digest _ digest_size)

  pub length-verack_header :
      (v : VerackMessage)
      → length (serialize_header_message (create_header_message digest (verack v))) ≡ 24
  unfolding create_header_message
  length-verack_header v =
      length-header_of_size bytes_verack
        (checksum_calculate digest (serialize_verack_message v ∷ [])) (length_verack_message v) refl
        (length-checksum_calculate digest _ digest_size)

  -- A header of a version message with less payload behind it than the header says: more is awaited.
  pub raw_byte_processing-partial :
      (v : VersionMessage) (part : List ℕ)
      → length (serialize_version_message v) ≤ max_size_payload
      → length part < length (serialize_version_message v)
      → raw_byte_processing digest
          (serialize_header_message (create_header_message digest (version v)) ++ part)
        ≡ value none
  unfolding create_header_message
  raw_byte_processing-partial v part fits short =
      raw_byte_processing-header bytes_version check part len refl digest
      ∙ (unfold process_command in
          rw message_type_definition-version (
            bind_value _
              (array_at-At _ _ 4 _ (At-length bytes_version check part len refl)
                (length-to_le_bytes 4 len))
              (bind_value _
                (array_at-At _ _ 4 _ (At-checksum bytes_version check part len refl) check_size)
                (rw (from_le_bytes-to_le_bytes 4 len (omega (arith, len_eq))) (rw lacking refl)))))
    where
      len : ℕ
      len = length_version_message v

      check : List ℕ
      check = checksum_calculate digest (serialize_version_message v)

      header : List ℕ
      header = serialize_header_message (new_header_message bytes_version len check)

      len_eq : len ≡ length (serialize_version_message v)
      len_eq = unfold length_version_message in omega arith

      check_size : length check ≡ 4
      check_size = length-checksum_calculate digest (serialize_version_message v) digest_size

      lacking : ltb (length (header ++ part)) (24 + len) ≡ true
      lacking =
          ground
            (arith, length-At (At-payload bytes_version check part len refl check_size), len_eq)
