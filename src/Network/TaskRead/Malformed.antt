-- ===== src/Network/TaskRead/Malformed.antt =====
-- The reader of src/network/task_read.rs on a frame that a peer made up.
use p2p_network_implementati.Prelude.{
  ℕ, ◌+◌, ◌<◌, ◌≡◌, ◌≢◌, refl, ap, ◌∙◌, List, [], ◌++◌, panic, panics, map_err, bind_value,
  bind_panic, false, length, length-append, arith, ltb,
}
use p2p_network_implementati.Bytes.Laws.{length-to_le_bytes, from_le_bytes-to_le_bytes}
use p2p_network_implementati.Bytes.Cursor.{At, array_at-At, slice_from-At, length-At}
use p2p_network_implementati.Network.Errors.{error_low_level_parsing}
use p2p_network_implementati.Network.Wire.{bytes_version}
use p2p_network_implementati.Network.Wire.Short.{unserialize_version_message_short}
use p2p_network_implementati.Network.TaskRead.{
  ReadState, deliver, on_read, raw_byte_processing, process_command, process_version_payload,
}
use p2p_network_implementati.Network.TaskRead.Header.{
  header_bytes, At-length, At-checksum, At-payload, raw_byte_processing-header,
  message_type_definition-version,
}
use p2p_network_implementati.Network.TaskRead.Stream.{on_read_bytes}

-- A frame that says how long its payload is, and bytes behind it, less than 88 with the payload.
module _ (digest : List ℕ → List ℕ) (check payload rest : List ℕ) (check_size : length check ≡ 4)
    (short : length (payload ++ rest) < 88) where
  abbrev pub short_frame : List ℕ
  short_frame =
      header_bytes bytes_version check (payload ++ rest) (length payload) ++ (payload ++ rest)

  raw_byte_processing_short_payload : raw_byte_processing digest short_frame ≡ panic
  raw_byte_processing_short_payload =
      raw_byte_processing-header bytes_version check tail len refl digest
      ∙ (unfold process_command in
          rw message_type_definition-version (
            bind_value _
              (array_at-At _ _ 4 _ (At-length bytes_version check tail len refl)
                (length-to_le_bytes 4 len))
              (bind_value _
                (array_at-At _ _ 4 _ (At-checksum bytes_version check tail len refl) check_size)
                (rw (from_le_bytes-to_le_bytes 4 len (omega (arith, short, sizes)), enough)
                  payload_read))))
    where
      tail : List ℕ
      tail = payload ++ rest

      len : ℕ
      len = length payload

      sizes : length tail ≡ len + length rest
      sizes = length-append payload rest

      whole_payload : At short_frame 24 tail
      whole_payload = At-payload bytes_version check tail len refl check_size

      enough : ltb (length short_frame) (24 + len) ≡ false
      enough = ground (arith, length-At whole_payload, sizes)

      payload_read : process_version_payload digest short_frame check ≡ panic
      payload_read =
          unfold process_version_payload in
          bind_value _ (slice_from-At whole_payload) (
            bind_panic _
              (ap (map_err error_low_level_parsing) (unserialize_version_message_short tail short)))

  -- A read panics that completes in the buffer a version frame, and what else has arrived by then
  -- behind it, where its payload has the length that its header says and is shorter than 88 bytes
  -- together with the bytes behind it. Its checksum does not matter.
  pub on_read_short_payload :
      (s : ReadState) (bytes : List ℕ)
      → bytes ≢ []
      → s.storage_buffer ++ bytes ≡ short_frame
      → on_read digest s bytes ≡ panics
  on_read_short_payload s bytes some_bytes whole =
      on_read_bytes digest s bytes some_bytes
      ∙ ap (deliver (record s { storage_buffer = s.storage_buffer ++ bytes }))
          (ap (raw_byte_processing digest) whole ∙ raw_byte_processing_short_payload)
      ∙ unfold deliver in refl
