-- ===== src/Network/TaskRead/Safety.antt =====
-- What src/network/task_read.rs does on any bytes, well formed or not.
use p2p_network_implementati.Prelude.{
  ℕ, ◌+◌, ◌≤◌, ◌<◌, ◌≡◌, refl, sym, ap, ◌∙◌, List, [], ◌∷◌, ◌++◌, Option, none, some, Outcome,
  value, fails, panic, bind_panic, Yields, Yields-bind, Yields-value, map_err, map_err_inv,
  return_if, length, drop, arith, ltb, bytes_eq, bytes_eq→eq, true, false, not, ◌==◌, Bool-cases,
  inl, inr, Bool, ==_iff, panics, length-drop,
}
use p2p_network_implementati.Bytes.{array_at, slice_from, from_le_bytes}
use p2p_network_implementati.Bytes.Cursor.{array_at-panic, array_at-inv}
use p2p_network_implementati.Network.Errors.{ErrorParsing, error_low_level_parsing}
use p2p_network_implementati.Network.Types.{TypeCommandMessage, MessagePayload, version, verack}
use p2p_network_implementati.Network.Wire.{
  magic_bytes_value, bytes_version, bytes_verack, checksum_calculate, serialize_version_message,
  serialize_verack_message, VersionMessage, VerackMessage, unserialize_version_message,
  unserialize_verack_message,
}
use p2p_network_implementati.Network.Wire.Totality.{unserialize_version_message_takes}
use p2p_network_implementati.Network.TaskWrite.{payload_bytes}
use p2p_network_implementati.Network.TaskRead.{
  raw_byte_processing, process_command, process_version_payload, message_type_definition, ReadState,
  deliver, on_read, max_size_payload,
}

abbrev array : List ℕ → ℕ → ℕ → Outcome ErrorParsing (List ℕ)
array = array_at ErrorParsing.conversion_error

-- A buffer of fewer than four bytes, the empty one included, makes the reader panic.
pub raw_byte_processing_short :
    (digest : List ℕ → List ℕ) (storage_buffer : List ℕ)
    → length storage_buffer < 4
    → raw_byte_processing digest storage_buffer ≡ panic
unfolding raw_byte_processing
raw_byte_processing_short digest storage_buffer h =
    let never : ltb (length storage_buffer) 0 ≡ false = ground arith in
    rw never
      (bind_panic _ (array_at-panic ErrorParsing.conversion_error storage_buffer 0 4 (omega arith)))

-- The command that a message travels under.
abbrev pub command_of : MessagePayload → List ℕ
command_of (version v) = bytes_version
command_of (verack v) = bytes_verack

-- What an answer of the reader says of the buffer, the field of the command being `command`.
abbrev Checked : (List ℕ → List ℕ) → List ℕ → List ℕ → Option (MessagePayload × ℕ) → Type 0
Checked digest buffer command none = 24 ≤ length buffer
Checked digest buffer command (some (m, n)) =
    (24 + n ≤ length buffer)
    × (array buffer 20 4 ≡ value (checksum_calculate digest (payload_bytes m)))
    × (command_of m ≡ command)

return_if_inv : {E : Type 0} (b : Bool) (e : E) {u : Unit {0}} → return_if b e ≡ value u → b ≡ false
return_if_inv true e h = cc
return_if_inv false e h = refl

not_inv : (b : Bool) → not b ≡ false → b ≡ true
not_inv true h = refl
not_inv false h = cc

module _ (digest : List ℕ → List ℕ) (buffer : List ℕ) where
  slice_from_inside :
      (payload : List ℕ) {n : ℕ}
      → slice_from {E = ErrorParsing} buffer 24 ≡ value payload
      → n ≤ length payload
      → 24 + n ≤ length buffer
  unfolding slice_from
  slice_from_inside payload {n = n} e h =
      let fits : 24 ≤ length buffer = ground arith in
      let same : drop 24 buffer ≡ payload = ground arith in
      omega (arith, ap length same, length-drop 24 buffer)

  process_version_payload-Yields :
      (check : List ℕ)
      → array buffer 20 4 ≡ value check
      → Yields (Checked digest buffer bytes_version) (process_version_payload digest buffer check)
  unfolding process_version_payload
  process_version_payload-Yields check e = Yields-bind _ (slice_from buffer 24) _ λ payload e0.
      Yields-bind _ (map_err error_low_level_parsing (unserialize_version_message payload)) _
        λ r e1. Yields-bind _ (return_if (ltb max_size_payload r.1) _) _ λ small e2.
          Yields-bind _ (return_if (not (bytes_eq check (sum_of r.0))) _) _ λ same e3.
            Yields-value _ _ (
              let (takes, size) =
                unserialize_version_message_takes payload r.0 r.1 (map_err_inv _ _ e1) in
              let agrees : check ≡ sum_of r.0 =
                bytes_eq→eq _ _ (not_inv _ (return_if_inv _ _ e3)) in
              (slice_from_inside payload e0 takes, e ∙ ap value agrees, refl))
    where
      sum_of : VersionMessage → List ℕ
      sum_of v = checksum_calculate digest (serialize_version_message v)

  version-Yields :
      Yields
        (Checked digest buffer bytes_version)
        (process_command digest TypeCommandMessage.version_message buffer)
  unfolding process_command
  version-Yields = Yields-bind _ (array buffer 16 4) _ λ len e0.
      Yields-bind _ (array buffer 20 4) _ λ check e1.
        elim (Bool-cases (ltb (length buffer) (24 + from_le_bytes len))) [
          | inl more ↦ rw more (Yields-value _ _ (array_at-inv _ buffer 20 4 e1).0)
          | inr all_there ↦ rw all_there (process_version_payload-Yields check e1)
        ]

  verack-Yields :
      Yields
        (Checked digest buffer bytes_verack)
        (process_command digest TypeCommandMessage.verack_message buffer)
  unfolding process_command unserialize_verack_message
  verack-Yields = Yields-bind _ (array buffer 16 4) _ λ len e0.
      Yields-bind _ (array buffer 20 4) _ λ check e1.
        let size : 24 ≤ length buffer =
          (array_at-inv ErrorParsing.conversion_error buffer 20 4 e1).0 in
        let enough : ltb (length buffer) (24 + 0) ≡ false = ground arith in
        rw enough (
          Yields-bind _ (return_if (not (bytes_eq check sum)) _) _ λ same e3. Yields-value _ _ (
            let agrees : check ≡ sum = bytes_eq→eq _ _ (not_inv _ (return_if_inv _ _ e3)) in
            (omega arith, e1 ∙ ap value agrees, refl)))
    where
      sum : List ℕ
      sum = checksum_calculate digest (serialize_verack_message VerackMessage.verack_message ∷ [])

  process_command-Yields :
      (command : List ℕ)
      → Yields
          (Checked digest buffer command)
          (process_command digest (message_type_definition command) buffer)
  unfolding message_type_definition
  process_command-Yields command = elim (Bool-cases (bytes_eq command bytes_version)) [
    | inl is_version ↦ rw (is_version, bytes_eq→eq _ _ is_version) version-Yields
    | inr other ↦ elim (Bool-cases (bytes_eq command bytes_verack)) [
      | inl is_verack ↦ rw (other, is_verack, bytes_eq→eq _ _ is_verack) verack-Yields
      | inr unknown ↦ rw (other, unknown) (unfold process_command in record { apply = λ a e. cc })
    ]
  ]

  -- The fields of the header that an accepted message was read from.
  abbrev HeaderOf : Option (MessagePayload × ℕ) → Type 0
  HeaderOf none = 24 ≤ length buffer
  HeaderOf (some (m, n)) =
      (24 + n ≤ length buffer)
      × ((magic : List ℕ) × (array buffer 0 4 ≡ value magic)
          × (from_le_bytes magic ≡ magic_bytes_value))
      × (array buffer 4 12 ≡ value (command_of m))
      × (array buffer 20 4 ≡ value (checksum_calculate digest (payload_bytes m)))

  header_of :
      (magic command : List ℕ) (a : Option (MessagePayload × ℕ))
      → array buffer 0 4 ≡ value magic
      → from_le_bytes magic ≡ magic_bytes_value
      → array buffer 4 12 ≡ value command
      → Checked digest buffer command a
      → HeaderOf a
  header_of magic command none e0 e1 e2 h = h
  header_of magic command (some (m, n)) e0 e1 e2 (inside, sum, known) =
      (inside, (magic, e0, e1), e2 ∙ ap value (sym known), sum)

  raw_byte_processing-Yields : Yields HeaderOf (raw_byte_processing digest buffer)
  unfolding raw_byte_processing
  raw_byte_processing-Yields =
      let never : ltb (length buffer) 0 ≡ false = ground arith in
      rw never (
        Yields-bind _ (array buffer 0 4) _ λ magic e0.
          Yields-bind _ (return_if (not (from_le_bytes magic == magic_bytes_value)) _) _ λ same e1.
            Yields-bind _ (array buffer 4 12) _ λ command e2. record {
              apply = λ a e.
                  header_of magic command a e0 ((==_iff _ _).0 (not_inv _ (return_if_inv _ _ e1)))
                    e2 ((process_command-Yields command).apply a e);
            })

-- Whatever the buffer holds: an accepted message lies inside the buffer with its header, stands
-- under the magic bytes and its own command, and the header carries the checksum of the bytes that
-- the message is written as.
pub raw_byte_processing_sound :
    (digest : List ℕ → List ℕ) (buffer : List ℕ) (m : MessagePayload) (n : ℕ)
    → raw_byte_processing digest buffer ≡ value (some (m, n))
    → (24 + n ≤ length buffer)
      × ((magic : List ℕ) × (array buffer 0 4 ≡ value magic)
          × (from_le_bytes magic ≡ magic_bytes_value))
      × (array buffer 4 12 ≡ value (command_of m))
      × (array buffer 20 4 ≡ value (checksum_calculate digest (payload_bytes m)))
raw_byte_processing_sound digest buffer m n e =
    (raw_byte_processing-Yields digest buffer).apply (some (m, n)) e

deliver-ne-panics :
    (s : ReadState) (o : Outcome ErrorParsing (Option (MessagePayload × ℕ)))
    → ((m : MessagePayload) (n : ℕ) → o ≡ value (some (m, n)) → 24 + n ≤ length s.storage_buffer)
    → deliver s o ≡ panics
    → o ≡ panic
unfolding deliver
deliver-ne-panics s (value (some (m, n))) inside e = absurd (ground (arith, inside m n refl))
deliver-ne-panics s (value none) inside e = cc
deliver-ne-panics s (fails x) inside e = cc
deliver-ne-panics s panic inside e = refl

-- Taking a message out of the buffer never panics: a read panics only where the parser does.
pub on_read-panics :
    (digest : List ℕ → List ℕ) (s : ReadState) (b : ℕ) (bytes : List ℕ)
    → on_read digest s (b ∷ bytes) ≡ panics
    → raw_byte_processing digest (s.storage_buffer ++ (b ∷ bytes)) ≡ panic
unfolding on_read
on_read-panics digest s b bytes e =
    deliver-ne-panics _ _ (λ m n q. (raw_byte_processing_sound digest _ m n q).0) e
