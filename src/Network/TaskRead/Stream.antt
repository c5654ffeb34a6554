-- ===== src/Network/TaskRead/Stream.antt =====
-- The reader of src/network/task_read.rs on the frames of src/network/task_write.rs, as the socket
-- cuts them into reads.
use p2p_network_implementati.Prelude.{
  ℕ, suc, ◌+◌, ◌≤◌, ◌<◌, ◌≡◌, ◌≢◌, refl, ap, ◌∙◌, List, [], ◌∷◌, ◌++◌, append_assoc, none, some,
  value, fails, bind_value, false, ◌==◌, length, drop-append, arith, leb, true, continues, returns,
  err, length-append, ltb,
}
use p2p_network_implementati.Bytes.{from_le_bytes, to_le_bytes}
use p2p_network_implementati.Bytes.Cursor.{At-start, array_at-At}
use p2p_network_implementati.Channel.{Sender, send_accepts}
use p2p_network_implementati.Network.Errors.{ErrorTaskRead, ErrorParsing, invalid_magic_bytes}
use p2p_network_implementati.Network.Types.{
  MessagePayload, version, verack, EventsTaskRead, low_raw_message,
}
use p2p_network_implementati.Network.Wire.{
  VersionMessage, VerackMessage, IsVersionMessage, serialize_version_message,
  serialize_header_message, serialize_verack_message, new_header_message, magic_bytes_value,
}
use p2p_network_implementati.Network.TaskWrite.{frame, create_header_message, payload_bytes}
use p2p_network_implementati.Network.TaskRead.{
  raw_byte_processing, max_size_payload, ReadState, deliver, on_read,
}
use p2p_network_implementati.Network.TaskRead.Header.{HasDigestSize}
use p2p_network_implementati.Network.TaskRead.Framing.{
  raw_byte_processing-frame_version, raw_byte_processing-frame_verack, length-frame_version,
  length-verack_header, length-version_header, raw_byte_processing-partial,
}

deliver_continues :
    (n : ℕ) (to_peer : Sender EventsTaskRead) (m : MessagePayload) (head rest : List ℕ) (len : ℕ)
    → to_peer.accepts ≡ suc n
    → length head ≡ 24 + len
    → deliver (record { storage_buffer = head ++ rest; to_peer = to_peer }) (value (some (m, len)))
      ≡ continues (record {
        storage_buffer = rest;
        to_peer = record { accepts = n; sent = to_peer.sent ++ (low_raw_message m ∷ []) };
      })
unfolding deliver
deliver_continues n to_peer m head rest len ha hl =
    let room : leb (24 + len) (length (head ++ rest)) ≡ true =
      ground (arith, length-append head rest) in
    rw (room, send_accepts n to_peer (low_raw_message m) ha, ← hl, drop-append head rest)

-- `read` answers with no bytes only at the end of the stream.
pub on_read_bytes :
    (digest : List ℕ → List ℕ) (s : ReadState) (bytes : List ℕ)
    → bytes ≢ []
    → on_read digest s bytes
      ≡ deliver
          (record s { storage_buffer = s.storage_buffer ++ bytes })
          (raw_byte_processing digest (s.storage_buffer ++ bytes))
unfolding on_read
on_read_bytes digest s [] h = absurd (h refl)
on_read_bytes digest s (b ∷ bytes) h = refl

verack_header : (List ℕ → List ℕ) → VerackMessage → List ℕ
verack_header digest v = serialize_header_message (create_header_message digest (verack v))

frame_verack_split :
    (digest : List ℕ → List ℕ) (v : VerackMessage) (rest : List ℕ)
    → frame digest (verack v) ++ rest ≡ verack_header digest v ++ (0 ∷ rest)
unfolding frame verack_header serialize_verack_message
frame_verack_split digest v rest = append_assoc _ (0 ∷ []) rest

module _ (digest : List ℕ → List ℕ) (digest_size : HasDigestSize digest) where
  -- A read that completes the frame of a version message delivers that message to the peer, once,
  -- and leaves in the buffer exactly the bytes behind the frame, even where these hold further
  -- whole frames: one message is delivered for each read.
  pub on_read-version :
      (v : VersionMessage) (n : ℕ) (s : ReadState) (bytes rest : List ℕ)
      → IsVersionMessage v
      → length (serialize_version_message v) ≤ max_size_payload
      → bytes ≢ []
      → s.to_peer.accepts ≡ suc n
      → s.storage_buffer ++ bytes ≡ frame digest (version v) ++ rest
      → on_read digest s bytes
        ≡ continues (record {
          storage_buffer = rest;
          to_peer = record {
            accepts = n;
            sent = s.to_peer.sent ++ (low_raw_message (version v) ∷ []);
          };
        })
  on_read-version v n s bytes rest h fits some_bytes ha hs =
      on_read_bytes digest s bytes some_bytes
      ∙ ap (λ t. deliver (record s { storage_buffer = t }) (raw_byte_processing digest t)) hs
      ∙ ap (deliver (record s { storage_buffer = frame digest (version v) ++ rest }))
          (raw_byte_processing-frame_version digest digest_size v rest h fits)
      ∙ deliver_continues n s.to_peer (version v) (frame digest (version v)) rest
          (length (serialize_version_message v)) ha (length-frame_version digest digest_size v)

  -- A verack frame is delivered in the same way, as long as the peer receives, but the byte that the
  -- writer sent as its payload stays in the buffer.
  pub on_read-verack :
      (v : VerackMessage) (n : ℕ) (s : ReadState) (bytes rest : List ℕ)
      → bytes ≢ []
      → s.to_peer.accepts ≡ suc n
      → s.storage_buffer ++ bytes ≡ frame digest (verack v) ++ rest
      → on_read digest s bytes
        ≡ continues (record {
          storage_buffer = 0 ∷ rest;
          to_peer = record {
            accepts = n;
            sent = s.to_peer.sent ++ (low_raw_message (verack v) ∷ []);
          };
        })
  on_read-verack v n s bytes rest some_bytes ha hs =
      on_read_bytes digest s bytes some_bytes
      ∙ ap (λ t. deliver (record s { storage_buffer = t }) (raw_byte_processing digest t)) hs
      ∙ ap (deliver (record s { storage_buffer = frame digest (verack v) ++ rest }))
          (raw_byte_processing-frame_verack digest digest_size v rest)
      ∙ ap (λ t. deliver (record s { storage_buffer = t }) (value (some (verack v, 0))))
          (frame_verack_split digest v rest)
      ∙ deliver_continues n s.to_peer (verack v) (verack_header digest v) (0 ∷ rest) 0 ha
          (unfold verack_header in length-verack_header digest digest_size v)

-- Four bytes at the front that are not the magic bytes end the reading.
raw_byte_processing_bad_magic :
    (digest : List ℕ → List ℕ) (field rest : List ℕ)
    → length field ≡ 4
    → (from_le_bytes field == magic_bytes_value) ≡ false
    → raw_byte_processing digest (field ++ rest) ≡ fails invalid_magic_bytes
unfolding raw_byte_processing
raw_byte_processing_bad_magic digest field rest size other =
    let never : ltb (length (field ++ rest)) 0 ≡ false = ground arith in
    rw never (
      bind_value _
        (array_at-At field rest 4 ErrorParsing.conversion_error (At-start (field ++ rest)) size)
        (rw other))

frame_tail : (List ℕ → List ℕ) → MessagePayload → List ℕ
frame_tail digest m =
    let h = create_header_message digest m in
    (h.command ++ (to_le_bytes 4 h.length ++ h.checksum)) ++ payload_bytes m

frame-magic :
    (digest : List ℕ → List ℕ) (m : MessagePayload)
    → frame digest m ≡ 0xd9 ∷ 0xb4 ∷ 0xbe ∷ 0xf9 ∷ frame_tail digest m
unfolding frame frame_tail serialize_header_message create_header_message new_header_message
    to_le_bytes
frame-magic digest (version v) = refl
frame-magic digest (verack v) = refl

-- Bytes that begin a frame, with at least three of them, cut off within or behind it.
frame_prefix :
    (bytes missing tail : List ℕ)
    → 3 ≤ length bytes
    → bytes ++ missing ≡ 0xd9 ∷ 0xb4 ∷ 0xbe ∷ tail
    → (more : List ℕ) × (bytes ≡ 0xd9 ∷ 0xb4 ∷ 0xbe ∷ more)
frame_prefix [] missing tail long e = absurd (omega (arith, long))
frame_prefix (a ∷ []) missing tail long e = absurd (omega (arith, long))
frame_prefix (a ∷ b ∷ []) missing tail long e = absurd (omega (arith, long))
frame_prefix (a ∷ b ∷ c ∷ more) missing tail long e = (more, cc)

-- Where the byte that a verack message leaves over stands alone in the buffer, a read that brings at
-- least the first three bytes of the next frame, whatever its message, ends the task with
-- `InvalidMagicBytes`.
pub on_read_after_verack :
    (digest : List ℕ → List ℕ) (m : MessagePayload) (s : ReadState) (bytes missing rest : List ℕ)
    → s.storage_buffer ≡ 0 ∷ []
    → 3 ≤ length bytes
    → bytes ++ missing ≡ frame digest m ++ rest
    → on_read digest s bytes ≡ returns (err (ErrorTaskRead.error_parsing invalid_magic_bytes))
on_read_after_verack digest m s bytes missing rest hs long cut =
    on_read_bytes digest s bytes (λ e. absurd (omega (arith, long, ap length e)))
    ∙ ap (λ o. deliver (record s { storage_buffer = s.storage_buffer ++ bytes }) o) refused
    ∙ unfold deliver in refl
  where
    stray : List ℕ
    stray = 0 ∷ 0xd9 ∷ 0xb4 ∷ 0xbe ∷ []

    begun : (more : List ℕ) × (bytes ≡ 0xd9 ∷ 0xb4 ∷ 0xbe ∷ more)
    begun =
        frame_prefix bytes missing (0xf9 ∷ (frame_tail digest m ++ rest)) long
          (cut ∙ ap (λ t. t ++ rest) (frame-magic digest m))

    refused : raw_byte_processing digest (s.storage_buffer ++ bytes) ≡ fails invalid_magic_bytes
    refused =
        ap (raw_byte_processing digest) (ap (λ t. t ++ bytes) hs ∙ ap (λ t. 0 ∷ t) begun.1)
        ∙ raw_byte_processing_bad_magic digest stray begun.0 refl (unfold from_le_bytes in refl)

not_empty : (bytes : List ℕ) → bytes ≢ [] → 0 < length bytes
not_empty [] h = absurd (h refl)
not_empty (b ∷ bytes) h = omega arith

-- A buffer that holds a whole header and only a part of the payload.
append_split :
    (head xs ys tail : List ℕ)
    → xs ++ ys ≡ head ++ tail
    → length head ≤ length xs
    → (mid : List ℕ) × (xs ≡ head ++ mid) × (mid ++ ys ≡ tail)
append_split [] xs ys tail e h = (xs, refl, e)
append_split (b ∷ head) [] ys tail e h = absurd (omega arith)
append_split (b ∷ head) (x ∷ xs) ys tail e h =
    let rest : xs ++ ys ≡ head ++ tail = cc in
    let first : x ≡ b = cc in
    let (mid, p, q) = append_split head xs ys tail rest (omega arith) in
    (mid, ap (λ t. x ∷ t) p ∙ ap (λ t. t ∷ (head ++ mid)) first, q)

module _ (digest : List ℕ → List ℕ) (digest_size : HasDigestSize digest) where
  -- A read that brings the buffer to a part of a version frame, the header included, delivers
  -- nothing and keeps every byte for the next read.
  pub on_read_partial :
      (v : VersionMessage) (s : ReadState) (bytes missing : List ℕ)
      → length (serialize_version_message v) ≤ max_size_payload
      → bytes ≢ []
      → missing ≢ []
      → 24 ≤ length (s.storage_buffer ++ bytes)
      → (s.storage_buffer ++ bytes) ++ missing ≡ frame digest (version v)
      → on_read digest s bytes ≡ continues (record s { storage_buffer = s.storage_buffer ++ bytes })
  on_read_partial v s bytes missing fits some_bytes some_missing whole hs =
      on_read_bytes digest s bytes some_bytes
      ∙ ap (deliver (record s { storage_buffer = s.storage_buffer ++ bytes })) waits
      ∙ unfold deliver in refl
    where
      header : List ℕ
      header = serialize_header_message (create_header_message digest (version v))

      header_size : length header ≡ 24
      header_size = length-version_header digest digest_size v

      split :
          (mid : List ℕ) × (s.storage_buffer ++ bytes ≡ header ++ mid)
          × (mid ++ missing ≡ serialize_version_message v)
      split =
          append_split header (s.storage_buffer ++ bytes) missing (serialize_version_message v)
            (unfold frame in hs) (omega (arith, header_size))

      shorter : length split.0 < length (serialize_version_message v)
      shorter =
          ground (
            arith,
            ap length split.2,
            length-append split.0 missing,
            not_empty missing some_missing,
          )

      waits : raw_byte_processing digest (s.storage_buffer ++ bytes) ≡ value none
      waits =
          ap (raw_byte_processing digest) split.1
          ∙ raw_byte_processing-partial digest digest_size v split.0 fits shorter
