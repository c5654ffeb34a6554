-- ===== src/Network/TaskRead/Delivery.antt =====
-- A message from the task that writes (src/network/task_write.rs) to the one that reads
-- (src/network/task_read.rs), through a stream that cuts its bytes anywhere behind the header.
use p2p_network_implementati.Prelude.{
  ℕ, suc, ◌-◌, ◌≤◌, ◌≡◌, ◌≢◌, sym, ap, subst, ◌∙◌, List, [], ◌∷◌, ◌++◌, append_assoc, append-nil,
  ok, length, length-append, continues, run_loop, arith, All,
}
use p2p_network_implementati.Channel.{Sender}
use p2p_network_implementati.Network.Types.{version, EventsTaskRead, low_raw_message}
use p2p_network_implementati.Network.Wire.{
  VersionMessage, IsVersionMessage, serialize_version_message,
}
use p2p_network_implementati.Network.TaskWrite.{OwnedWriteHalf, frame, start_task_write}
use p2p_network_implementati.Network.TaskWrite.Writes.{start_task_write-frames, to_write}
use p2p_network_implementati.Network.TaskRead.{
  ReadState, ReadIncident, result_read, max_size_payload, task_read_step, start_task_read,
}
use p2p_network_implementati.Network.TaskRead.Header.{HasDigestSize}
use p2p_network_implementati.Network.TaskRead.Stream.{on_read-version, on_read_partial}

-- The bytes of several reads, one after the other.
abbrev pub joined : List (List ℕ) → List ℕ
joined [] = []
joined (c ∷ cs) = c ++ joined cs

-- The reads as the task takes them up.
abbrev pub reads : List (List ℕ) → List ReadIncident
reads [] = []
reads (c ∷ cs) = result_read (ok c) ∷ reads cs

abbrev pub NotEmpty : List ℕ → Type 0
NotEmpty [] = ⊥
NotEmpty (b ∷ bytes) = Unit {0}

not_empty : (bytes : List ℕ) → NotEmpty bytes → bytes ≢ []
not_empty bytes h e = subst NotEmpty e h

append-NotEmpty : (xs ys : List ℕ) → NotEmpty xs → xs ++ ys ≢ []
append-NotEmpty [] ys h e = absurd h
append-NotEmpty (x ∷ xs) ys h e = subst NotEmpty e tt

long-NotEmpty : (bytes : List ℕ) → 24 ≤ length bytes → NotEmpty bytes
long-NotEmpty [] h = omega (arith, h)
long-NotEmpty (b ∷ bytes) h = tt

module _ (digest : List ℕ → List ℕ) (digest_size : HasDigestSize digest) (v : VersionMessage)
    (valid : IsVersionMessage v)
    (fits : length (serialize_version_message v) ≤ max_size_payload) where
  -- From any buffer, over reads that complete the frame.
  read_in_parts :
      (n : ℕ) (s : ReadState) (c : List ℕ) (cs : List (List ℕ))
      → NotEmpty c
      → All NotEmpty cs
      → 24 ≤ length (s.storage_buffer ++ c)
      → s.storage_buffer ++ joined (c ∷ cs) ≡ frame digest (version v)
      → s.to_peer.accepts ≡ suc n
      → run_loop (task_read_step digest) (continues s) (reads (c ∷ cs))
        ≡ continues (record {
          storage_buffer = [];
          to_peer = record {
            accepts = n;
            sent = s.to_peer.sent ++ (low_raw_message (version v) ∷ []);
          };
        })
  unfolding run_loop task_read_step
  read_in_parts n s c [] some_bytes more header whole room =
      on_read-version digest digest_size v n s c [] valid fits (not_empty c some_bytes) room (
        ap (λ t. s.storage_buffer ++ t) (sym (append-nil c))
        ∙ whole
        ∙ sym (append-nil (frame digest (version v))))
  read_in_parts n s c (d ∷ ds) some_bytes (next, more) header whole room =
      let here =
        on_read_partial digest digest_size v s c (joined (d ∷ ds)) fits (not_empty c some_bytes)
          (append-NotEmpty d (joined ds) next) header
          (append_assoc s.storage_buffer c (joined (d ∷ ds)) ∙ whole) in
      ap (λ f. run_loop (task_read_step digest) f (reads (d ∷ ds))) here
      ∙ read_in_parts n (record s { storage_buffer = s.storage_buffer ++ c }) d ds next more
          (omega (arith, header, length-append (s.storage_buffer ++ c) d))
          (append_assoc s.storage_buffer c (joined (d ∷ ds)) ∙ whole) room

  -- A version message is delivered: when the writing task was handed a valid version message of at
  -- most 4 MiB on a fresh socket and has taken it up, and the bytes that it wrote arrive at a
  -- reading task in any pieces, none of them empty and the first of at least 24 bytes, then the
  -- reading task passes on exactly that message, its buffer is empty, and it goes on.
  pub version_delivered :
      (socket written : OwnedWriteHalf) (n : ℕ) (to_peer : Sender EventsTaskRead) (c : List ℕ)
      (cs : List (List ℕ))
      → socket.written ≡ []
      → 2 ≤ socket.writes
      → start_task_write digest socket (to_write (version v ∷ [])) ≡ continues written
      → written.written ≡ joined (c ∷ cs)
      → All NotEmpty cs
      → 24 ≤ length c
      → to_peer.accepts ≡ suc n
      → start_task_read digest to_peer (reads (c ∷ cs))
        ≡ continues (record {
          storage_buffer = [];
          to_peer = record {
            accepts = n;
            sent = to_peer.sent ++ (low_raw_message (version v) ∷ []);
          };
        })
  unfolding start_task_read
  version_delivered socket written n to_peer c cs fresh writes sent cut more header room =
      let framed =
        start_task_write-frames digest (version v ∷ []) socket (socket.writes - 2) (omega arith) in
      let bytes : written.written ≡ socket.written ++ (frame digest (version v) ++ []) =
        cc (framed, sent) in
      let whole : joined (c ∷ cs) ≡ frame digest (version v) =
        sym cut
        ∙ bytes
        ∙ ap (λ t. t ++ (frame digest (version v) ++ [])) fresh
        ∙ append-nil (frame digest (version v)) in
      read_in_parts n (record { storage_buffer = []; to_peer = to_peer }) c cs
        (long-NotEmpty c header) more header whole room
