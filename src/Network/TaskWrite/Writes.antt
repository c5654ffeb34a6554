-- ===== src/Network/TaskWrite/Writes.antt =====
-- What the task of src/network/task_write.rs has written after each event.
use p2p_network_implementati.Prelude.{
  ℕ, suc, ◌+◌, ◌*◌, ◌≡◌, refl, ap, sym, ◌∙◌, List, [], ◌∷◌, ◌++◌, append_assoc, append-nil, Option,
  some, continues, run_loop, length, arith,
}
use p2p_network_implementati.Network.Types.{MessagePayload, EventsPeer}
use p2p_network_implementati.Network.Wire.{serialize_header_message}
use p2p_network_implementati.Network.TaskWrite.{
  OwnedWriteHalf, write_all, frame, create_header_message, write_message, task_write_step,
  start_task_write, payload_bytes,
}

-- The frames of several messages, one after the other.
abbrev pub frames : (List ℕ → List ℕ) → List MessagePayload → List ℕ
frames digest [] = []
frames digest (m ∷ ms) = frame digest m ++ frames digest ms

abbrev pub to_write : List MessagePayload → List (Option EventsPeer)
to_write [] = []
to_write (m ∷ ms) = some (EventsPeer.low_level_message m) ∷ to_write ms

module _ (digest : List ℕ → List ℕ) where
  write_message_continues :
      (n : ℕ) (socket : OwnedWriteHalf) (m : MessagePayload)
      → socket.writes ≡ suc (suc n)
      → write_message digest socket m
        ≡ continues (record socket { writes = n; written = socket.written ++ frame digest m })
  unfolding write_message write_all frame
  write_message_continues n socket m h = rw h (
      ap continues (λ i. record socket {
        writes = n;
        written =
            append_assoc socket.written (serialize_header_message (create_header_message digest m))
              (payload_bytes m) i;
      }))

  -- While the socket takes two writes for each message, the task has written exactly the frames of
  -- the messages that it was handed, in their order, and goes on.
  pub start_task_write-frames :
      (ms : List MessagePayload) (socket : OwnedWriteHalf) (spare : ℕ)
      → socket.writes ≡ 2 * length ms + spare
      → start_task_write digest socket (to_write ms)
        ≡ continues (record socket { writes = spare; written = socket.written ++ frames digest ms })
  unfolding start_task_write run_loop task_write_step
  start_task_write-frames [] socket spare h =
      let e : socket.writes ≡ spare = omega arith in
      λ i. continues (record socket { writes = e i; written = sym (append-nil socket.written) i })
  start_task_write-frames (m ∷ ms) socket spare h =
      let n : ℕ = 2 * length ms + spare in
      let next : OwnedWriteHalf = record socket {
        writes = n;
        written = socket.written ++ frame digest m;
      } in
      ap (λ f. run_loop (task_write_step digest) f (to_write ms))
        (write_message_continues n socket m (omega arith))
      ∙ start_task_write-frames ms next spare refl
      ∙ ap (λ t. continues (record socket { writes = spare; written = t }))
          (append_assoc socket.written (frame digest m) (frames digest ms))
