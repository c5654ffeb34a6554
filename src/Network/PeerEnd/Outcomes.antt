-- ===== src/Network/PeerEnd/Outcomes.antt =====
-- How the result of a peer (src/network/peer.rs) depends on the results of its two tasks.
use p2p_network_implementati.Prelude.{◌≡◌, ◌≢◌, refl, sym, ◌∙◌, ok, err}
use p2p_network_implementati.Network.Errors.{SuccessTaskRead, SuccessTaskWrite, SuccessPeer}
use p2p_network_implementati.Network.Peer.{
  JoinRead, JoinWrite, PeerChannels, EventsCriticalCompletion, incident_confirmation_shutdown,
  incident_channel_peer_manager_closed, incident_channel_task_read_closed,
  incident_channel_task_write_closed, incident_complited_task_read, incident_complited_task_write,
  incident_join_handle_task_read, incident_join_handle_task_write,
}
use p2p_network_implementati.Network.PeerEnd.{
  end_peer, end_both, end_task_read_closed, end_task_write_closed, end_complited_task_read,
  end_complited_task_write, end_join_handle_task_read, end_join_handle_task_write,
}

-- The event by which the loop learns that a task ended.
abbrev read_ended : {JoinError : Type 0} → JoinRead JoinError → EventsCriticalCompletion JoinError
read_ended (ok result) = incident_complited_task_read result
read_ended (err e) = incident_join_handle_task_read e

abbrev write_ended : {JoinError : Type 0} → JoinWrite JoinError → EventsCriticalCompletion JoinError
write_ended (ok result) = incident_complited_task_write result
write_ended (err e) = incident_join_handle_task_write e

read_first :
    {JoinError : Type 0} (c : PeerChannels) (read other : JoinRead JoinError)
    (write : JoinWrite JoinError)
    → (end_peer c (read_ended read) other write).1 ≡ end_both read write
unfolding end_peer end_complited_task_read end_join_handle_task_read end_both
read_first c (ok (ok r)) other (ok (ok w)) = refl
read_first c (ok (ok r)) other (ok (err w)) = refl
read_first c (ok (err r)) other (ok (ok w)) = refl
read_first c (ok (err r)) other (ok (err w)) = refl
read_first c (ok (ok r)) other (err w) = refl
read_first c (ok (err r)) other (err w) = refl
read_first c (err r) other (ok (ok w)) = refl
read_first c (err r) other (ok (err w)) = refl
read_first c (err r) other (err w) = refl

write_first :
    {JoinError : Type 0} (c : PeerChannels) (read : JoinRead JoinError)
    (write other : JoinWrite JoinError)
    → (end_peer c (write_ended write) read other).1 ≡ end_both read write
unfolding end_peer end_complited_task_write end_join_handle_task_write end_both
write_first c (ok (ok r)) (ok (ok w)) other = refl
write_first c (ok (ok r)) (ok (err w)) other = refl
write_first c (ok (err r)) (ok (ok w)) other = refl
write_first c (ok (err r)) (ok (err w)) other = refl
write_first c (ok (ok r)) (err w) other = refl
write_first c (ok (err r)) (err w) other = refl
write_first c (err r) (ok (ok w)) other = refl
write_first c (err r) (ok (err w)) other = refl
write_first c (err r) (err w) other = refl

-- The order in which the tasks end does not matter: from the same two task results a peer gives the
-- same result whether the loop learned first that the reader ended, first that the writer ended, or
-- was told to shut down.
pub end_peer_order :
    {JoinError : Type 0} (c : PeerChannels) (read other_read : JoinRead JoinError)
    (write other_write : JoinWrite JoinError)
    → ((end_peer c (read_ended read) other_read write).1
        ≡ (end_peer c incident_confirmation_shutdown read write).1)
      × ((end_peer c (write_ended write) read other_write).1
          ≡ (end_peer c incident_confirmation_shutdown read write).1)
unfolding end_peer
end_peer_order c read other_read write other_write =
    (read_first c read other_read write, write_first c read write other_write)

-- How a peer ends well: by what its reader saw.
abbrev pub success_of : SuccessTaskRead → SuccessPeer
success_of SuccessTaskRead.successful = SuccessPeer.successful_task_read_task_write
success_of SuccessTaskRead.successful_eof =
    SuccessPeer.successful_task_read_broken_pipe_task_write_successful

end_both-ok :
    {JoinError : Type 0} (read : JoinRead JoinError) (write : JoinWrite JoinError) (s : SuccessPeer)
    → end_both read write ≡ ok s
    → (r : SuccessTaskRead) × (w : SuccessTaskWrite) × (read ≡ ok (ok r))
      × (write ≡ ok (ok w))
      × (s ≡ success_of r)
unfolding end_both
end_both-ok (ok (ok SuccessTaskRead.successful)) (ok (ok w)) s e = (_, w, refl, refl, cc)
end_both-ok (ok (ok SuccessTaskRead.successful_eof)) (ok (ok w)) s e = (_, w, refl, refl, cc)
end_both-ok (ok (ok r)) (ok (err w)) s e = cc
end_both-ok (ok (err r)) (ok (ok w)) s e = cc
end_both-ok (ok (err r)) (ok (err w)) s e = cc
end_both-ok (ok (ok r)) (err w) s e = cc
end_both-ok (ok (err r)) (err w) s e = cc
end_both-ok (err r) (ok (ok w)) s e = cc
end_both-ok (err r) (ok (err w)) s e = cc
end_both-ok (err r) (err w) s e = cc

-- What the peer knows of each task at the end: the result that ended the loop, or the awaited one.
abbrev read_known :
    {JoinError : Type 0}
    → EventsCriticalCompletion JoinError
    → JoinRead JoinError
    → JoinRead JoinError
read_known (incident_complited_task_read result) read = ok result
read_known (incident_join_handle_task_read e) read = err e
read_known _ read = read

abbrev write_known :
    {JoinError : Type 0}
    → EventsCriticalCompletion JoinError
    → JoinWrite JoinError
    → JoinWrite JoinError
write_known (incident_complited_task_write result) write = ok result
write_known (incident_join_handle_task_write e) write = err e
write_known _ write = write

-- A peer ends well only where both its tasks ended well, and then its result says whether the
-- stream had ended. Where the channel of a task was found closed, it never ends well.
pub end_peer-ok :
    {JoinError : Type 0} (c : PeerChannels) (reason : EventsCriticalCompletion JoinError)
    (read : JoinRead JoinError) (write : JoinWrite JoinError) (s : SuccessPeer)
    → (end_peer c reason read write).1 ≡ ok s
    → ((r : SuccessTaskRead) × (w : SuccessTaskWrite) × (read_known reason read ≡ ok (ok r))
        × (write_known reason write ≡ ok (ok w))
        × (s ≡ success_of r))
      × (reason ≢ incident_channel_task_read_closed)
      × (reason ≢ incident_channel_task_write_closed)
unfolding end_peer
end_peer-ok c incident_confirmation_shutdown read write s e =
    (end_both-ok read write s e, λ p. cc, λ p. cc)
end_peer-ok c incident_channel_peer_manager_closed read write s e =
    (end_both-ok read write s e, λ p. cc, λ p. cc)
end_peer-ok {JoinError = J} c incident_channel_task_read_closed read write s e =
    absurd (never write e)
  where
    never : (w : JoinWrite J) → end_task_read_closed w ≡ ok s → ⊥
    never (ok (ok w)) e = unfold end_task_read_closed in cc
    never (ok (err w)) e = unfold end_task_read_closed in cc
    never (err w) e = unfold end_task_read_closed in cc
end_peer-ok {JoinError = J} c incident_channel_task_write_closed read write s e =
    absurd (never read e)
  where
    never : (r : JoinRead J) → end_task_write_closed r ≡ ok s → ⊥
    never (ok (ok r)) e = unfold end_task_write_closed in cc
    never (ok (err r)) e = unfold end_task_write_closed in cc
    never (err r) e = unfold end_task_write_closed in cc
end_peer-ok c (incident_complited_task_read result) read write s e = (
  end_both-ok (ok result) write s (sym (read_first c (ok result) read write) ∙ e),
  λ p. cc,
  λ p. cc,
)
end_peer-ok c (incident_complited_task_write result) read write s e = (
  end_both-ok read (ok result) s (sym (write_first c read (ok result) write) ∙ e),
  λ p. cc,
  λ p. cc,
)
end_peer-ok c (incident_join_handle_task_read j) read write s e =
    (end_both-ok (err j) write s (sym (read_first c (err j) read write) ∙ e), λ p. cc, λ p. cc)
end_peer-ok c (incident_join_handle_task_write j) read write s e =
    (end_both-ok read (err j) s (sym (write_first c read (err j) write) ∙ e), λ p. cc, λ p. cc)
