-- ===== src/Channel.antt =====
-- The sending half of a tokio channel, `mpsc::Sender`. `send` fails once the receiver is gone, and
-- never succeeds again after that. `accepts` is how many more sends the receiver outlives; which
-- number that is, the environment chooses. A full channel makes the sender wait, which is no step.
use p2p_network_implementati.Prelude.{
  ℕ, zero, suc, List, [], ◌∷◌, ◌++◌, Bool, true, false, ◌≡◌, refl,
}

pub record Sender (E : Type 0) : Type 0 where
  pub accepts : ℕ
  pub sent : List E

-- `send(event).await`: the channel afterwards, and whether the result is `Ok`.
send_within : {E : Type 0} → ℕ → List E → E → Sender E × Bool
send_within zero sent event = (record { accepts = 0; sent = sent }, false)
send_within (suc n) sent event = (record { accepts = n; sent = sent ++ (event ∷ []) }, true)

unfoldable pub send : {E : Type 0} → Sender E → E → Sender E × Bool
unfolding send_within
send channel event = send_within channel.accepts channel.sent event

pub send_accepts :
    {E : Type 0} (n : ℕ) (channel : Sender E) (event : E)
    → channel.accepts ≡ suc n
    → send channel event ≡ (record { accepts = n; sent = channel.sent ++ (event ∷ []) }, true)
unfolding send
send_accepts n channel event h = rw h

send_within-sent :
    {E : Type 0} (n : ℕ) (sent : List E) (event : E)
    → (send_within n sent event).1 ≡ true
    → (send_within n sent event).0.sent ≡ sent ++ (event ∷ [])
unfolding send_within
send_within-sent zero sent event h = cc
send_within-sent (suc n) sent event h = refl

-- A send that succeeded has put its event behind the earlier ones.
pub sent-send :
    {E : Type 0} (channel : Sender E) (event : E)
    → (send channel event).1 ≡ true
    → (send channel event).0.sent ≡ channel.sent ++ (event ∷ [])
unfolding send
sent-send channel event h = send_within-sent channel.accepts channel.sent event h
