-- ===== src/Network/PeerManager/Tasks.antt =====
-- What is kept of the running tasks in src/network/peermanager.rs: `peerid`, `set_task_peers`,
-- `set_id_peers`.
use p2p_network_implementati.Prelude.{
  ℕ, suc, ◌-◌, ◌^◌, ◌<◌, ◌≡◌, sym, ap, ◌∙◌, Map, insert, remove, lookup-insert, lookup-remove, ◌==◌,
  ◌∷◌, some, arith, lookup, length, Bool-cases, inl, inr,
}
use p2p_network_implementati.Channel.{Sender}
use p2p_network_implementati.Network.Types.{PeerId, EventsPeerManager}
use p2p_network_implementati.Network.PeerManager.{PeerManager, new_peer_manager}
use p2p_network_implementati.Network.PeerManager.Distinct.{Distinct}

-- Every running task is recorded under its id.
abbrev Recorded : PeerManager → Type 0
Recorded s =
    (id : ℕ) (peerid : PeerId)
    → lookup id s.set_task_peers ≡ some peerid
    → lookup id s.set_id_peers ≡ some peerid

-- The counter is one more than the number of tasks, and every task is recorded.
pub record IsCounted (s : PeerManager) : Type 0 where
  pub counted : s.peerid ≡ suc (length s.set_task_peers)
  pub distinct : Distinct s.set_task_peers
  pub bounded : length s.set_task_peers < 2 ^ 64 - 1
  pub recorded : Recorded s

-- Only the counter, the tasks and their record count.
pub same_tasks :
    (s t : PeerManager)
    → t.peerid ≡ s.peerid
    → t.set_task_peers ≡ s.set_task_peers
    → t.set_id_peers ≡ s.set_id_peers
    → IsCounted s
    → IsCounted t
same_tasks s t e q r h = record {
  counted = rw (e, q) h.counted;
  distinct = rw q h.distinct;
  bounded = rw q h.bounded;
  recorded =
      λ id peerid there. ap (lookup id) r ∙ h.recorded id peerid (sym (ap (lookup id) q) ∙ there);
}

pub new-Recorded :
    (nonce : ℕ) (tx : Sender EventsPeerManager) → Recorded (new_peer_manager nonce tx)
unfolding new_peer_manager lookup
new-Recorded nonce tx id peerid there = cc

-- A new task is recorded along with the earlier ones, and a task that is left was there before.
pub insert-Recorded :
    (id : ℕ) (peerid : PeerId) (tasks ids : Map PeerId)
    → ((j : ℕ) (p : PeerId) → lookup j tasks ≡ some p → lookup j ids ≡ some p)
    → (j : ℕ) (p : PeerId) → lookup j ((id, peerid) ∷ tasks) ≡ some p
    → lookup j (insert id peerid ids) ≡ some p
unfolding lookup
insert-Recorded id peerid tasks ids h j p there =
    lookup-insert id j peerid ids ∙ elim (Bool-cases (id == j)) [
      | inl same ↦ rw same (rw same at there)
      | inr other ↦ rw other (h j p (rw other at there))
    ]

pub still_there :
    (id j : ℕ) (tasks : Map PeerId) (p : PeerId)
    → lookup j (remove id tasks) ≡ some p
    → lookup j tasks ≡ some p
still_there id j tasks p left = ground (arith, lookup-remove id j tasks)
