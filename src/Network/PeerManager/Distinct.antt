-- ===== src/Network/PeerManager/Distinct.antt =====
-- The tasks of src/network/peermanager.rs, a JoinSet: their ids are all different.
use p2p_network_implementati.Prelude.{
  ℕ, suc, ◌≡◌, refl, [], ◌∷◌, some, false, arith, Map, lookup, remove, length, Bool-cases, inl, inr,
  ◌==◌, ==_iff, ap, sym, ◌∙◌,
}
use p2p_network_implementati.Network.Types.{PeerId}

-- Task ids are all different.
abbrev pub Fresh : ℕ → Map PeerId → Type 0
Fresh id [] = Unit {0}
Fresh id ((j, p) ∷ tasks) = ((j == id) ≡ false) × Fresh id tasks

abbrev pub Distinct : Map PeerId → Type 0
Distinct [] = Unit {0}
Distinct ((j, p) ∷ tasks) = Fresh j tasks × Distinct tasks

remove-Fresh : (id : ℕ) (tasks : Map PeerId) → Fresh id tasks → remove id tasks ≡ tasks
unfolding remove
remove-Fresh id [] h = refl
remove-Fresh id ((j, p) ∷ tasks) h = ground (arith, remove-Fresh id tasks)

Fresh-remove : (k id : ℕ) (tasks : Map PeerId) → Fresh k tasks → Fresh k (remove id tasks)
unfolding remove
Fresh-remove k id [] h = tt
Fresh-remove k id ((j, p) ∷ tasks) h = elim (Bool-cases (j == id)) [
  | inl same ↦ rw same (Fresh-remove k id tasks h.1)
  | inr other ↦ rw other (h.0, Fresh-remove k id tasks h.1)
]

pub Distinct-remove : (id : ℕ) (tasks : Map PeerId) → Distinct tasks → Distinct (remove id tasks)
unfolding remove
Distinct-remove id [] h = tt
Distinct-remove id ((j, p) ∷ tasks) h = elim (Bool-cases (j == id)) [
  | inl same ↦ rw same (Distinct-remove id tasks h.1)
  | inr other ↦ rw other (Fresh-remove j id tasks h.0, Distinct-remove id tasks h.1)
]

pub length-remove :
    (id : ℕ) (tasks : Map PeerId) (p : PeerId)
    → Distinct tasks
    → lookup id tasks ≡ some p
    → suc (length (remove id tasks)) ≡ length tasks
unfolding remove lookup
length-remove id [] p d h = cc
length-remove id ((j, q) ∷ tasks) p d h = elim (Bool-cases (j == id)) [
  | inl same ↦
      let e : j ≡ id = (==_iff j id).0 same in
      rw same
        (ap suc (ap length (ap (λ (k : ℕ). remove k tasks) (sym e) ∙ remove-Fresh j tasks d.0)))
  | inr other ↦ rw other (ap suc (length-remove id tasks p d.1 (rw other at h)))
]
