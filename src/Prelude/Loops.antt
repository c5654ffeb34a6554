-- ===== src/Prelude/Loops.antt =====
-- Event loops: a turn for each incident that the environment brings.
use mathlib.Core.Path.{◌≡◌, refl, subst}
use mathlib.Core.List.{List, [], ◌∷◌}

-- One turn of an event loop: it goes on in a new state, the task returns, or it panics.
pub data Flow {ℓ κ} (S : Type ℓ) (R : Type κ) : Type (ℓ ⊔ κ) where
  continues : S → Flow S R
  returns : R → Flow S R
  panics : Flow S R

-- The loop over the incidents, in the order in which they are taken up. It stands in
-- `continues s` while it waits for the next one.
unfoldable pub run_loop {ℓ κ μ} :
    {S : Type ℓ} {R : Type κ} {I : Type μ} → (S → I → Flow S R) → Flow S R → List I → Flow S R
run_loop step flow [] = flow
run_loop step (returns r) (i ∷ is) = returns r
run_loop step panics (i ∷ is) = panics
run_loop step (continues s) (i ∷ is) = run_loop step (step s i) is

module _ {ℓ κ μ ν} {S : Type ℓ} {R : Type κ} {I : Type μ} (P : S → Type ν)
    (step : S → I → Flow S R) where
  keeps_from :
      ((s t : S) (i : I) → P s → step s i ≡ continues t → P t)
      → (is : List I) (flow : Flow S R) (t : S) → ((s : S) → flow ≡ continues s → P s)
      → run_loop step flow is ≡ continues t
      → P t
  unfolding run_loop
  keeps_from keep [] flow t h e = h t e
  keeps_from keep (i ∷ is) (continues s) t h e =
      keeps_from keep is (step s i) t (λ u q. keep s u i (h s refl) q) e
  keeps_from keep (i ∷ is) (returns r) t h e = cc
  keeps_from keep (i ∷ is) panics t h e = cc

  -- What holds of the first state and is kept by each turn holds while the loop runs.
  pub run_loop-keeps :
      ((s t : S) (i : I) → P s → step s i ≡ continues t → P t)
      → (is : List I) (s t : S) → P s
      → run_loop step (continues s) is ≡ continues t
      → P t
  run_loop-keeps keep is s t p e =
      keeps_from keep is (continues s) t (λ u q. let same : s ≡ u = cc in subst P same p) e

-- A loop that still runs has not stopped earlier.
pub run_loop-continues {ℓ κ μ} :
    {S : Type ℓ} {R : Type κ} {I : Type μ} (step : S → I → Flow S R) (flow : Flow S R) (is : List I)
    (t : S)
    → run_loop step flow is ≡ continues t
    → (s : S) × (flow ≡ continues s)
unfolding run_loop
run_loop-continues step flow [] t e = (t, e)
run_loop-continues step (continues s) (i ∷ is) t e = (s, refl)
run_loop-continues step (returns r) (i ∷ is) t e = cc
run_loop-continues step panics (i ∷ is) t e = cc
