-- ===== src/Prelude/Results.antt =====
-- Results as the source returns them, and outcomes of code that may also panic.
use mathlib.Core.Path.{◌≡◌, refl, ap, subst, ◌∙◌}
use mathlib.Core.Logic.{◌≢◌}
use mathlib.Core.Bool.{Bool, true, false}

-- `Result<A, E>`.
pub data Result {ℓ κ} (E : Type ℓ) (A : Type κ) : Type (ℓ ⊔ κ) where
  ok : A → Result E A
  err : E → Result E A

-- Code that returns `Result<A, E>` or panics (an index out of range, an arithmetic overflow).
pub data Outcome {ℓ κ} (E : Type ℓ) (A : Type κ) : Type (ℓ ⊔ κ) where
  value : A → Outcome E A
  fails : E → Outcome E A
  panic : Outcome E A

infixl 5 ◌>>=◌ ◌>>◌
abbrev pub ◌>>=◌ {ℓ κ μ} :
    {E : Type ℓ} {A : Type κ} {B : Type μ} → Outcome E A → (A → Outcome E B) → Outcome E B
value a >>= f = f a
fails e >>= f = fails e
panic >>= f = panic

abbrev pub ◌>>◌ {ℓ κ} : {E : Type ℓ} {B : Type κ} → Outcome E (Unit {0}) → Outcome E B → Outcome E B
m >> k = m >>= λ _. k

-- `if … { return Err(e); }`
abbrev pub return_if {ℓ} : {E : Type ℓ} → Bool → E → Outcome E (Unit {0})
return_if true e = fails e
return_if false e = value tt

-- `.map_err(f)?`
abbrev pub map_err {ℓ κ μ} :
    {E : Type ℓ} {F : Type κ} {A : Type μ} → (E → F) → Outcome E A → Outcome F A
map_err f (value a) = value a
map_err f (fails e) = fails (f e)
map_err f panic = panic

module _ {ℓ κ μ} {E : Type ℓ} {A : Type κ} {B : Type μ} (f : A → Outcome E B) where
  pub bind_value :
      {m : Outcome E A} {a : A} {r : Outcome E B} → m ≡ value a → f a ≡ r → (m >>= f) ≡ r
  bind_value p q = ap (λ n. n >>= f) p ∙ q

  pub bind_panic : {m : Outcome E A} → m ≡ panic → (m >>= f) ≡ panic
  bind_panic p = ap (λ n. n >>= f) p

-- A mapped error leaves the values as they were.
pub map_err_inv {ℓ κ μ} :
    {E : Type ℓ} {F : Type κ} {A : Type μ} (g : E → F) (m : Outcome E A) {a : A}
    → map_err g m ≡ value a
    → m ≡ value a
map_err_inv g (value a) h = cc
map_err_inv g (fails e) h = cc
map_err_inv g panic h = cc

-- Every value that the code returns satisfies `P`.
pub record Yields {ℓ κ μ} {E : Type ℓ} {A : Type κ} (P : A → Type μ) (m : Outcome E A)
    : Type (ℓ ⊔ κ ⊔ μ) where
  pub apply : (a : A) → m ≡ value a → P a

pub Yields-value {ℓ κ ν} :
    {E : Type ℓ} {B : Type κ} (P : B → Type ν) (b : B) → P b → Yields {E = E} P (value b)
Yields-value {E = E} {B = B} P b p = record { apply = λ a e. value_inj a e }
  where
    value_inj : (c : B) → ◌≡◌ {A = Outcome E B} (value b) (value c) → P c
    value_inj c e = let q : b ≡ c = cc in subst P q p

module _ {ℓ κ μ ν} {E : Type ℓ} {A : Type κ} {B : Type μ} (P : B → Type ν) where
  pub Yields-bind :
      (m : Outcome E A) (f : A → Outcome E B)
      → ((a : A) → m ≡ value a → Yields P (f a))
      → Yields P (m >>= f)
  Yields-bind (value a) f h = h a refl
  Yields-bind (fails e) f h = record { apply = λ b p. cc }
  Yields-bind panic f h = record { apply = λ b p. cc }

-- A bind whose first part only panics or returns, and panics whatever is returned, panics.
module _ {ℓ κ μ} {E : Type ℓ} {A : Type κ} {B : Type μ} (f : A → Outcome E B)
    (m : Outcome E A) where
  pub bind_panics :
      ((e : E) → m ≢ fails e) → ((a : A) → m ≡ value a → f a ≡ panic) → (m >>= f) ≡ panic
  bind_panics never next = go m never next
    where
      go :
          (n : Outcome E A)
          → ((e : E) → n ≢ fails e)
          → ((a : A) → n ≡ value a → f a ≡ panic)
          → (n >>= f) ≡ panic
      go (value a) never next = next a refl
      go (fails e) never next = absurd (never e refl)
      go panic never next = refl

  pub bind-ne-fails : (e : E) → m ≢ fails e → ((a : A) → f a ≢ fails e) → (m >>= f) ≢ fails e
  bind-ne-fails e first next = go m first
    where
      go : (n : Outcome E A) → n ≢ fails e → (n >>= f) ≢ fails e
      go (value a) first h = next a h
      go (fails d) first h = let q : d ≡ e = cc in first (ap fails q)
      go panic first h = cc
