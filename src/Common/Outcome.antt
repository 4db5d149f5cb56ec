-- ===== src/Common/Outcome.antt =====
-- What an asynchronous function settles to: a value, or the error that it throws.
use mathlib.Core.Path.{◌≡◌, refl}
use mathlib.Core.Logic.{◌⊎◌, inl, inr}

pub data Outcome {ℓ} (E : Type 0) (A : Type ℓ) : Type ℓ where
  thrown : E → Outcome E A
  done : A → Outcome E A

module _ {ℓ κ} {E : Type 0} {A : Type ℓ} {B : Type κ} where
  infixl 5 ◌>>=◌
  abbrev pub ◌>>=◌ : Outcome E A → (A → Outcome E B) → Outcome E B
  thrown why >>= next = thrown why
  done value >>= next = next value

  -- A chain that ends well went through its first part.
  pub ◌>>=◌-done :
      (first : Outcome E A) (next : A → Outcome E B) {end : B}
      → (first >>= next) ≡ done end
      → (value : A) × (first ≡ done value) × (next value ≡ done end)
  ◌>>=◌-done (thrown why) next h = cc
  ◌>>=◌-done (done value) next h = (value, refl, h)

pub Outcome-cases {ℓ} :
    {E : Type 0} {A : Type ℓ} (o : Outcome E A)
    → ((why : E) × (o ≡ thrown why)) ⊎ ((a : A) × (o ≡ done a))
Outcome-cases (thrown why) = inl (why, refl)
Outcome-cases (done a) = inr (a, refl)
