-- ===== src/Common/EarlyReturn.antt =====
-- Early return: the rest of a function body runs only where no `return` has been reached.
use mathlib.Core.Path.{◌≡◌, refl}
use mathlib.Core.Logic.{◌⊎◌, inl, inr}

pub data Flow {ℓ} (R A : Type ℓ) : Type ℓ where
  returned : R → Flow R A
  goes_on : A → Flow R A

infixl 5 ◌>>=◌
abbrev pub ◌>>=◌ {ℓ} : {R A B : Type ℓ} → Flow R A → (A → Flow R B) → Flow R B
returned r >>= f = returned r
goes_on a >>= f = f a

-- The value of a body, all of whose paths end in a return.
abbrev pub value {ℓ} : {R : Type ℓ} → Flow R R → R
value (returned r) = r
value (goes_on r) = r

pub Flow-cases {ℓ} :
    {R A : Type ℓ} (m : Flow R A) → ((r : R) × (m ≡ returned r)) ⊎ ((a : A) × (m ≡ goes_on a))
Flow-cases (returned r) = inl (r, refl)
Flow-cases (goes_on a) = inr (a, refl)

-- Two continuations that agree on what goes on.
pub >>=-agree {ℓ} :
    {R A B : Type ℓ} (m : Flow R A) (f g : A → Flow R B)
    → ((a : A) → m ≡ goes_on a → f a ≡ g a)
    → (m >>= f) ≡ (m >>= g)
>>=-agree (returned r) f g h = refl
>>=-agree (goes_on a) f g h = h a refl
