-- ===== src/Partial.antt =====
-- Results of code that may read through a null pointer: `undefined` is what C++ leaves undefined.
use ash_bot.Prelude.{Bool, true, false, ◌≡◌, refl, ◌⊎◌, inl, inr, if◌then◌else◌}

pub data Partial {ℓ} (A : Type ℓ) : Type ℓ where
  defined : A → Partial A
  undefined : Partial A

infixl 5 ◌>>=◌
abbrev pub ◌>>=◌ {ℓ κ} : {A : Type ℓ} {B : Type κ} → Partial A → (A → Partial B) → Partial B
defined a >>= f = f a
undefined >>= f = undefined

-- What holds of the value, where there is one.
abbrev pub Holds {ℓ κ} : {A : Type ℓ} → (A → Type κ) → Partial A → Type κ
Holds P (defined a) = P a
Holds P undefined = Unit

pub Holds-any {ℓ} : {A : Type ℓ} (m : Partial A) → Holds (λ _. Unit {0}) m
Holds-any (defined a) = tt
Holds-any undefined = tt

pub Holds-bind {ℓ κ μ ν} :
    {A : Type ℓ} {B : Type κ} (P : A → Type μ) (Q : B → Type ν) (m : Partial A) (f : A → Partial B)
    → Holds P m
    → ((a : A) → P a → Holds Q (f a))
    → Holds Q (m >>= f)
Holds-bind P Q (defined a) f h next = next a h
Holds-bind P Q undefined f h next = tt

pub Holds-if {ℓ κ} :
    {A : Type ℓ} (P : A → Type κ) (b : Bool) (m n : Partial A)
    → (b ≡ true → Holds P m)
    → (b ≡ false → Holds P n)
    → Holds P (if b then m else n)
Holds-if P true m n h k = h refl
Holds-if P false m n h k = k refl

pub Partial-cases {ℓ} : {A : Type ℓ} (m : Partial A) → (m ≡ undefined) ⊎ ((a : A) × (m ≡ defined a))
Partial-cases (defined a) = inr (a, refl)
Partial-cases undefined = inl refl
