-- ===== src/Outcome.antt =====
-- Results of code that may also end the process, throw, or do what C++ leaves undefined.
use ash_bot.Prelude.{◌≡◌, refl}
use ash_bot.Partial.{Partial, defined, undefined}

pub data Outcome {ℓ} (A : Type ℓ) : Type ℓ where
  done : A → Outcome A
  -- abort()
  aborted : Outcome A
  -- an exception that leaves the function
  threw : Outcome A
  -- undefined behaviour
  faulted : Outcome A

infixl 5 ◌>>=◌
abbrev pub ◌>>=◌ {ℓ κ} : {A : Type ℓ} {B : Type κ} → Outcome A → (A → Outcome B) → Outcome B
done a >>= f = f a
aborted >>= f = aborted
threw >>= f = threw
faulted >>= f = faulted

abbrev pub of_partial {ℓ} : {A : Type ℓ} → Partial A → Outcome A
of_partial (defined a) = done a
of_partial undefined = faulted

-- What holds of the value that it comes to an end with.
abbrev pub Ends {ℓ κ} : {A : Type ℓ} → (A → Type κ) → Outcome A → Type κ
Ends P (done a) = P a
Ends P aborted = Unit
Ends P threw = Unit
Ends P faulted = Unit

-- What a bind that came to an end went through.
pub done-bind {ℓ κ} :
    {A : Type ℓ} {B : Type κ} (m : Outcome A) (f : A → Outcome B) {b : B}
    → (m >>= f) ≡ done b
    → (a : A) × (m ≡ done a) × (f a ≡ done b)
done-bind (done a) f h = (a, refl, h)
done-bind aborted f h = cc
done-bind threw f h = cc
done-bind faulted f h = cc

pub done-of_partial {ℓ} :
    {A : Type ℓ} (m : Partial A) {a : A} → of_partial m ≡ done a → m ≡ defined a
done-of_partial (defined x) h = cc
done-of_partial undefined h = cc

pub done-injective {ℓ} : {A : Type ℓ} {a b : A} → done a ≡ done b → a ≡ b
done-injective h = cc
