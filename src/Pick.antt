-- ===== src/Pick.antt =====
-- Taking the n-th of a list of things that wait, where no order is promised.
use mathlib.Core.List.{Perm}
use mathlib.Core.List.Perm
use mathlib.Core.Path.{subst}
use ash_bot.Prelude.{ℕ, zero, suc, ◌≡◌, refl, Option, none, some, List, [], ◌∷◌, length, All, arith}

module _ {ℓ} {A : Type ℓ} where
  abbrev pub pick : ℕ → List A → Option (A × List A)
  pick n [] = none
  pick zero (t ∷ ts) = some (t, ts)
  pick (suc n) (t ∷ ts) = elim (pick n ts) [
    | none ↦ none
    | some (picked, rest) ↦ some (picked, t ∷ rest)
  ]

  abbrev IsPicked : List A → Option (A × List A) → Type ℓ
  IsPicked ts none = Unit {ℓ}
  IsPicked ts (some (t, rest)) = Perm ts (t ∷ rest)

  keep_first : A → Option (A × List A) → Option (A × List A)
  keep_first t o = elim o [ none ↦ none | some (picked, rest) ↦ some (picked, t ∷ rest) ]

  keep_first-IsPicked :
      (t : A) (ts : List A) (o : Option (A × List A))
      → IsPicked ts o
      → IsPicked (t ∷ ts) (keep_first t o)
  unfolding keep_first
  keep_first-IsPicked t ts none h = tt
  keep_first-IsPicked t ts (some (picked, rest)) h =
      Perm.trans (Perm.cons t h) (Perm.swap picked t rest)

  pick-IsPicked : (n : ℕ) (ts : List A) → IsPicked ts (pick n ts)
  unfolding keep_first
  pick-IsPicked n [] = tt
  pick-IsPicked zero (t ∷ ts) = Perm.refl (t ∷ ts)
  pick-IsPicked (suc n) (t ∷ ts) = keep_first-IsPicked t ts (pick n ts) (pick-IsPicked n ts)

  pub pick-Perm :
      (n : ℕ) (ts : List A) (t : A) (rest : List A)
      → pick n ts ≡ some (t, rest)
      → Perm ts (t ∷ rest)
  pick-Perm n ts t rest e = subst (IsPicked ts) e (pick-IsPicked n ts)

  -- What holds of all holds of the one that is taken, and of the others.
  module _ {κ} (P : A → Type κ) where
    abbrev AllPicked : Option (A × List A) → Type κ
    AllPicked none = Unit {κ}
    AllPicked (some (t, rest)) = P t × All P rest

    keep_first-All :
        (t : A) (o : Option (A × List A)) → P t → AllPicked o → AllPicked (keep_first t o)
    unfolding keep_first
    keep_first-All t none p h = tt
    keep_first-All t (some (picked, rest)) p h = (h.0, (p, h.1))

    AllPicked-pick : (n : ℕ) (ts : List A) → All P ts → AllPicked (pick n ts)
    unfolding keep_first
    AllPicked-pick n [] h = tt
    AllPicked-pick zero (t ∷ ts) h = h
    AllPicked-pick (suc n) (t ∷ ts) h = keep_first-All t (pick n ts) h.0 (AllPicked-pick n ts h.1)

    pub pick-All :
        (n : ℕ) (ts : List A) (t : A) (rest : List A)
        → pick n ts ≡ some (t, rest)
        → All P ts
        → P t × All P rest
    pick-All n ts t rest e h = subst AllPicked e (AllPicked-pick n ts h)

  abbrev OneLess : List A → Option (A × List A) → Type 0
  OneLess ts none = Unit
  OneLess ts (some (t, rest)) = length ts ≡ suc (length rest)

  keep_first-OneLess :
      (t : A) (ts : List A) (o : Option (A × List A))
      → OneLess ts o
      → OneLess (t ∷ ts) (keep_first t o)
  unfolding keep_first
  keep_first-OneLess t ts none h = tt
  keep_first-OneLess t ts (some (picked, rest)) h = omega arith

  OneLess-pick : (n : ℕ) (ts : List A) → OneLess ts (pick n ts)
  unfolding keep_first
  OneLess-pick n [] = tt
  OneLess-pick zero (t ∷ ts) = refl
  OneLess-pick (suc n) (t ∷ ts) = keep_first-OneLess t ts (pick n ts) (OneLess-pick n ts)

  pub length-pick :
      (n : ℕ) (ts : List A) (t : A) (rest : List A)
      → pick n ts ≡ some (t, rest)
      → length ts ≡ suc (length rest)
  length-pick n ts t rest e = subst (OneLess ts) e (OneLess-pick n ts)
