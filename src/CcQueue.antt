-- ===== src/CcQueue.antt =====
-- include/cc_queue.h: the queue of the moodycamel library, known by what it documents. A list holds
-- what is in the queue; with several producers an item may come out in any order, and
-- `try_dequeue` may report a queue empty that is not.
use mathlib.Core.List.{Perm}
use mathlib.Core.List.Perm
use ash_bot.Prelude.{◌≡◌, Option, none, some, List, [], ◌∷◌}

pub record CcQueue {ℓ} (A : Type ℓ) : Type ℓ where
  pub try_dequeue : List A → Option (A × List A)
  pub enqueue : A → List A → List A
  pub dequeue-perm :
      (q : List A) (a : A) (rest : List A) → try_dequeue q ≡ some (a, rest) → Perm q (a ∷ rest)
  pub enqueue-perm : (a : A) (q : List A) → Perm (enqueue a q) (a ∷ q)

-- A queue that serves the newest item first.
module _ {ℓ} {A : Type ℓ} where
  abbrev pub newest_first_dequeue : List A → Option (A × List A)
  newest_first_dequeue [] = none
  newest_first_dequeue (a ∷ rest) = some (a, rest)

  pub newest_first-perm :
      (q : List A) (a : A) (rest : List A)
      → newest_first_dequeue q ≡ some (a, rest)
      → Perm q (a ∷ rest)
  newest_first-perm [] a rest e = cc
  newest_first-perm (x ∷ xs) a rest e = Perm.cons' (cc) (rw tails (Perm.refl rest))
    where
      tails : xs ≡ rest
      tails = cc

  abbrev pub newest_first : CcQueue A
  newest_first = record {
    try_dequeue = newest_first_dequeue;
    enqueue = λ a q. a ∷ q;
    dequeue-perm = newest_first-perm;
    enqueue-perm = λ a q. Perm.refl (a ∷ q);
  }
