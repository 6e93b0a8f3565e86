-- ===== src/Ownership.antt =====
-- Handles that are made one after another: each has at most one place, and none is from the future.
use mathlib.Core.List.{Mem, Nodup, Nodup-nil, Nodup-cons, not-mem-nil, mem-cons, Perm}
use mathlib.Core.List.Perm
use mathlib.Core.Logic.Or
use native.Mathlib.Bridge.{le_prop}
use ash_bot.Prelude.{ℕ, suc, ◌<◌, List, [], ◌∷◌, arith}

-- `next` is the handle that will be made next.
pub record Fresh (next : ℕ) (handles : List ℕ) : Type 0 where
  pub nodup : Nodup handles
  pub below : (c : ℕ) → Mem c handles → c < next

pub Fresh-nil : {n : ℕ} → Fresh n []
Fresh-nil = record { nodup = Nodup-nil; below = λ c m. absurd (not-mem-nil m) }

pub Fresh-perm : {n : ℕ} {xs ys : List ℕ} → Perm xs ys → Fresh n xs → Fresh n ys
Fresh-perm p f = record {
  nodup = Perm.nodup p f.nodup;
  below = λ c m. f.below c ((Perm.mem_iff p).1 m);
}

-- Making a handle.
pub Fresh-cons : {n : ℕ} {xs : List ℕ} → Fresh n xs → Fresh (suc n) (n ∷ xs)
Fresh-cons {n} {xs} f = record {
  nodup = Nodup-cons.1 (λ m. absurd (omega (arith, f.below n m)), f.nodup);
  below =
      λ c m. Or.elim le_prop (mem-cons.0 m) (λ e. omega arith) (λ k. omega (arith, f.below c k));
}

-- A handle that is made and dropped.
pub Fresh-skip : {n : ℕ} {xs : List ℕ} → Fresh n xs → Fresh (suc n) xs
Fresh-skip f = record { nodup = f.nodup; below = λ c m. omega (arith, f.below c m) }
