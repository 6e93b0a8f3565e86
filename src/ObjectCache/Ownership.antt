-- ===== src/ObjectCache/Ownership.antt =====
-- No block is lost, and none is in two hands.
use mathlib.Core.List.{Perm, perm_middle, perm_append_singleton}
use mathlib.Core.List.Perm
use ash_bot.Prelude.{ℕ, ◌≡◌, refl, ap, map, List, [], ◌∷◌, ◌++◌, Option-cases, inl, inr}
use ash_bot.CcQueue.{CcQueue}
use ash_bot.Ownership.{Fresh, Fresh-nil, Fresh-perm, Fresh-cons}
use ash_bot.ObjectCache.{Cache, empty_cache, get_block, release_block, delete_blocks}

-- `held` are the blocks that callers have got and not released: with the free ones they are all
-- the blocks there are, each once.
pub record Owned (held : List ℕ) (s : Cache) : Type 0 where
  pub fresh : Fresh s.next (held ++ s.free)
  pub all : Perm s.blocks (held ++ s.free)

pub empty_cache-Owned : Owned [] empty_cache
unfolding empty_cache
empty_cache-Owned = record { fresh = Fresh-nil; all = Perm.nil }

pub Owned-perm : {held held' : List ℕ} {s : Cache} → Perm held held' → Owned held s → Owned held' s
Owned-perm {s = s} p o =
    let moved = Perm.append_right s.free p in
    record { fresh = Fresh-perm moved o.fresh; all = Perm.trans o.all moved }

module _ (queue : CcQueue ℕ) where
  -- The block that `get_block` returns is held by nobody else, and no block is lost.
  pub get_block-Owned :
      (held : List ℕ) (s : Cache)
      → Owned held s
      → Owned ((get_block queue s).0 ∷ held) (get_block queue s).1
  unfolding get_block
  get_block-Owned held s o = elim (Option-cases (queue.try_dequeue s.free)) [
    | inl e ↦
        rw (e, get_block)
          (record {
            fresh = Fresh-cons o.fresh;
            all = Perm.trans (perm_append_singleton s.next s.blocks) (Perm.cons s.next o.all);
          })
    | inr ((ptr, rest), e) ↦
        let moved : Perm (held ++ s.free) (ptr ∷ held ++ rest) =
          Perm.trans (Perm.append_left held (queue.dequeue-perm s.free ptr rest e))
            (perm_middle held rest) in
        rw (e, get_block)
          (record { fresh = Fresh-perm moved o.fresh; all = Perm.trans o.all moved })
  ]

  -- A block that is released is free again, and is no longer held.
  pub release_block-Owned :
      (p : ℕ) (held : List ℕ) (s : Cache)
      → Owned (p ∷ held) s
      → Owned held (release_block queue p s)
  unfolding release_block
  release_block-Owned p held s o =
      let moved : Perm (p ∷ held ++ s.free) (held ++ queue.enqueue p s.free) = Perm.symm (
        Perm.trans (Perm.append_left held (queue.enqueue-perm p s.free))
          (perm_middle held s.free)) in
      record { fresh = Fresh-perm moved o.fresh; all = Perm.trans o.all moved }

first-delete_blocks :
    (size : ℕ) (blocks : List ℕ) → map (λ f. f.0) (delete_blocks size blocks) ≡ blocks
unfolding delete_blocks
first-delete_blocks size [] = refl
first-delete_blocks size (block ∷ blocks) = ap (◌∷◌ block) (first-delete_blocks size blocks)

-- The destructor gives every block back to the allocator once, those that are held as well.
pub delete_blocks-Owned :
    (size : ℕ) (held : List ℕ) (s : Cache)
    → Owned held s
    → Perm (map (λ f. f.0) (delete_blocks size s.blocks)) (held ++ s.free)
delete_blocks-Owned size held s o = rw (first-delete_blocks size s.blocks) o.all
