-- ===== src/ObjectCache.antt =====
-- include/object_cache.h, include/string_pool.h and include/ref_counted_object.h: blocks that are
-- handed out, released and handed out again. A block is known by the order in which it was
-- allocated; `next` is the block that the allocator would return next.
pub mod Ownership
pub mod RefCounted
use ash_bot.Prelude.{ℕ, suc, ◌*◌, Option, none, some, List, [], ◌∷◌, ◌++◌}
use ash_bot.CcQueue.{CcQueue}

-- object_cache: `blocks_` and `freeBlocks_`
pub record Cache : Type 0 where
  pub blocks : List ℕ
  pub free : List ℕ
  pub next : ℕ

pub empty_cache : Cache
empty_cache = record { blocks = []; free = []; next = 0 }

module _ (queue : CcQueue ℕ) where
  pub get_block : Cache → ℕ × Cache
  get_block s = elim (queue.try_dequeue s.free) [
    | some (ptr, rest) ↦ (ptr, record s { free = rest })
    | none ↦ (s.next, record s { blocks = s.blocks ++ s.next ∷ []; next = suc s.next })
  ]

  pub release_block : ℕ → Cache → Cache
  release_block block s = record s { free = queue.enqueue block s.free }

  -- release_string: a null pointer is ignored
  unfoldable pub release_string : Option ℕ → Cache → Cache
  unfolding release_block
  release_string none s = s
  release_string (some block) s = release_block block s

-- the destructor: the blocks that are given back to the allocator, with the sizes that it is told
pub delete_blocks : ℕ → List ℕ → List (ℕ × ℕ)
delete_blocks size [] = []
delete_blocks size (block ∷ blocks) = (block, size) ∷ delete_blocks size blocks

-- the size that get_block asks the allocator for
pub allocated_size : ℕ → ℕ → ℕ
allocated_size block_size size = block_size * size
