-- ===== src/ObjectCache/RefCounted.antt =====
-- ref_counted_object and cached_object: a block goes back to its cache with its last reference.
use ash_bot.Prelude.{
  ℕ, ◌+◌, ◌-◌, ◌%◌, ◌^◌, ◌<◌, ◌≡◌, refl, List, [], ◌∷◌, ◌==◌, if◌then◌else◌, arith, Bool-cases, inl,
  inr, ==_iff,
}
use ash_bot.CcQueue.{CcQueue}
use ash_bot.ObjectCache.{Cache, release_block}

-- One counted block: `refs_`, a uint32_t, and the cache that the block is of.
pub record Counted : Type 0 where
  pub refs : ℕ
  pub cache : Cache

-- intrusive_ptr_add_ref and intrusive_ptr_release
pub data RefOp : Type 0 where
  add_ref release : RefOp

module _ (queue : CcQueue ℕ) (block : ℕ) where
  -- add_ref, and release with cached_object::release_impl
  pub ref_step : RefOp → Counted → Counted
  ref_step add_ref s = record s { refs = (s.refs + 1) % 2 ^ 32 }
  ref_step release s =
      let new_ref = (s.refs + 2 ^ 32 - 1) % 2 ^ 32 in
      record {
        refs = new_ref;
        cache = if new_ref == 0 then release_block queue block s.cache else s.cache;
      }

  pub ref_steps : List RefOp → Counted → Counted
  unfolding ref_step
  ref_steps [] s = s
  ref_steps (op ∷ ops) s = ref_steps ops (ref_step op s)

-- From `n` references every call is made through a live one, and the count stays in 32 bits.
abbrev pub Alive : ℕ → List RefOp → Type 0
Alive n [] = Unit {0}
Alive n (add_ref ∷ ops) = (0 < n) × (n + 1 < 2 ^ 32) × Alive (n + 1) ops
Alive n (release ∷ ops) = (0 < n) × Alive (n - 1) ops

abbrev pub live_after : ℕ → List RefOp → ℕ
live_after n [] = n
live_after n (add_ref ∷ ops) = live_after (n + 1) ops
live_after n (release ∷ ops) = live_after (n - 1) ops

module _ (queue : CcQueue ℕ) (block : ℕ) where
  -- However references are copied and dropped, the count is the number of live ones, and the block
  -- is released to its cache once the last is gone, then exactly once, and never before.
  pub ref_steps-cache :
      (n : ℕ) (ops : List RefOp) (c : Cache)
      → 0 < n
      → n < 2 ^ 32
      → Alive n ops
      → ref_steps queue block ops (record { refs = n; cache = c }) ≡ record {
        refs = live_after n ops;
        cache = if live_after n ops == 0 then release_block queue block c else c;
      }
  unfolding ref_steps
  ref_steps-cache n [] c h b alive = ground arith
  ref_steps-cache n (add_ref ∷ ops) c h b (_, small, alive) =
      let count : (n + 1) % 2 ^ 32 ≡ n + 1 = omega arith in
      rw count (ref_steps-cache (n + 1) ops c (omega arith) small alive)
  ref_steps-cache n (release ∷ ops) c h b (_, alive) =
      let count : (n + 2 ^ 32 - 1) % 2 ^ 32 ≡ n - 1 = omega arith in
      rw count (elim (Bool-cases (n - 1 == 0)) [
        | inl last ↦
            (let zeroed : n - 1 ≡ 0 = (==_iff (n - 1) 0).0 last in
              rw zeroed (last_release ops (rw zeroed at alive)))
        | inr more ↦ rw more (ref_steps-cache (n - 1) ops c (ground arith) (omega arith) alive)
      ])
    where
      last_release :
          (ops : List RefOp)
          → Alive 0 ops
          → ref_steps queue block ops (record { refs = 0; cache = release_block queue block c })
            ≡ record {
              refs = live_after 0 ops;
              cache = if live_after 0 ops == 0 then release_block queue block c else c;
            }
      last_release [] a = refl
      last_release (add_ref ∷ later) a = elim a.0 [ ]
      last_release (release ∷ later) a = elim a.0 [ ]
