-- ===== src/Tests/Blocks.antt =====
-- Blocks, strings and connections.
use ash_bot.Prelude.{ℕ, ◌≡◌, Option, none, some, List, [], ◌∷◌, arith, Bool, true, false}
use ash_bot.CcQueue.{CcQueue, newest_first}
use ash_bot.Ownership.{Fresh-nil}
use ash_bot.ObjectCache.{empty_cache, release_block}
use ash_bot.ObjectCache.RefCounted.{add_ref, release, ref_steps, ref_steps-cache}
use ash_bot.Db.Connections.{Connections}
use ash_bot.Db.Connections.Users.{
  Users, UserStep, begin, finish, user_steps, IsShared, user_steps-IsShared,
}

abbrev queue : CcQueue ℕ
queue = newest_first

-- A second reference is made, and both are dropped.
ref_steps-cache_example :
    ref_steps queue 0 (add_ref ∷ release ∷ release ∷ []) (record { refs = 1; cache = empty_cache })
    ≡ record { refs = 0; cache = release_block queue 0 empty_cache }
ref_steps-cache_example =
    ref_steps-cache queue 0 1 (add_ref ∷ release ∷ release ∷ []) empty_cache (omega arith)
      (omega arith) (omega arith, omega arith, (omega arith, (omega arith, tt)))

-- One connection waits in the pool; those with even numbers are alive.
abbrev connections : CcQueue (Option ℕ)
connections = newest_first

abbrev no_connections : Connections
no_connections = record { pool = []; finished = []; next = 0 }

abbrev connects : Option ℕ → Bool
connects none = false
connects (some pc) = true

-- Two queries begin, and the later one ends first.
abbrev queries : List UserStep
queries = begin ∷ begin ∷ finish 0 ∷ begin ∷ finish 1 ∷ finish 0 ∷ []

abbrev idle : Users
idle = record { connections = no_connections; held = [] }

user_steps-IsShared_example : IsShared (user_steps connections connects queries idle)
user_steps-IsShared_example = user_steps-IsShared connections connects queries idle Fresh-nil
