-- ===== src/SongRequest/Provider/Queue.antt =====
-- The queue of requests between the threads of the pool, which make and enqueue them, and the worker,
-- which takes them out: the counter is atomic, but a thread may be anywhere between both steps.
pub mod Tracked
use ash_bot.Prelude.{ℕ, none, some, List, [], ◌∷◌, Bytes}
use ash_bot.Pick.{pick}
use ash_bot.TwitchUser.{TwitchUser}
use ash_bot.SongRequest.Provider.{Provider, SongRequestItem, make_item, put_item}

-- `made` are the items that are in the hands of a thread, `taken` those that the worker has got.
pub record Requests : Type 0 where
  pub provider : Provider
  pub made : List SongRequestItem
  pub taken : List SongRequestItem

pub data RequestStep : Type 0 where
  -- a thread makes an item
  make : TwitchUser → Bytes → RequestStep
  -- one of the items that were made is enqueued
  put : ℕ → RequestStep
  -- the worker dequeues an item, which may be any of those of different threads
  take_out : ℕ → RequestStep

pub request_step : RequestStep → Requests → Requests
unfolding make_item put_item
request_step (make user link) s =
    let (item, p) = make_item user link s.provider in
    record s { provider = p; made = item ∷ s.made }
request_step (put n) s = elim (pick n s.made) [
  | none ↦ s
  | some (item, rest) ↦ record s { provider = put_item item s.provider; made = rest }
]
request_step (take_out n) s = elim (pick n s.provider.items) [
  | none ↦ s
  | some (item, rest) ↦ record s {
    provider = record s.provider { items = rest };
    taken = item ∷ s.taken;
  }
]

pub request_steps : List RequestStep → Requests → Requests
unfolding request_step
request_steps [] s = s
request_steps (step ∷ steps) s = request_steps steps (request_step step s)
