-- ===== src/Db/Connections.antt =====
-- source/db/db.cpp: the pool of connections. Connections are numbered in the order in which
-- PQconnectdb made them; `status` is what PQstatus says of one (`none` is the null pointer).
pub mod Conserves
pub mod Users
use ash_bot.Prelude.{ℕ, zero, suc, Bool, Option, none, some, List, [], ◌∷◌, if◌then◌else◌}
use ash_bot.CcQueue.{CcQueue}

-- `finished` are the connections that PQfinish closed.
pub record Connections : Type 0 where
  pub pool : List (Option ℕ)
  pub finished : List ℕ
  pub next : ℕ

pub finish : Option ℕ → Connections → Connections
finish none s = s
finish (some pc) s = record s { finished = pc ∷ s.finished }

module _ (queue : CcQueue (Option ℕ)) (status : Option ℕ → Bool) where
  -- PQconnectdb, and the null pointer where it did not connect
  pub open_connection : Connections → Option ℕ × Connections
  open_connection s =
      let pc = some s.next in
      let opened = record s { next = suc s.next } in
      if status pc then (pc, opened) else (none, opened)

  pub get_connection : Connections → Option ℕ × Connections
  unfolding open_connection finish
  get_connection s = elim (queue.try_dequeue s.pool) [
    | some (pc, rest) ↦
        (let taken = record s { pool = rest } in
          if status pc then (pc, taken) else open_connection (finish pc taken))
    | none ↦ open_connection s
  ]

  pub release_connection : Option ℕ → Connections → Connections
  release_connection pc s = record s { pool = queue.enqueue pc s.pool }

  -- db::query around detail::query, which is `run` on the connection
  pub with_connection {ℓ} : {R : Type ℓ} → (Option ℕ → R) → Connections → R × Connections
  unfolding get_connection release_connection
  with_connection run s =
      let (pc, taken) = get_connection s in (run pc, release_connection pc taken)

  -- ~db: `while (connectionPool_.try_dequeue(pc)) PQfinish(pc)`, at most `fuel` times
  pub close_all : ℕ → Connections → Connections
  unfolding finish
  close_all zero s = s
  close_all (suc fuel) s = elim (queue.try_dequeue s.pool) [
    | none ↦ s
    | some (pc, rest) ↦ close_all fuel (finish pc (record s { pool = rest }))
  ]
