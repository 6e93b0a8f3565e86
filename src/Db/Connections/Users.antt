-- ===== src/Db/Connections/Users.antt =====
-- db::query by several threads at a time: each takes a connection, runs its query, gives it back.
use mathlib.Core.List.Perm
use ash_bot.Prelude.{
  ℕ, ◌≡◌, refl, sym, Bool, Option, none, some, List, [], ◌∷◌, Option-cases, inl, inr,
}
use ash_bot.CcQueue.{CcQueue}
use ash_bot.Ownership.{Fresh-perm}
use ash_bot.Pick.{pick, pick-Perm}
use ash_bot.Db.Connections.{Connections, get_connection, release_connection}
use ash_bot.Db.Connections.Conserves.{
  IsExclusive, present, present-perm, hold, get_connection-IsExclusive,
  release_connection-IsExclusive,
}

-- `held` is what the queries that run have got from get_connection.
pub record Users : Type 0 where
  pub connections : Connections
  pub held : List (Option ℕ)

pub data UserStep : Type 0 where
  -- a thread begins a query
  begin : UserStep
  -- one of the queries ends
  finish : ℕ → UserStep

module _ (queue : CcQueue (Option ℕ)) (status : Option ℕ → Bool) where
  pub user_step : UserStep → Users → Users
  user_step begin s =
      let (pc, connections) = get_connection queue status s.connections in
      record { connections = connections; held = pc ∷ s.held }
  user_step (finish n) s = elim (pick n s.held) [
    | none ↦ s
    | some (pc, rest) ↦ record {
      connections = release_connection queue status pc s.connections;
      held = rest;
    }
  ]

  pub user_steps : List UserStep → Users → Users
  unfolding user_step
  user_steps [] s = s
  user_steps (step ∷ steps) s = user_steps steps (user_step step s)

-- No connection has two places: in use by a query, in the pool, closed.
abbrev pub IsShared : Users → Type 0
IsShared s = IsExclusive (present s.held) s.connections

present-hold : (pc : Option ℕ) (pcs : List (Option ℕ)) → hold pc (present pcs) ≡ present (pc ∷ pcs)
present-hold none pcs = refl
present-hold (some pc) pcs = refl

module _ (queue : CcQueue (Option ℕ)) (status : Option ℕ → Bool) where
  user_step-IsShared :
      (step : UserStep) (s : Users) → IsShared s → IsShared (user_step queue status step s)
  unfolding user_step
  user_step-IsShared begin s f =
      let taken = get_connection queue status s.connections in
      rw (sym (present-hold taken.0 s.held))
        (get_connection-IsExclusive queue status (present s.held) s.connections f)
  user_step-IsShared (finish n) s f = elim (Option-cases (pick n s.held)) [
    | inl e ↦ rw (e, user_step) f
    | inr ((pc, rest), e) ↦
        rw (e, user_step)
          (release_connection-IsExclusive queue status pc (present rest) s.connections (
            rw (present-hold pc rest)
              (Fresh-perm (Perm.append_right _ (present-perm (pick-Perm n s.held pc rest e))) f)))
  ]

  -- However the queries of the threads interleave, no connection comes to be in two places of these:
  -- in use by a query, in the pool, closed. So none is handed to two queries at a time, and none is
  -- closed while a query has it.
  pub user_steps-IsShared :
      (steps : List UserStep) (s : Users) → IsShared s → IsShared (user_steps queue status steps s)
  unfolding user_steps
  user_steps-IsShared [] s f = f
  user_steps-IsShared (step ∷ steps) s f =
      user_steps-IsShared steps (user_step queue status step s) (user_step-IsShared step s f)
