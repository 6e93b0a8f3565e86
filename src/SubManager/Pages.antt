-- ===== src/SubManager/Pages.antt =====
-- How many pages of subscribers get_subs asks for, and that the names stay a set.
use ash_bot.Prelude.{ℕ, ◌+◌, ◌≤◌, Bool, Option, none, some, List, Bytes, if◌then◌else◌}
use ash_bot.Outcome.{Outcome, Ends}
use ash_bot.World.{Event, Env, request_count}
use ash_bot.TwitchApi.{SubsObject}
use ash_bot.TwitchApi.Names.{IsUnique}

-- The fuel was enough, and the names are a set where no exception left the loop.
abbrev pub Returned : Option (Outcome (List Bytes)) → Type 0
Returned none = ⊥
Returned (some result) = Ends IsUnique result

module _ (env : Env) (parse : Bytes → Option SubsObject) (client_id user : Bytes) where
  -- The bound on the requests of the loop with `rounds` of it left.
  abbrev Bounded : Bool → ℕ → List Event → Option (Outcome (List Bytes)) × List Event → Type 0
  Bounded full rounds h r =
      Returned r.0 × (request_count r.1 ≤ request_count h + (if full then rounds else 1))
