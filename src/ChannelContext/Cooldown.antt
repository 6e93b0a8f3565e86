-- ===== src/ChannelContext/Cooldown.antt =====
-- The cooldown of a command.
use ash_bot.Prelude.{
  ℕ, ◌+◌, ◌<◌, ◌≡◌, refl, ap, true, false, and_false, not, ◌||◌, [], ◌∷◌, str_eq, ltb, lt→ltb,
  Bool-cases, inl, inr,
}
use ash_bot.TwitchUser.{TwitchUser}
use ash_bot.Commands.Traits.{CommandId, CommandTraits, roulette, songrequest}
use ash_bot.ChannelContext.{
  CooldownMap, dev_username, broadcaster_username, same_id, last_use, set_last_use,
  is_command_cooldown_ok,
}

-- A user that the cooldown is for.
pub record IsOrdinary (user : TwitchUser) : Type 0 where
  pub privileged :
      (str_eq user.username dev_username || str_eq user.username broadcaster_username) ≡ false
  pub moderator : user.moderator ≡ false

same_id_refl : (id : CommandId) → same_id id id ≡ true
same_id_refl roulette = refl
same_id_refl songrequest = refl

last_use-set :
    (id : CommandId) (now : ℕ) (uses : CooldownMap) → last_use (set_last_use id now uses) id ≡ now
unfolding last_use set_last_use
last_use-set id now [] = rw (same_id_refl id) refl
last_use-set id now ((i, time) ∷ uses) = elim (Bool-cases (same_id i id)) [
  | inl e ↦ rw (e, last_use, e) refl
  | inr e ↦ rw (e, last_use, e, last_use-set id now uses) refl
]

refused :
    (now : ℕ) (t : CommandTraits) (user : TwitchUser) (uses : CooldownMap)
    → IsOrdinary user
    → ltb now (last_use uses t.id + t.cooldown) ≡ true
    → is_command_cooldown_ok now t user uses ≡ (false, uses)
unfolding is_command_cooldown_ok
refused now t user uses plain soon =
    rw (plain.privileged, soon, plain.moderator, and_false (not t.restrict_mods)) refl

let_through :
    (now : ℕ) (t : CommandTraits) (user : TwitchUser) (uses : CooldownMap)
    → IsOrdinary user
    → ltb now (last_use uses t.id + t.cooldown) ≡ false
    → is_command_cooldown_ok now t user uses ≡ (true, set_last_use t.id now uses)
unfolding is_command_cooldown_ok
let_through now t user uses plain late = rw (plain.privileged, late) refl

-- Once a user who is no moderator, developer or broadcaster was let through, no such user is let
-- through again until the cooldown of the command is over.
pub is_command_cooldown_ok-again :
    (t : CommandTraits) (first second : TwitchUser) (now later : ℕ) (uses : CooldownMap)
    → IsOrdinary first
    → IsOrdinary second
    → (is_command_cooldown_ok now t first uses).0 ≡ true
    → later < now + t.cooldown
    → (is_command_cooldown_ok later t second (is_command_cooldown_ok now t first uses).1).0 ≡ false
is_command_cooldown_ok-again t first second now later uses f s passed soon =
    elim (Bool-cases (ltb now (last_use uses t.id + t.cooldown))) [
      | inl e ↦ (let no = refused now t first uses f e in cc)
      | inr e ↦
          (let uses' = set_last_use t.id now uses in
            let recorded : ltb later (last_use uses' t.id + t.cooldown) ≡ true =
              rw (last_use-set t.id now uses) (lt→ltb later (now + t.cooldown) soon) in
            rw (let_through now t first uses f e)
              (ap (λ r. r.0) (refused later t second uses' s recorded)))
    ]
