-- ===== src/ChannelContext.antt =====
-- source/channel_context.cpp: from a message in the channel to the command that it asks for, and the
-- messages that the bot sends to the channel. A time is a count of nanoseconds.
pub mod Access
pub mod Requests
pub mod Cooldown
pub mod Growth
pub mod Quiet
pub mod Lifetime
pub mod Output
use ash_bot.Prelude.{
  ℕ, suc, ◌+◌, ◌*◌, ◌-◌, ◌^◌, Bool, true, false, not, ◌||◌, ◌&&◌, Option, none, some, List, [], ◌∷◌,
  ◌++◌, Bytes, String, codes, str_eq, break_at, drop, ltb, ◌==◌, if◌then◌else◌,
}
use ash_bot.Prelude.Int.{ℤ, pos}
use ash_bot.Partial.{Partial, defined, undefined}
use ash_bot.World.{Env, Arg, str, int, M, ◌>>=◌, ◌>>◌, pure, skip, perform, said_later}
use ash_bot.TwitchUser.{TwitchUser}
use ash_bot.SubManager.{is_regular}
use ash_bot.Irc.Message.{MessageData}
use ash_bot.SongRequest.Provider.{Provider}
use ash_bot.SongRequest.Provider.Config.{LexicalCast}
use ash_bot.SongRequest.Provider.Request.{timeout_user}
use ash_bot.Commands.{is_blank}
use ash_bot.Commands.Traits.{
  UserAccessLevel, pleb, regular, subscriber, moderator, broadcaster, dev, access_index, CommandId,
  roulette, songrequest, CommandTraits, CommandClass, traits, accessible_by,
}
use ash_bot.Commands.Factory.{CreatorMap, create_command}
use ash_bot.Commands.Execute.{Command, set_command, execute}

-- the members that a message can reach
pub record ChannelContext : Type 0 where
  pub creators : CreatorMap
  pub ignore_plebs : Bool
  pub provider : Provider

abbrev pub dev_username : Bytes
dev_username = codes "n1ghtsh0ck"

abbrev pub broadcaster_username : Bytes
broadcaster_username = codes "ashwinitv"

-- is_user_ignored
unfoldable pub is_user_ignored : Bytes → Bool
is_user_ignored name = false

-- The keyword: the message behind its first byte, up to a blank.
abbrev pub keyword_of : Bytes → Bytes
keyword_of text = elim (break_at is_blank text) [ none ↦ text | some (before, here) ↦ before ]

module _ (env : Env) where
  -- get_user_access_level
  unfoldable pub get_user_access_level : TwitchUser → M UserAccessLevel
  get_user_access_level user =
      if str_eq user.username dev_username
      then pure dev
      else if str_eq user.username broadcaster_username
      then pure broadcaster
      else if user.moderator
      then pure moderator
      else if user.subscriber
      then pure subscriber
      else do is_reg ← is_regular env user.username true; pure (if is_reg then regular else pleb)

module _ (same_bucket : ℕ → ℕ → Bool) where
  -- parse_message from the check of the access on
  unfoldable pub checked_command :
      ChannelContext → TwitchUser → Bytes → Bytes → UserAccessLevel → Option Command
  unfolding is_user_ignored
  checked_command s user message keyword level =
      if access_index level == access_index pleb && s.ignore_plebs
      then none
      else if is_user_ignored user.username
      then none
      else elim (create_command same_bucket s.creators keyword) [
        | none ↦ none
        | some cls ↦
            if accessible_by level (traits cls) then some (set_command cls user message) else none
      ]

-- The command of a message, run where there is one.
abbrev pub run_parsed :
    Env → LexicalCast → ChannelContext → Partial (Option Command) → M (Partial Provider)
run_parsed env cast s undefined = pure undefined
run_parsed env cast s (defined none) = pure (defined s.provider)
run_parsed env cast s (defined (some command)) = execute cast env command s.provider

module _ (env : Env) (same_bucket : ℕ → ℕ → Bool) where
  -- parse_message: the command, if there is one. The name of a message without a user is read
  -- through a null pointer.
  unfoldable pub parse_message : ChannelContext → MessageData → M (Partial (Option Command))
  unfolding get_user_access_level checked_command
  parse_message s d = elim d.message [
    | [] ↦ pure (defined none)
    | c ∷ text ↦ if not (c == b'!') then pure (defined none) else elim d.user [
      | none ↦ pure undefined
      | some user ↦ (do
        level ← get_user_access_level env user
        pure (defined (checked_command same_bucket s user d.message (keyword_of text) level)))
    ]
  ]

  -- process_message_core: the state of the song requests that the command leaves
  unfoldable pub process_message_core :
      LexicalCast → ChannelContext → MessageData → M (Partial Provider)
  unfolding parse_message
  process_message_core cast s d = do parsed ← parse_message s d; run_parsed env cast s parsed

-- process_message: the tasks that wait for a thread of the pool
unfoldable pub process_message : Option MessageData → List MessageData → List MessageData
process_message none tasks = tasks
process_message (some d) tasks = tasks ++ d ∷ []

-- timeout_user, whose message depends on whether there is a reason
pub timeout : Bytes → ℤ → Option Bytes → M (Unit {0})
timeout name seconds none =
    perform (said_later 1000 false ".timeout %s %i" (str name ∷ int seconds ∷ []))
timeout name seconds (some reason) = timeout_user name seconds reason

pub purge_user : Bytes → Option Bytes → M (Unit {0})
unfolding timeout
purge_user name reason = timeout name (pos 1) reason

abbrev ban_with : Bytes → Option Bytes → M (Unit {0})
ban_with name none = skip
ban_with name (some reason) =
    perform (said_later 1000 false ".ban %s %s" (str name ∷ str reason ∷ []))

-- ban_user; the second message is not an else
pub ban_user : Bytes → Option Bytes → M (Unit {0})
ban_user name reason = do
  ban_with name reason
  perform (said_later 1000 false ".ban %s" (str name ∷ []))

-- cooldownMap_; a missing time reads as that of the epoch
abbrev pub CooldownMap : Type 0
CooldownMap = List (CommandId × ℕ)

abbrev pub same_id : CommandId → CommandId → Bool
same_id roulette roulette = true
same_id songrequest songrequest = true
same_id _ _ = false

pub last_use : CooldownMap → CommandId → ℕ
last_use [] id = 0
last_use ((i, time) ∷ uses) id = if same_id i id then time else last_use uses id

pub set_last_use : CommandId → ℕ → CooldownMap → CooldownMap
set_last_use id now [] = (id, now) ∷ []
set_last_use id now ((i, time) ∷ uses) =
    if same_id i id then (i, now) ∷ uses else (i, time) ∷ set_last_use id now uses

-- register_commands: the map, at a time `now` that is past the first hour of the clock
pub initial_cooldowns : ℕ → CooldownMap
initial_cooldowns now = (roulette, now - 3600 * 10 ^ 9) ∷ (songrequest, now - 3600 * 10 ^ 9) ∷ []

-- is_command_cooldown_ok at the time `now`
unfoldable pub is_command_cooldown_ok :
    ℕ → CommandTraits → TwitchUser → CooldownMap → Bool × CooldownMap
unfolding last_use set_last_use
is_command_cooldown_ok now t user uses =
    if str_eq user.username dev_username || str_eq user.username broadcaster_username
    then (true, uses)
    else if ltb now (last_use uses t.id + t.cooldown)
    then (not t.restrict_mods && user.moderator, uses)
    else (true, set_last_use t.id now uses)
