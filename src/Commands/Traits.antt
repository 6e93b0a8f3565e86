-- ===== src/Commands/Traits.antt =====
-- include/access_level.h, command_id.h, command_traits.h and bot_command_base: what a command asks of
-- its users.
use ash_bot.Prelude.{ℕ, ◌*◌, ◌^◌, Bool, false, leb}

-- user_access_level
pub data UserAccessLevel : Type 0 where
  pleb regular subscriber moderator broadcaster dev : UserAccessLevel

unfoldable pub access_index : UserAccessLevel → ℕ
access_index pleb = 0
access_index regular = 1
access_index subscriber = 2
access_index moderator = 3
access_index broadcaster = 4
access_index dev = 5

-- command_id, without its bounds
pub data CommandId : Type 0 where
  roulette songrequest : CommandId

-- the members of bot_command_base that a command's traits give; a duration is in nanoseconds
pub record CommandTraits : Type 0 where
  pub id : CommandId
  pub required_access : UserAccessLevel
  pub cooldown : ℕ
  pub restrict_mods : Bool
  pub offline_only : Bool

-- The classes of commands.
pub data CommandClass : Type 0 where
  hello_command songrequest_command : CommandClass

abbrev hello_command_traits : CommandTraits
hello_command_traits = record {
  id = roulette;
  required_access = dev;
  cooldown = 10 * 10 ^ 9;
  restrict_mods = false;
  offline_only = false;
}

abbrev songrequest_command_traits : CommandTraits
songrequest_command_traits = record {
  id = songrequest;
  required_access = pleb;
  cooldown = 0;
  restrict_mods = false;
  offline_only = false;
}

unfoldable pub traits : CommandClass → CommandTraits
traits hello_command = hello_command_traits
traits songrequest_command = songrequest_command_traits

unfoldable pub accessible_by : UserAccessLevel → CommandTraits → Bool
unfolding access_index
accessible_by level t = leb (access_index t.required_access) (access_index level)
