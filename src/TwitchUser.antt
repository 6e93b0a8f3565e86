-- ===== src/TwitchUser.antt =====
-- include/twitch_user.h: who sent a message. `username_` is a buffer of 32 bytes.
use ash_bot.Prelude.{ℕ, Bool, Bytes, length, ltb, if◌then◌else◌}
use ash_bot.Prelude.Int.{ℤ}
use ash_bot.Partial.{Partial, defined, undefined}

pub record TwitchUser : Type 0 where
  pub id : ℤ
  pub username : Bytes
  pub display_name : Bytes
  pub moderator : Bool
  pub subscriber : Bool

-- TWITCH_USERNAME_MAX_LENGTH
abbrev pub username_max_length : ℕ
username_max_length = 32

-- set; a name that leaves no room for its terminator is written past the buffer
unfoldable pub set_user : ℤ → Bytes → Bytes → Bool → Bool → Partial TwitchUser
set_user id name display_name is_mod is_sub =
    if ltb (length name) username_max_length
    then defined (record {
      id = id;
      username = name;
      display_name = display_name;
      moderator = is_mod;
      subscriber = is_sub;
    })
    else undefined
