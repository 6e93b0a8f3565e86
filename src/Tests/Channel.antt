-- ===== src/Tests/Channel.antt =====
-- Messages in the channel and the commands that they ask for.
use ash_bot.Prelude.{
  ℕ, ◌≡◌, refl, true, false, ◌==◌, ==_refl, some, [], ◌∷◌, codes, str_eq, break_at, stricmp_eq, All,
}
use ash_bot.Prelude.Int.{pos}
use ash_bot.Partial.{defined, Holds}
use ash_bot.World.{str}
use ash_bot.CcQueue.{CcQueue, newest_first}
use ash_bot.ObjectCache.{empty_cache}
use ash_bot.ObjectCache.Ownership.{empty_cache-Owned}
use ash_bot.SongRequest.Provider.Config.{LexicalCast}
use ash_bot.Irc.Connection.{new_connection}
use ash_bot.Commands.Traits.{hello_command, songrequest_command}
use ash_bot.Commands.Factory.{
  CreatorMap, register_command, create_command, register_commands, same_key, cstr_hash,
}
use ash_bot.Commands.Factory.Lookup.{create_command-register}
use ash_bot.ChannelContext.{ChannelContext, get_user_access_level, process_message_core}
use ash_bot.ChannelContext.Access.{process_message-denied}
use ash_bot.ChannelContext.Requests.{said_by, command_text, process_message-sets}
use ash_bot.ChannelContext.Cooldown.{IsOrdinary}
use ash_bot.ChannelContext.Output.{Output, send_now, send_later, run_delayed, output_steps}
use ash_bot.ChannelContext.Output.Strings.{StringsOwned, output_steps-StringsOwned}
use ash_bot.Tests.Setting.{answers, viewer, open_provider, fresh_data}

abbrev pub bot_cast : LexicalCast
bot_cast = record { to_bool = λ s. some true; to_int = λ s. some (pos 0); of_bool = λ b. codes "1" }

abbrev registered : CreatorMap
registered = register_commands ◌==◌

abbrev pub channel : ChannelContext
channel = record { creators = registered; ignore_plebs = false; provider = open_provider }

create_command-register_example :
    All
      (λ k.
        create_command ◌==◌
          (register_command ◌==◌ songrequest_command (codes "sr" ∷ codes "srq" ∷ []) [])
          k
        ≡ some songrequest_command)
      (codes "sr" ∷ codes "srq" ∷ [])
create_command-register_example =
    create_command-register ◌==◌ ==_refl songrequest_command (codes "sr" ∷ codes "srq" ∷ []) []

pub sr-found : create_command ◌==◌ registered (codes "sr") ≡ some songrequest_command
unfolding register_commands create_command same_key cstr_hash stricmp_eq
sr-found = refl

hello-found : create_command ◌==◌ registered (codes "hello") ≡ some hello_command
unfolding register_commands create_command same_key cstr_hash stricmp_eq
hello-found = refl

process_message-sets_example :
    ((process_message_core
        (answers 0 [])
        ◌==◌
        bot_cast
        channel
        (said_by viewer (command_text (codes "sr") (codes "on")) fresh_data)
        []).0
      ≡ defined (record open_provider { enabled = true }))
    × ((process_message_core
          (answers 0 [])
          ◌==◌
          bot_cast
          channel
          (said_by viewer (command_text (codes "sr") (codes "off")) fresh_data)
          []).0
        ≡ defined (record open_provider { enabled = false }))
process_message-sets_example =
    process_message-sets (answers 0 []) ◌==◌ bot_cast channel fresh_data viewer (codes "sr") [] refl
      (refl, (refl, tt)) sr-found

process_message-denied_example :
    process_message_core
      (answers 0 [])
      ◌==◌
      bot_cast
      channel
      (record fresh_data { user = some viewer; message = codes "!hello" })
      []
    ≡ (defined open_provider, (get_user_access_level (answers 0 []) viewer []).1)
unfolding str_eq break_at
process_message-denied_example =
    process_message-denied ◌==◌ (answers 0 []) bot_cast channel fresh_data viewer (codes "hello") []
      hello-found refl

viewer-IsOrdinary : IsOrdinary viewer
unfolding str_eq
viewer-IsOrdinary = record { privileged = refl; moderator = refl }

abbrev strings : CcQueue ℕ
strings = newest_first

abbrev quiet : Output
quiet = record {
  strings = empty_cache;
  connection = record (new_connection 0) { connected = true };
  pending = [];
}

output_steps-StringsOwned_example :
    Holds
      (λ r. StringsOwned r.1)
      (output_steps strings []
        (codes "#c")
        (send_later ".ban %s" false (str (codes "ann") ∷ [])
          ∷ send_now "hi" false []
          ∷ run_delayed 0
          ∷ [])
        quiet)
output_steps-StringsOwned_example =
    output_steps-StringsOwned strings [] (codes "#c")
      (send_later ".ban %s" false (str (codes "ann") ∷ [])
        ∷ send_now "hi" false []
        ∷ run_delayed 0
        ∷ [])
      quiet empty_cache-Owned
