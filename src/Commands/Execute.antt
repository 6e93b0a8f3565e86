-- ===== src/Commands/Execute.antt =====
-- include/commands/fun_commands.h and songrequest_commands.h: what the commands do.
use ash_bot.Prelude.{
  Bool, true, false, not, none, some, List, [], ◌∷◌, Bytes, String, codes, if◌then◌else◌,
}
use ash_bot.Partial.{Partial, defined, undefined}
use ash_bot.World.{Env, M, ◌>>=◌, ◌>>◌, pure, say, object}
use ash_bot.TwitchUser.{TwitchUser}
use ash_bot.SongRequest.Provider.{Provider, enqueue_request}
use ash_bot.SongRequest.Provider.Config.{LexicalCast, set_enabled}
use ash_bot.Commands.{set_message, text_arg, arg_streq}
use ash_bot.Commands.Traits.{
  CommandClass, hello_command, songrequest_command, broadcaster, traits, accessible_by,
}

-- A command with its user and arguments set.
pub record Command : Type 0 where
  pub cls : CommandClass
  pub user : TwitchUser
  pub args : List Bytes

-- set_params and set_message on the command that create_command returned
unfoldable pub set_command : CommandClass → TwitchUser → Bytes → Command
set_command hello_command user message = record { cls = hello_command; user = user; args = [] }
set_command songrequest_command user message = record {
  cls = songrequest_command;
  user = user;
  args = set_message message;
}

abbrev sr_state_change : Bool → String
sr_state_change false = "Song request disabled!"
sr_state_change true = "Song request enabled!"

module _ (cast : LexicalCast) (env : Env) where
  -- songrequest_command::try_set_sr
  unfoldable pub try_set_sr : Command → Bool → Provider → M Provider
  try_set_sr command enabled p =
      if not (accessible_by broadcaster (traits command.cls))
      then pure p
      else do p' ← set_enabled cast env enabled p; say (sr_state_change enabled) []; pure p'

  -- songrequest_command::request_song; an argument that is not there leaves `pLink` unset
  unfoldable pub request_song : Command → Provider → Partial Provider
  request_song command p = elim (text_arg command.args 0) [
    | none ↦ undefined
    | some link ↦ defined (enqueue_request command.user link p)
  ]

  -- songrequest_command::execute
  unfoldable pub execute_songrequest : Command → Provider → M (Partial Provider)
  unfolding try_set_sr request_song
  execute_songrequest command p = elim command.args [
    | [] ↦
        (if not p.enabled
          then (do say "Song requests are not enabled right now." []; pure (defined p))
          else do say "%s, use !sr <link> to request a song." (object ∷ []); pure (defined p))
    | arg ∷ args ↦ elim (arg_streq command.args (codes "on") 0) [
      | undefined ↦ pure undefined
      | defined true ↦ (do p' ← try_set_sr command true p; pure (defined p'))
      | defined false ↦ elim (arg_streq command.args (codes "off") 0) [
        | undefined ↦ pure undefined
        | defined true ↦ (do p' ← try_set_sr command false p; pure (defined p'))
        | defined false ↦ pure (request_song command p)
      ]
    ]
  ]

  -- execute
  unfoldable pub execute : Command → Provider → M (Partial Provider)
  unfolding execute_songrequest
  execute command p = elim command.cls [
    | hello_command ↦ (do say "Hello %s" (object ∷ []); pure (defined p))
    | songrequest_command ↦ execute_songrequest command p
  ]
