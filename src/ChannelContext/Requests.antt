-- ===== src/ChannelContext/Requests.antt =====
-- What a message in the channel does to the song requests.
use ash_bot.Prelude.{
  ℕ, zero, suc, ◌≡◌, refl, ap, ◌∙◌, Bool, true, false, and_false, some, List, [], ◌∷◌, ◌++◌, Bytes,
  codes, length, str_eq, break_at-append, break_at-none, ◌==◌,
}
use ash_bot.Partial.{defined}
use ash_bot.World.{Env, Event}
use ash_bot.TwitchUser.{TwitchUser}
use ash_bot.Irc.Message.{MessageData}
use ash_bot.SongRequest.Provider.{Provider, enqueue_request}
use ash_bot.SongRequest.Provider.Config.{LexicalCast, set_enabled}
use ash_bot.Commands.{is_blank, split_loop, set_message_core, set_message, text_arg, arg_streq}
use ash_bot.Commands.Arguments.{IsWord}
use ash_bot.Commands.Traits.{
  UserAccessLevel, pleb, regular, subscriber, moderator, broadcaster, dev, songrequest_command,
  traits, access_index, accessible_by,
}
use ash_bot.Commands.Factory.{create_command}
use ash_bot.Commands.Execute.{set_command, try_set_sr, request_song, execute_songrequest, execute}
use ash_bot.ChannelContext.{
  ChannelContext, keyword_of, run_parsed, get_user_access_level, is_user_ignored, checked_command,
  parse_message, process_message_core,
}

-- A message of a user.
abbrev pub said_by : TwitchUser → Bytes → MessageData → MessageData
said_by user text d = record d { user = some user; message = text }

-- A command with one argument.
abbrev pub command_text : Bytes → Bytes → Bytes
command_text keyword argument = b'!' ∷ keyword ++ b' ' ∷ argument

set_message-command_text :
    (keyword argument : Bytes)
    → IsWord keyword
    → IsWord argument
    → set_message (command_text keyword argument) ≡ argument ∷ []
unfolding set_message set_message_core split_loop
set_message-command_text keyword argument k a =
    rw (break_at-append is_blank (b'!' ∷ keyword) b' ' argument (refl, k) refl, set_message)
      (split_loop-word (length argument))
  where
    split_loop-word : (fuel : ℕ) → split_loop fuel argument ≡ argument ∷ []
    split_loop-word zero = refl
    split_loop-word (suc fuel) = rw (break_at-none is_blank argument a, split_loop) refl

songrequest-accessible :
    (level : UserAccessLevel) → accessible_by level (traits songrequest_command) ≡ true
unfolding accessible_by traits access_index
songrequest-accessible pleb = refl
songrequest-accessible regular = refl
songrequest-accessible subscriber = refl
songrequest-accessible moderator = refl
songrequest-accessible broadcaster = refl
songrequest-accessible dev = refl

module _ (env : Env) (same_bucket : ℕ → ℕ → Bool) (cast : LexicalCast) where
  checked_command-songrequest :
      (s : ChannelContext) (user : TwitchUser) (message keyword : Bytes) (level : UserAccessLevel)
      → s.ignore_plebs ≡ false
      → create_command same_bucket s.creators keyword ≡ some songrequest_command
      → checked_command same_bucket s user message keyword level
        ≡ some (set_command songrequest_command user message)
  unfolding checked_command is_user_ignored
  checked_command-songrequest s user message keyword level unignored found =
      rw
        (
          unignored,
          and_false (access_index level == access_index pleb),
          found,
          songrequest-accessible level,
        )
        refl

  -- A keyword of the song request command runs it, for every user.
  parse_message-songrequest :
      (s : ChannelContext) (d : MessageData) (user : TwitchUser) (keyword argument : Bytes)
      (h : List Event)
      → s.ignore_plebs ≡ false
      → IsWord keyword
      → create_command same_bucket s.creators keyword ≡ some songrequest_command
      → parse_message env same_bucket s (said_by user (command_text keyword argument) d) h ≡ (
        defined (some (set_command songrequest_command user (command_text keyword argument))),
        (get_user_access_level env user h).1,
      )
  unfolding parse_message
  parse_message-songrequest s d user keyword argument h unignored word found =
      let (level, h') = get_user_access_level env user h in
      let whole = command_text keyword argument in
      let named : keyword_of (keyword ++ b' ' ∷ argument) ≡ keyword =
        rw (break_at-append is_blank keyword b' ' argument word refl, keyword_of) in
      ap (λ k. (defined (checked_command same_bucket s user whole k level), h')) named
      ∙ ap (λ c. (defined c, h'))
          (checked_command-songrequest s user whole keyword level unignored found)

  process-songrequest :
      (s : ChannelContext) (d : MessageData) (user : TwitchUser) (keyword argument : Bytes)
      (h : List Event)
      → s.ignore_plebs ≡ false
      → IsWord keyword
      → create_command same_bucket s.creators keyword ≡ some songrequest_command
      → process_message_core env same_bucket cast s
          (said_by user (command_text keyword argument) d)
          h
        ≡ execute_songrequest cast env
            (set_command songrequest_command user (command_text keyword argument))
            s.provider
            (get_user_access_level env user h).1
  unfolding process_message_core execute set_command
  process-songrequest s d user keyword argument h unignored word found =
      ap (λ r. run_parsed env cast s r.0 r.1)
        (parse_message-songrequest s d user keyword argument h unignored word found)

  execute_songrequest-link :
      (user : TwitchUser) (link : Bytes) (p : Provider) (h : List Event)
      → str_eq link (codes "on") ≡ false
      → str_eq link (codes "off") ≡ false
      → execute_songrequest cast env
          (record { cls = songrequest_command; user = user; args = link ∷ [] })
          p
          h
        ≡ (defined (enqueue_request user link p), h)
  unfolding execute_songrequest arg_streq request_song text_arg
  execute_songrequest-link user link p h not_on not_off =
      rw (not_on, execute_songrequest, not_off) refl

  -- A user whose message is a keyword of the song request command and a link, which is one word but
  -- not "on" or "off", has exactly one request appended to the queue, with this link and user.
  pub process_message-requests :
      (s : ChannelContext) (d : MessageData) (user : TwitchUser) (keyword link : Bytes)
      (h : List Event)
      → s.ignore_plebs ≡ false
      → IsWord keyword
      → create_command same_bucket s.creators keyword ≡ some songrequest_command
      → IsWord link
      → str_eq link (codes "on") ≡ false
      → str_eq link (codes "off") ≡ false
      → (process_message_core env same_bucket cast s
          (said_by user (command_text keyword link) d)
          h).0
        ≡ defined (enqueue_request user link s.provider)
  unfolding set_command
  process_message-requests s d user keyword link h unignored word found one_word not_on not_off =
      ap (λ r. r.0) (process-songrequest s d user keyword link h unignored word found)
      ∙ (ap
            (λ args.
              (execute_songrequest cast env
                (record { cls = songrequest_command; user = user; args = args }) s.provider
                (get_user_access_level env user h).1).0)
            (set_message-command_text keyword link word one_word)
          ∙ ap (λ r. r.0)
              (execute_songrequest-link user link s.provider (get_user_access_level env user h).1
                not_on not_off))

  -- Song requests are turned on and off by every user, whatever the access level: the check of the
  -- level compares the level that the command requires with the broadcaster's, not the user's.
  pub process_message-sets :
      (s : ChannelContext) (d : MessageData) (user : TwitchUser) (keyword : Bytes) (h : List Event)
      → s.ignore_plebs ≡ false
      → IsWord keyword
      → create_command same_bucket s.creators keyword ≡ some songrequest_command
      → ((process_message_core env same_bucket cast s
            (said_by user (command_text keyword (codes "on")) d)
            h).0
          ≡ defined (record s.provider { enabled = true }))
        × ((process_message_core env same_bucket cast s
              (said_by user (command_text keyword (codes "off")) d)
              h).0
            ≡ defined (record s.provider { enabled = false }))
  unfolding execute_songrequest set_command arg_streq try_set_sr set_enabled accessible_by traits
      access_index str_eq
  process_message-sets s d user keyword h unignored word found = (
    ap (λ r. r.0) (process-songrequest s d user keyword (codes "on") h unignored word found)
        ∙ rw (set_message-command_text keyword (codes "on") word (refl, (refl, tt))) refl,
    ap (λ r. r.0) (process-songrequest s d user keyword (codes "off") h unignored word found)
        ∙ rw (set_message-command_text keyword (codes "off") word (refl, (refl, (refl, tt)))) refl,
  )
