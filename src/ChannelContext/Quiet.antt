-- ===== src/ChannelContext/Quiet.antt =====
-- What a message in the channel leaves to the worker: rows in the queue of the database.
use ash_bot.Prelude.{
  ℕ, ◌≡◌, refl, ◌∙◌, Bool, Option, none, some, List, [], ◌∷◌, Bytes, Bool-cases, inl, inr, arith,
  ◌==◌,
}
use ash_bot.Partial.{defined}
use ash_bot.World.{Env, Event}
use ash_bot.TwitchUser.{TwitchUser}
use ash_bot.SubManager.{is_regular}
use ash_bot.Irc.Message.{MessageData}
use ash_bot.SongRequest.Provider.{Provider}
use ash_bot.SongRequest.Provider.Config.{LexicalCast, set_enabled}
use ash_bot.SongRequest.Provider.Request.Rows.{inserted}
use ash_bot.Commands.{arg_streq}
use ash_bot.Commands.Traits.{
  CommandClass, hello_command, songrequest_command, traits, accessible_by, access_index,
}
use ash_bot.Commands.Execute.{Command, try_set_sr, execute_songrequest, execute}
use ash_bot.ChannelContext.{
  ChannelContext, keyword_of, run_parsed, get_user_access_level, checked_command, parse_message,
  process_message_core,
}

module _ (env : Env) where
  get_user_access_level-inserted :
      (user : TwitchUser) (h : List Event)
      → inserted (get_user_access_level env user h).1 ≡ inserted h
  unfolding get_user_access_level is_regular
  get_user_access_level-inserted user h = ground arith

  module _ (cast : LexicalCast) where
    execute-inserted :
        (cls : CommandClass) (user : TwitchUser) (args : List Bytes) (p : Provider) (h : List Event)
        → inserted (execute cast env (record { cls = cls; user = user; args = args }) p h).1
          ≡ inserted h
    unfolding execute execute_songrequest try_set_sr set_enabled arg_streq accessible_by traits
        access_index
    execute-inserted hello_command user args p h = refl
    execute-inserted songrequest_command user [] p h = ground arith
    execute-inserted songrequest_command user (arg ∷ args) p h = ground arith

    run_parsed-inserted :
        (c : ChannelContext) (o : Option Command) (h : List Event)
        → inserted (run_parsed env cast c (defined o) h).1 ≡ inserted h
    run_parsed-inserted c none h = refl
    run_parsed-inserted c (some command) h =
        execute-inserted command.cls command.user command.args c.provider h

    module _ (same_bucket : ℕ → ℕ → Bool) (c : ChannelContext) where
      process_text-inserted :
          (d : MessageData) (by : Option TwitchUser) (message : Bytes) (h : List Event)
          → inserted
              (process_message_core env same_bucket cast c
                (record d { user = by; message = message })
                h).1
            ≡ inserted h
      unfolding process_message_core parse_message
      process_text-inserted d by [] h = refl
      process_text-inserted d none (ch ∷ text) h = ground arith
      process_text-inserted d (some user) (ch ∷ text) h = elim (Bool-cases (ch == b'!')) [
        | inr e ↦ rw (e, process_message_core, parse_message) refl
        | inl e ↦
            let (level, h') = get_user_access_level env user h in
            rw (e, process_message_core, parse_message)
              (run_parsed-inserted c
                  (checked_command same_bucket c user (ch ∷ text) (keyword_of text) level) h'
                ∙ get_user_access_level-inserted user h)
      ]

      -- A message in the channel inserts no row.
      pub process_message-inserted :
          (d : MessageData) (h : List Event)
          → inserted (process_message_core env same_bucket cast c d h).1 ≡ inserted h
      process_message-inserted d h = process_text-inserted d d.user d.message h
