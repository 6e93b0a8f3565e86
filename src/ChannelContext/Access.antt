-- ===== src/ChannelContext/Access.antt =====
-- Who can run the commands that are not for everyone.
use ash_bot.Prelude.{
  ℕ, ◌≡◌, refl, ap, Bool, true, false, ◌&&◌, none, some, List, ◌∷◌, Bytes, str_eq, Bool-cases, inl,
  inr, ◌==◌,
}
use ash_bot.Partial.{defined}
use ash_bot.World.{Env, Event}
use ash_bot.TwitchUser.{TwitchUser}
use ash_bot.SubManager.{is_regular}
use ash_bot.Irc.Message.{MessageData}
use ash_bot.SongRequest.Provider.Config.{LexicalCast}
use ash_bot.Commands.Traits.{
  UserAccessLevel, pleb, CommandClass, hello_command, traits, access_index, accessible_by,
}
use ash_bot.Commands.Factory.{create_command}
use ash_bot.ChannelContext.{
  ChannelContext, dev_username, broadcaster_username, keyword_of, get_user_access_level,
  is_user_ignored, checked_command, run_parsed, parse_message, process_message_core,
}

-- Nobody but the developer has the level that the hello command asks for.
hello-inaccessible :
    (env : Env) (user : TwitchUser) (h : List Event)
    → str_eq user.username dev_username ≡ false
    → accessible_by (get_user_access_level env user h).0 (traits hello_command) ≡ false
unfolding get_user_access_level accessible_by traits access_index
hello-inaccessible env user h other =
    elim (Bool-cases (str_eq user.username broadcaster_username)) [
      | inl e ↦ rw (other, get_user_access_level, e) refl
      | inr n1 ↦ elim (Bool-cases user.moderator) [
        | inl e ↦ rw (other, get_user_access_level, n1, e) refl
        | inr n2 ↦ elim (Bool-cases user.subscriber) [
          | inl e ↦ rw (other, get_user_access_level, n1, n2, e) refl
          | inr n3 ↦ elim (Bool-cases (is_regular env user.username true h).0) [
            | inl e ↦ rw (other, get_user_access_level, n1, n2, n3, e) refl
            | inr n4 ↦ rw (other, get_user_access_level, n1, n2, n3, n4) refl
          ]
        ]
      ]
    ]

module _ (same_bucket : ℕ → ℕ → Bool) where
  checked_command-denied :
      (s : ChannelContext) (user : TwitchUser) (message keyword : Bytes) (level : UserAccessLevel)
      (cls : CommandClass)
      → create_command same_bucket s.creators keyword ≡ some cls
      → accessible_by level (traits cls) ≡ false
      → checked_command same_bucket s user message keyword level ≡ none
  unfolding checked_command is_user_ignored
  checked_command-denied s user message keyword level cls found denied =
      elim (Bool-cases (access_index level == access_index pleb && s.ignore_plebs)) [
        | inl e ↦ rw (e, checked_command) refl
        | inr e ↦ rw (e, checked_command, found, denied) refl
      ]

  -- A message that asks for the hello command, from anyone but the developer, changes nothing and
  -- says nothing: what is left is the look at the access level.
  pub process_message-denied :
      (env : Env) (cast : LexicalCast) (s : ChannelContext) (d : MessageData) (user : TwitchUser)
      (text : Bytes) (h : List Event)
      → create_command same_bucket s.creators (keyword_of text) ≡ some hello_command
      → str_eq user.username dev_username ≡ false
      → process_message_core env same_bucket cast s
          (record d { user = some user; message = b'!' ∷ text })
          h
        ≡ (defined s.provider, (get_user_access_level env user h).1)
  unfolding process_message_core parse_message
  process_message-denied env cast s d user text h found other =
      let (level, h') = get_user_access_level env user h in
      ap (λ c. run_parsed env cast s (defined c) h')
        (checked_command-denied s user (b'!' ∷ text) (keyword_of text) level hello_command found
          (hello-inaccessible env user h other))
