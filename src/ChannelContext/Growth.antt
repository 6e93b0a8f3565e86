-- ===== src/ChannelContext/Growth.antt =====
-- What any message in the channel can do to the queue of song requests.
use ash_bot.Prelude.{
  ℕ, ◌≡◌, refl, ap, ◌∙◌, ◌⊎◌, inl, inr, Bool, ◌&&◌, Option, none, some, List, [], ◌∷◌, ◌++◌, Bytes,
  codes, get_elem?, str_eq, Bool-cases, Option-cases, ◌==◌, ==_iff,
}
use ash_bot.Partial.{defined, Holds}
use ash_bot.World.{Env, Event}
use ash_bot.TwitchUser.{TwitchUser}
use ash_bot.Irc.Message.{MessageData}
use ash_bot.SongRequest.Provider.{Provider, SongRequestItem, enqueue_request, make_item, put_item}
use ash_bot.SongRequest.Provider.Config.{LexicalCast, set_enabled}
use ash_bot.Commands.{set_message, text_arg, arg_streq}
use ash_bot.Commands.Traits.{
  UserAccessLevel, pleb, CommandClass, hello_command, songrequest_command, traits, access_index,
  accessible_by,
}
use ash_bot.Commands.Factory.{CreatorMap, create_command}
use ash_bot.Commands.Execute.{
  Command, set_command, try_set_sr, request_song, execute_songrequest, execute,
}
use ash_bot.ChannelContext.{
  ChannelContext, keyword_of, run_parsed, get_user_access_level, is_user_ignored, checked_command,
  parse_message, process_message_core,
}

-- The command that a message of a channel with these keywords names.
abbrev pub IsCommandText : (ℕ → ℕ → Bool) → CreatorMap → CommandClass → Bytes → Type 0
IsCommandText same_bucket creators cls message =
    (text : Bytes) × (message ≡ b'!' ∷ text)
    × (create_command same_bucket creators (keyword_of text) ≡ some cls)

-- A request is what the message asks for: its user is that of the message, its link the argument.
pub record IsAsked (same_bucket : ℕ → ℕ → Bool) (creators : CreatorMap) (d : MessageData)
    (item : SongRequestItem) : Type 0 where
  pub user : d.user ≡ some item.requested_by
  pub command : IsCommandText same_bucket creators songrequest_command d.message
  pub link : get_elem? (set_message d.message) 0 ≡ some item.link

-- A queue that stays as it is, or gets one more request.
abbrev pub Grows : (SongRequestItem → Type 0) → List SongRequestItem → List SongRequestItem → Type 0
Grows P old new = (new ≡ old) ⊎ ((item : SongRequestItem) × (new ≡ old ++ item ∷ []) × P item)

module _ (env : Env) (cast : LexicalCast) (P : SongRequestItem → Type 0) where
  execute_songrequest-Grows :
      (user : TwitchUser) (args : List Bytes)
      → ((item : SongRequestItem)
          → user ≡ item.requested_by
          → get_elem? args 0 ≡ some item.link
          → P item)
      → (p : Provider) (h : List Event)
      → Holds
          (λ p'. Grows P p.items p'.items)
          (execute_songrequest cast env
            (record { cls = songrequest_command; user = user; args = args })
            p
            h).0
  unfolding execute_songrequest arg_streq try_set_sr set_enabled request_song text_arg
      enqueue_request make_item put_item accessible_by traits access_index
  execute_songrequest-Grows user [] asked p h = elim (Bool-cases p.enabled) [
    | inl e ↦ rw e (inl refl)
    | inr e ↦ rw e (inl refl)
  ]
  execute_songrequest-Grows user (arg ∷ args) asked p h =
      elim (Bool-cases (str_eq arg (codes "on"))) [
        | inl e ↦ rw (e, Holds, execute_songrequest) (inl refl)
        | inr e ↦ elim (Bool-cases (str_eq arg (codes "off"))) [
          | inl e' ↦ rw (e, Holds, execute_songrequest, e') (inl refl)
          | inr e' ↦
              let item = (make_item user arg p).0 in
              rw (e, Holds, execute_songrequest, e') (inr (item, refl, asked item refl refl))
        ]
      ]

  execute-Grows :
      (cls : CommandClass) (user : TwitchUser) (message : Bytes)
      → (cls ≡ songrequest_command
          → (item : SongRequestItem) → user ≡ item.requested_by
          → get_elem? (set_message message) 0 ≡ some item.link
          → P item)
      → (p : Provider) (h : List Event)
      → Holds
          (λ p'. Grows P p.items p'.items)
          (execute cast env (set_command cls user message) p h).0
  unfolding set_command execute
  execute-Grows hello_command user message asked p h = inl refl
  execute-Grows songrequest_command user message asked p h =
      execute_songrequest-Grows user (set_message message) (asked refl) p h

-- What holds of the command that a message is for, if it is for one.
abbrev ForSome : (Command → Type 0) → Option Command → Type 0
ForSome P none = Unit
ForSome P (some command) = P command

module _ (same_bucket : ℕ → ℕ → Bool) (c : ChannelContext) where
  checked_command-ForSome :
      (user : TwitchUser) (message keyword : Bytes) (level : UserAccessLevel)
      → ForSome
          (λ command.
            (cls : CommandClass) × (create_command same_bucket c.creators keyword ≡ some cls)
            × (command ≡ set_command cls user message))
          (checked_command same_bucket c user message keyword level)
  unfolding checked_command is_user_ignored
  checked_command-ForSome user message keyword level =
      elim (Bool-cases (access_index level == access_index pleb && c.ignore_plebs)) [
        | inl e ↦ rw e tt
        | inr e ↦ elim (Option-cases (create_command same_bucket c.creators keyword)) [
          | inl e' ↦ rw (e, e') tt
          | inr (cls, e') ↦ elim (Bool-cases (accessible_by level (traits cls))) [
            | inl e'' ↦ rw (e, e', e'') (cls, refl, refl)
            | inr e'' ↦ rw (e, e', e'') tt
          ]
        ]
      ]

  module _ (env : Env) (cast : LexicalCast) where
    run_parsed-Grows :
        (d : MessageData) (user : TwitchUser) (text : Bytes)
        → d.user ≡ some user
        → d.message ≡ b'!' ∷ text
        → (o : Option Command)
        → ForSome
            (λ command.
              (cls : CommandClass) × (create_command same_bucket c.creators (keyword_of text)
                ≡ some cls)
              × (command ≡ set_command cls user d.message))
            o
        → (h : List Event)
        → Holds
            (λ p. Grows (IsAsked same_bucket c.creators d) c.provider.items p.items)
            (run_parsed env cast c (defined o) h).0
    run_parsed-Grows d user text by is_text none k h = inl refl
    run_parsed-Grows d user text by is_text (some command) (cls, found, e) h = rw e (
        execute-Grows env cast (IsAsked same_bucket c.creators d) cls user d.message
          (λ is_request item of_user of_link. record {
            user = by ∙ ap some of_user;
            command = (text, is_text, found ∙ ap some is_request);
            link = of_link;
          })
          c.provider h)

    process_text-Grows :
        (d : MessageData) (by : Option TwitchUser) (message : Bytes) (h : List Event)
        → let task = record d { user = by; message = message } in
          Holds
            (λ p. Grows (IsAsked same_bucket c.creators task) c.provider.items p.items)
            (process_message_core env same_bucket cast c task h).0
    unfolding process_message_core parse_message
    process_text-Grows d by [] h = inl refl
    process_text-Grows d none (ch ∷ text) h = elim (Bool-cases (ch == b'!')) [
      | inl e ↦ rw (e, Holds, process_message_core, parse_message) tt
      | inr e ↦ rw (e, Holds, process_message_core, parse_message) (inl refl)
    ]
    process_text-Grows d (some user) (ch ∷ text) h = elim (Bool-cases (ch == b'!')) [
      | inl e ↦
          let task = record d { user = some user; message = ch ∷ text } in
          let (level, h') = get_user_access_level env user h in
          rw (e, Holds, process_message_core, parse_message)
            (run_parsed-Grows task user text refl (ap (λ b. b ∷ text) ((==_iff ch b'!').0 e))
              (checked_command same_bucket c user (ch ∷ text) (keyword_of text) level)
              (checked_command-ForSome user (ch ∷ text) (keyword_of text) level) h')
      | inr e ↦ rw (e, Holds, process_message_core, parse_message) (inl refl)
    ]

    -- Whatever a message says and whoever sends it, it leaves the queue as it was, or appends one
    -- request that it asks for.
    pub process_message-Grows :
        (d : MessageData) (h : List Event)
        → Holds
            (λ p. Grows (IsAsked same_bucket c.creators d) c.provider.items p.items)
            (process_message_core env same_bucket cast c d h).0
    process_message-Grows d h = process_text-Grows d d.user d.message h
