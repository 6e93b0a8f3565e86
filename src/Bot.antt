-- ===== src/Bot.antt =====
-- source/main.cpp and bot.cpp: the start of the bot. Its name, token and channel are constants of
-- a header that is not in the repository.
pub mod Run
use ash_bot.Prelude.{ℕ, Bool, true, Option, none, some, List, [], Bytes, ◌++◌}
use ash_bot.Partial.{Partial, defined, undefined, ◌>>=◌}
use mathlib.Core.Option
use ash_bot.Outcome
use ash_bot.Outcome.{Outcome, done, faulted}
use ash_bot.CcQueue.{CcQueue}
use ash_bot.World.{Env, M, pure, ◌>>=◌ as bind}
use ash_bot.TwitchApi.{SubsObject}
use ash_bot.SubManager.{get_subs}
use ash_bot.Tokens.{init_tokens}
use ash_bot.Tokens.Access.{twitch_client_id, twitch_user}
use ash_bot.Irc.Connection.{Connection, connect}
use ash_bot.Irc.Client.{Sent, login, join}

module _ (queue : CcQueue ℕ) (nickname token channel : Bytes) where
  -- run behind connect, whose result it does not look at
  pub log_in : Connection → Sent
  log_in s = do
    (first, s1) ← login queue nickname token s
    (rest, s2) ← join queue channel s1
    defined (first ++ rest, s2)

  -- run: `none` where connect does not return
  pub run : ℕ → Option ℕ → (ℕ → Bool) → Connection → Option Sent
  unfolding log_in
  run fuel endpoints connects s = elim (connect fuel endpoints connects s) [
    | none ↦ none
    | some (ok, s') ↦ some (log_in s')
  ]

-- main, before the bot is made: the tokens are read from the database, and the names of the
-- subscribers with the tokens of Twitch. Whether the tokens could be read is not looked at.
pub start_up :
    ℕ
    → Env
    → (Bytes → Option SubsObject)
    → List Bytes
    → M (Option (Outcome (List Bytes × List Bytes)))
start_up fuel env parse tokens = bind (init_tokens env tokens) λ loaded. elim loaded [
  | undefined ↦ pure (some faulted)
  | defined (ok, tokens') ↦ elim (twitch_client_id tokens') [
    | undefined ↦ pure (some faulted)
    | defined client_id ↦ elim (twitch_user tokens') [
      | undefined ↦ pure (some faulted)
      | defined user ↦ bind (get_subs env parse client_id user fuel true []) λ loading.
          pure (Option.map (λ result. Outcome.◌>>=◌ result λ subs. done (tokens', subs)) loading)
    ]
  ]
]
