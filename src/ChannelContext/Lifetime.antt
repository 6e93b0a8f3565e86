-- ===== src/ChannelContext/Lifetime.antt =====
-- The constructor of channel_context, bot::bot around it, and the end of both.
pub mod Restart
use ash_bot.Prelude.{ℕ, Bool, true, false, not, [], Bytes, length, ltb, if◌then◌else◌}
use ash_bot.Prelude.Int.{ℤ}
use ash_bot.Outcome.{Outcome, done, threw, faulted}
use ash_bot.World.{Env, M, ◌>>=◌, pure}
use ash_bot.TwitchUser.{username_max_length}
use ash_bot.Irc.Connection.{Connection, new_connection}
use ash_bot.Irc.Connection.Recovery.{stop}
use ash_bot.SongRequest.Provider.{Provider, new_provider}
use ash_bot.SongRequest.Provider.Config.{
  LexicalCast, Loaded, returned, bad_lexical_cast, buffer_overflow, initialize, close,
}
use ash_bot.Commands.Factory.{register_commands}
use ash_bot.ChannelContext.{ChannelContext}

-- A context with its name, whether the timer of a second runs, and whether the thread of the worker
-- was started.
pub record LiveContext : Type 0 where
  pub context : ChannelContext
  pub channel : Bytes
  pub second_timer : Bool
  pub worker : Bool

-- What the constructor has once initialize has come to an end; a bad_lexical_cast leaves it.
unfoldable pub opened_context : Bytes → Loaded × Bool → Outcome LiveContext
opened_context name (returned ok p, worker) = done (record {
  context = record { creators = []; ignore_plebs = false; provider = p };
  channel = name;
  second_timer = true;
  worker = worker;
})
opened_context name (bad_lexical_cast, worker) = threw
opened_context name (buffer_overflow, worker) = faulted

-- the constructor; a name that leaves no room for its terminator is written past `channel_`. The value
-- of maxSongLength_ is whatever it is.
unfoldable pub new_context : Env → LexicalCast → ℤ → Bytes → M (Outcome LiveContext)
unfolding opened_context
new_context env cast max_length name =
    if not (ltb (length name) username_max_length) then pure faulted else do
      initialized ← initialize cast env (new_provider max_length)
      pure (opened_context name initialized)

-- channel_context::stop, which cancels the timer
pub stop_context : LiveContext → LiveContext
stop_context c = record c { second_timer = false }

-- the destructor, which deletes the provider
pub close_context : LiveContext → LiveContext
close_context c = record c { context = record c.context { provider = close c.context.provider } }

-- bot, with its context and client
pub record BotState : Type 0 where
  pub live : LiveContext
  pub client : Connection

abbrev with_commands : (ℕ → ℕ → Bool) → LiveContext → LiveContext
with_commands same_bucket c = record c {
  context = record c.context { creators = register_commands same_bucket };
}

abbrev started : (ℕ → ℕ → Bool) → ℕ → Outcome LiveContext → Outcome BotState
started same_bucket now (done c) =
    done (record { live = with_commands same_bucket c; client = new_connection now })
started same_bucket now Outcome.aborted = Outcome.aborted
started same_bucket now threw = threw
started same_bucket now faulted = faulted

-- bot::bot, at the time `now`
unfoldable pub new_bot : (ℕ → ℕ → Bool) → ℕ → Env → LexicalCast → ℤ → Bytes → M (Outcome BotState)
unfolding new_context
new_bot same_bucket now env cast max_length channel = do
  made ← new_context env cast max_length channel
  pure (started same_bucket now made)

-- bot::stop
pub stop_bot : BotState → BotState
unfolding stop_context
stop_bot b = record { live = stop_context b.live; client = stop b.client }
