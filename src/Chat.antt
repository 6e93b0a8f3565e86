-- ===== src/Chat.antt =====
-- irc_client::ev_line_read and its handlers: from a line that was read to what is done with it.
pub mod Requests
pub mod Pings
pub mod Tasks
use ash_bot.Prelude.{List, [], ◌∷◌, ◌++◌, some, Bytes}
use ash_bot.Outcome.{Outcome, done, ◌>>=◌, of_partial}
use ash_bot.Regex.{Engine}
use ash_bot.Irc.Message.{MessageData, parse_message}
use ash_bot.Irc.Client.{
  Handler, event_ping, event_error, ignored, event_message, pong_reply, twitch_dispatch,
}
use ash_bot.ChannelContext.{process_message}

-- What write_hardcoded_line was given, and the messages that wait for a thread of the pool.
pub record Received : Type 0 where
  pub written : List Bytes
  pub tasks : List MessageData

-- event_notice, event_hosttarget, event_clearchat, event_userstate, event_reconnect, event_roomstate
-- and event_usernotice of twitch_irc_client, which are empty
abbrev pub empty_event : MessageData → Received → Received
empty_event d s = s

-- the handlers; event_error only writes to the log
unfoldable pub handle : Handler → MessageData → Received → Received
unfolding process_message
handle event_ping d s = record s { written = s.written ++ pong_reply ∷ [] }
handle event_message d s = record s { tasks = process_message (some d) s.tasks }
handle event_error d s = s
handle ignored d s = s
handle _ d s = empty_event d s

-- ev_line_read, with the object `d` that irc_message_data::create gives out
unfoldable pub ev_line_read : Engine → Bytes → MessageData → Received → Outcome Received
unfolding handle
ev_line_read e line d s = do
  data_ ← parse_message e line d
  handler ← of_partial (twitch_dispatch data_.receive_type)
  done (handle handler data_ s)
