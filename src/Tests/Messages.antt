-- ===== src/Tests/Messages.antt =====
-- Messages that are sent, relayed and read.
use ash_bot.Prelude.{
  ℕ, ◌≡◌, refl, true, Option, none, some, [], ◌∷◌, Bytes, codes, str_eq, break_at, contains, arith,
  if◌then◌else◌,
}
use ash_bot.Prelude.Int.{pos}
use ash_bot.Prelude.Strtol.{stoll}
use ash_bot.Partial.{defined}
use ash_bot.Outcome.{done, aborted}
use ash_bot.CcQueue.{CcQueue, newest_first}
use ash_bot.Regex.{Regex, lit, seq, bos, many, any, group, Match, Engine}
use ash_bot.Irc.Enums.{ReceiveType, SendType}
use ash_bot.Irc.Tags.{find_tag, set_tag}
use ash_bot.Irc.Tags.Printing.{IsKey, print_tags, set_tags}
use ash_bot.Irc.Connection.{Connection, new_connection}
use ash_bot.Irc.Client.{send_message}
use ash_bot.Irc.Client.Sending.{ended, after_line, send_message_lem}
use ash_bot.Irc.Classify.{twitch_message_type}
use ash_bot.Irc.Message.{release_data, sender, parse_message}
use ash_bot.Irc.Message.Relay.{relayed, user_of, read_as, parse_message-relayed}
use ash_bot.Irc.Message.Stale.{parse_message-stale}
use ash_bot.Tests.Setting.{fresh_data}

abbrev lines : CcQueue ℕ
lines = newest_first

abbrev connected : Connection
connected = record (new_connection 0) { connected = true }

send_message_example :
    send_message lines SendType.message (codes "#c") (codes "hi") connected
    ≡ defined (ended (codes "PRIVMSG #c :hi") ∷ [], after_line lines connected)
send_message_example =
    send_message_lem lines SendType.message (codes "#c") (codes "hi") connected refl

-- An engine that finds messages to a channel.
abbrev match_message : Regex → Bytes → Option Match
match_message (seq bos (seq (lit c) (seq (many true any) (seq (lit w) (seq (group i any) r))))) s =
    if str_eq w (codes " PRIVMSG ") then some (record { first = λ n. some (codes "#c") }) else none
match_message _ s = none

abbrev pub message_engine : Engine
message_engine = record {
  regex_match = match_message;
  regex_search = λ r s. none;
  regex_erase = λ r s. s;
}

pub mod-IsKey : IsKey (codes "mod")
mod-IsKey = record { unended = (refl, (refl, (refl, tt))); unescaped = (refl, (refl, (refl, tt))) }

pub user_id-IsKey : IsKey (codes "user-id")
user_id-IsKey = record {
  unended = (refl, (refl, (refl, (refl, (refl, (refl, (refl, tt)))))));
  unescaped = (refl, (refl, (refl, (refl, (refl, (refl, (refl, tt)))))));
}

parse_message-relayed_example :
    parse_message message_engine
      (b'@'
        ∷ print_tags
            (codes "mod", codes "1")
            ((codes "user-id", codes "42") ∷ [])
            (b':' ∷ relayed (codes "ann") (codes "ann@tmi") (codes "c") (codes "!sr on")))
      fresh_data
    ≡ done (
        read_as
          (user_of
            (pos 42)
            (codes "ann")
            (set_tags (codes "mod", codes "1") ((codes "user-id", codes "42") ∷ []) []))
          (codes "!sr on")
          ReceiveType.channel_message
          (set_tags (codes "mod", codes "1") ((codes "user-id", codes "42") ∷ []) []))
unfolding find_tag set_tag str_eq stoll twitch_message_type contains
parse_message-relayed_example =
    parse_message-relayed message_engine (codes "mod", codes "1")
      ((codes "user-id", codes "42") ∷ []) (codes "ann") (codes "ann@tmi") (codes "c")
      (codes "!sr on") (codes "42") (pos 42) ReceiveType.channel_message fresh_data
      (mod-IsKey, user_id-IsKey) (refl, (refl, (refl, tt)))
      (refl, (refl, (refl, (refl, (refl, (refl, (refl, tt))))))) (refl, tt) (omega arith)
      (omega arith) refl refl refl

-- A PING that is read into the data of a message.
parse_message-stale_example :
    parse_message message_engine
      (codes "PING :tmi")
      (release_data (record fresh_data { receive_type = ReceiveType.channel_message }))
    ≡ aborted
unfolding sender break_at
parse_message-stale_example =
    parse_message-stale message_engine (codes "PING :tmi") []
      (record fresh_data { receive_type = ReceiveType.channel_message }) refl refl refl
