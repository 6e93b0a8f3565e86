-- ===== src/Tests/Pipeline.antt =====
-- A line of the chat on its way to the queue of song requests.
use mathlib.Core.List.Perm
use ash_bot.Prelude.{
  ◌≡◌, refl, some, [], ◌∷◌, ◌==◌, Bytes, codes, str_eq, contains, arith, Option, none, List,
  if◌then◌else◌,
}
use ash_bot.Prelude.Int.{pos}
use ash_bot.Prelude.Strtol.{stoll}
use ash_bot.Partial.{defined}
use ash_bot.Outcome.{done}
use ash_bot.TwitchUser.{TwitchUser}
use ash_bot.SongRequest.Provider.{enqueue_request, new_provider}
use ash_bot.SongRequest.Provider.Queue.{Requests, RequestStep, make, put, take_out, request_steps}
use ash_bot.SongRequest.Provider.Queue.Tracked.{IsTracked, request_steps-IsTracked}
use ash_bot.Regex.{Regex, lit, seq, bos, Match, Engine}
use ash_bot.Irc.Client.{pong_reply}
use ash_bot.Chat.Pings.{ev_line_read-ping}
use ash_bot.Irc.Enums.{ReceiveType}
use ash_bot.Irc.Tags.{TagMap, find_tag, set_tag}
use ash_bot.Irc.Tags.Printing.{print_tags, set_tags}
use ash_bot.Irc.Classify.{twitch_message_type}
use ash_bot.Irc.Message.{MessageData, release_data}
use ash_bot.Irc.Message.Relay.{relayed, user_of, read_as}
use ash_bot.ChannelContext.{process_message_core}
use ash_bot.ChannelContext.Requests.{command_text}
use ash_bot.Chat.{Received, ev_line_read}
use ash_bot.Chat.Requests.{ev_line_read-requests}
use ash_bot.Tests.Setting.{answers, open_provider, fresh_data, viewer}
use ash_bot.Tests.Messages.{message_engine, mod-IsKey, user_id-IsKey}
use ash_bot.Tests.Channel.{bot_cast, channel, sr-found}

abbrev id_tags : TagMap
id_tags = set_tags (codes "mod", codes "0") ((codes "user-id", codes "42") ∷ []) []

abbrev pub ann : TwitchUser
ann = user_of (pos 42) (codes "ann") id_tags

abbrev wish_text : Bytes
wish_text = command_text (codes "sr") (codes "abc")

abbrev pub wish_line : Bytes
wish_line =
    b'@'
    ∷ print_tags (codes "mod", codes "0") ((codes "user-id", codes "42") ∷ [])
        (b':' ∷ relayed (codes "ann") (codes "ann@tmi") (codes "c") wish_text)

abbrev pub wish_task : MessageData
wish_task = read_as ann wish_text ReceiveType.channel_message id_tags

abbrev pub nothing : Received
nothing = record { written = []; tasks = [] }

ev_line_read-requests_example :
    (ev_line_read message_engine wish_line fresh_data nothing
      ≡ done (record { written = []; tasks = wish_task ∷ [] }))
    × ((process_message_core (answers 0 []) ◌==◌ bot_cast channel wish_task []).0
        ≡ defined (enqueue_request ann (codes "abc") open_provider))
unfolding find_tag set_tag str_eq stoll twitch_message_type contains
ev_line_read-requests_example =
    ev_line_read-requests message_engine (answers 0 []) ◌==◌ bot_cast channel nothing fresh_data []
      (codes "mod", codes "0") ((codes "user-id", codes "42") ∷ []) (codes "ann") (codes "ann@tmi")
      (codes "c") (codes "sr") (codes "abc") (codes "42") (pos 42) (mod-IsKey, user_id-IsKey)
      (refl, (refl, (refl, tt))) (refl, (refl, (refl, (refl, (refl, (refl, (refl, tt)))))))
      (refl, tt) (omega arith) (omega arith) refl refl refl refl (refl, (refl, tt)) sr-found
      (refl, (refl, (refl, tt))) refl refl

-- An engine that finds a PING.
abbrev match_ping : Regex → Bytes → Option Match
match_ping (seq bos (seq (lit w) r)) s =
    if str_eq w (codes "PING :") then some (record { first = λ n. none }) else none
match_ping _ s = none

abbrev ping_engine : Engine
ping_engine = record {
  regex_match = match_ping;
  regex_search = λ r s. none;
  regex_erase = λ r s. s;
}

ev_line_read-ping_example :
    ev_line_read ping_engine (codes "PING :tmi") (release_data fresh_data) nothing
    ≡ done (record { written = pong_reply ∷ []; tasks = [] })
unfolding twitch_message_type contains str_eq
ev_line_read-ping_example =
    ev_line_read-ping ping_engine (codes "tmi") fresh_data nothing (omega arith) refl

abbrev requests : Requests
requests = record { provider = open_provider; made = []; taken = [] }

requests-IsTracked : IsTracked requests
unfolding new_provider
requests-IsTracked = record { count = 0; counter = refl; each_once = Perm.nil }

abbrev race : List RequestStep
race = make ann (codes "a") ∷ make viewer (codes "b") ∷ put 1 ∷ take_out 0 ∷ put 0 ∷ []

request_steps-IsTracked_example : IsTracked (request_steps race requests)
request_steps-IsTracked_example = request_steps-IsTracked race requests requests-IsTracked
