-- ===== src/Chat/Pings.antt =====
-- A PING of the server, from its line to the answer.
use ash_bot.Prelude.{
  ◌<◌, ◌≡◌, refl, false, some, [], ◌∷◌, ◌++◌, Bytes, codes, length, lt→ltb, Bool-cases, inl, inr,
  break_at, starts_with, if◌then◌else◌,
}
use ash_bot.Prelude.Int.{pos}
use ash_bot.Partial.{defined}
use ash_bot.Outcome.{done, aborted}
use ash_bot.Regex.{Engine}
use ash_bot.TwitchUser.{TwitchUser, set_user}
use ash_bot.Irc.Enums.{ReceiveType}
use ash_bot.Irc.Tags.{find_tag}
use ash_bot.Irc.Classify.{twitch_message_type}
use ash_bot.Irc.Client.{pong_reply}
use ash_bot.Irc.Client.Dispatch.{twitch_dispatch_lem}
use ash_bot.Irc.Message.{
  MessageData, release_data, requires_user_id, update_user, sender, after_colon, final_code,
  parse_raw, parse_message,
}
use ash_bot.Irc.Message.Stale.{parse_message-stale}
use ash_bot.Chat.{Received, handle, ev_line_read}

-- The line of a PING.
abbrev pub ping_line : Bytes → Bytes
ping_line server = codes "PING :" ++ server

sender-ping : (server : Bytes) → sender (ping_line server) ≡ defined []
unfolding sender break_at
sender-ping server = refl

after_colon-ping : (server : Bytes) → after_colon (ping_line server) ≡ some server
unfolding after_colon starts_with
after_colon-ping server = refl

-- The sender of a line that has none.
nobody : TwitchUser
nobody = record {
  id = pos 0;
  username = [];
  display_name = [];
  moderator = false;
  subscriber = false;
}

update_user-nobody :
    (d : MessageData)
    → requires_user_id d ≡ false
    → update_user [] (release_data d) ≡ done (record (release_data d) { user = some nobody })
unfolding update_user find_tag set_user release_data nobody
update_user-nobody d clean = rw (clean, update_user) refl

parse_message-ping :
    (e : Engine) (server : Bytes) (d : MessageData)
    → length server < 2048
    → twitch_message_type e (ping_line server) ≡ (ReceiveType.ping, 0)
    → requires_user_id d ≡ false
    → parse_message e (ping_line server) (release_data d)
      ≡ done (record {
        user = some nobody;
        message = server;
        receive_type = ReceiveType.ping;
        reply_code = final_code 0 (ping_line server);
        tags = [];
      })
unfolding parse_message parse_raw release_data
parse_message-ping e server d fits classified clean =
    rw
      (
        classified,
        sender-ping server,
        update_user-nobody d clean,
        after_colon-ping server,
        lt→ltb (length server) 2048 fits,
      )
      refl

-- A line PING : with the name of a server behind it and no tags, where the name is shorter than 2048
-- bytes and the line is classified as a PING, is answered by exactly one PONG, if the data that it is
-- read into did not hold a message that asks for the id of its user before; if it did, the process
-- ends.
pub ev_line_read-ping :
    (e : Engine) (server : Bytes) (d : MessageData) (s : Received)
    → length server < 2048
    → twitch_message_type e (ping_line server) ≡ (ReceiveType.ping, 0)
    → ev_line_read e (ping_line server) (release_data d) s ≡ (
        if requires_user_id d
        then aborted
        else done (record s { written = s.written ++ pong_reply ∷ [] }))
unfolding ev_line_read handle
ev_line_read-ping e server d s fits classified = elim (Bool-cases (requires_user_id d)) [
  | inl stale ↦
      rw (stale, parse_message-stale e (ping_line server) [] d stale refl (sender-ping server)) refl
  | inr clean ↦
      rw
        (
          clean,
          parse_message-ping e server d fits classified clean,
          twitch_dispatch_lem ReceiveType.ping,
        )
        refl
]
