-- ===== src/Chat/Requests.antt =====
-- A song request, from the line of the chat to the queue.
use ash_bot.Prelude.{
  ◌<◌, ◌≡◌, refl, Bool, false, ℕ, some, List, [], ◌∷◌, ◌++◌, Bytes, codes, length, str_eq, Avoids,
}
use ash_bot.Prelude.Int.{ℤ}
use ash_bot.Prelude.Strtol.{stoll}
use ash_bot.Partial.{defined}
use ash_bot.Outcome.{done}
use ash_bot.Regex.{Engine}
use ash_bot.World.{Env, Event}
use ash_bot.Irc.Enums.{ReceiveType}
use ash_bot.Irc.Tags.{find_tag}
use ash_bot.Irc.Tags.Printing.{AllKeys, print_tags, set_tags}
use ash_bot.Irc.Classify.{twitch_message_type}
use ash_bot.Irc.Message.{MessageData, parse_message}
use ash_bot.Irc.Message.Relay.{
  is_blank, ends_nick, relayed, user_of, read_as, parse_message-relayed,
}
use ash_bot.Irc.Client.Dispatch.{twitch_dispatch_lem}
use ash_bot.Commands.Arguments.{IsWord}
use ash_bot.Commands.Traits.{songrequest_command}
use ash_bot.Commands.Factory.{create_command}
use ash_bot.SongRequest.Provider.{enqueue_request}
use ash_bot.SongRequest.Provider.Config.{LexicalCast}
use ash_bot.ChannelContext.{ChannelContext, process_message, process_message_core}
use ash_bot.ChannelContext.Requests.{command_text, process_message-requests}
use ash_bot.Chat.{Received, handle, ev_line_read}

-- A chat message that was classified as one of a channel is handed to the pool, as it was read.
ev_line_read-message :
    (e : Engine) (line : Bytes) (d read : MessageData) (s : Received)
    → parse_message e line d ≡ done read
    → read.receive_type ≡ ReceiveType.channel_message
    → ev_line_read e line d s ≡ done (record s { tasks = s.tasks ++ read ∷ [] })
unfolding ev_line_read handle process_message
ev_line_read-message e line d read s parsed message =
    rw (parsed, message, twitch_dispatch_lem ReceiveType.channel_message) refl

-- A message of one keyword of the song request command and one link, in a line with tags as the
-- server relays it, is handed to the pool as one task, and this task appends one request to the
-- queue: the link, for the user that the tags and the line name.
pub ev_line_read-requests :
    (e : Engine) (env : Env) (same_bucket : ℕ → ℕ → Bool) (cast : LexicalCast) (c : ChannelContext)
    (s : Received) (d : MessageData) (h : List Event) (t : Bytes × Bytes)
    (ts : List (Bytes × Bytes)) (nick host channel keyword link id_text : Bytes) (id : ℤ)
    → AllKeys t ts
    → Avoids ends_nick nick
    → Avoids is_blank host
    → Avoids is_blank channel
    → length nick < 32
    → length (command_text keyword link) < 2048
    → find_tag (codes "user-id") (set_tags t ts d.tags) ≡ some id_text
    → stoll id_text ≡ some id
    → twitch_message_type e (b':' ∷ relayed nick host channel (command_text keyword link))
      ≡ (ReceiveType.channel_message, 0)
    → c.ignore_plebs ≡ false
    → IsWord keyword
    → create_command same_bucket c.creators keyword ≡ some songrequest_command
    → IsWord link
    → str_eq link (codes "on") ≡ false
    → str_eq link (codes "off") ≡ false
    → let tags = set_tags t ts d.tags in
      let user = user_of id nick tags in
      let line =
        b'@' ∷ print_tags t ts (b':' ∷ relayed nick host channel (command_text keyword link)) in
      let task = read_as user (command_text keyword link) ReceiveType.channel_message tags in
      (ev_line_read e line d s ≡ done (record s { tasks = s.tasks ++ task ∷ [] }))
      × ((process_message_core env same_bucket cast c task h).0
          ≡ defined (enqueue_request user link c.provider))
ev_line_read-requests e env same_bucket cast c s d h t ts nick host channel keyword link id_text id
      keys n ho ch short fits found number classified unignored word known one_word not_on not_off =
    let text = command_text keyword link in
    let tags = set_tags t ts d.tags in
    let user = user_of id nick tags in
    let task = read_as user text ReceiveType.channel_message tags in
    let line = b'@' ∷ print_tags t ts (b':' ∷ relayed nick host channel text) in
    (
      ev_line_read-message e line d task s
          (parse_message-relayed e t ts nick host channel text id_text id
            ReceiveType.channel_message d keys n ho ch short fits found number classified)
          refl,
      process_message-requests env same_bucket cast c task user keyword link h unignored word known
          one_word not_on not_off,
    )
