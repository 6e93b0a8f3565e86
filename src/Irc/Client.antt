-- ===== src/Irc/Client.antt =====
-- source/irc/irc_client.cpp and twitch_irc_client.cpp: what the client sends, and which messages it
-- hands on to which handler.
pub mod Dispatch
pub mod Sending
use ash_bot.Prelude.{
  ℕ, ◌-◌, Bool, true, false, ◌&&◌, Option, none, some, List, [], ◌∷◌, ◌++◌, Bytes, codes, get_elem?,
  leb, if◌then◌else◌,
}
use ash_bot.Prelude.Int.{ℤ, pos}
use ash_bot.Partial.{Partial, defined, undefined, ◌>>=◌}
use ash_bot.CcQueue.{CcQueue}
use ash_bot.Irc.Enums.{ReceiveType, SendType, receive_type_index}
use ash_bot.Irc.Rfc2812
use ash_bot.Irc.Connection.{Connection, get_line_buffer, write_line}

-- The lines that were written, and the state.
abbrev pub Sent : Type 0
Sent = Partial (List Bytes × Connection)

abbrev note_line : Option Bytes → List Bytes
note_line none = []
note_line (some line) = line ∷ []

module _ (queue : CcQueue ℕ) where
  -- A line that is formatted into a buffer of the pool, and written with the length that the
  -- formatter returned.
  unfoldable pub send_line : Bytes × ℕ → Connection → Sent
  send_line (text, size) s = do
    let (block, s0) = get_line_buffer queue s
    (line, s') ← write_line queue block text (some size) s0
    defined (note_line line, s')

  unfoldable pub send_lines : List (Bytes × ℕ) → Connection → Sent
  unfolding send_line
  send_lines [] s = defined ([], s)
  send_lines (l ∷ ls) s = do
    (first, s1) ← send_line l s
    (rest, s2) ← send_lines ls s1
    defined (first ++ rest, s2)

  unfoldable pub login : Bytes → Bytes → Connection → Sent
  unfolding send_lines
  login nickname token =
      send_lines
        (Rfc2812.pass token ∷ Rfc2812.nick nickname ∷ Rfc2812.user nickname (pos 0) nickname ∷ [])

  unfoldable pub join : Bytes → Connection → Sent
  unfolding send_lines
  join channel = send_lines (Rfc2812.join channel ∷ [])

  -- The switch over the type picks the formatter.
  unfoldable pub send_message : SendType → Bytes → Bytes → Connection → Sent
  unfolding send_line
  send_message SendType.message destination text = send_line (Rfc2812.privmsg destination text)
  send_message SendType.action destination text = send_line (Rfc2812.action destination text)
  send_message SendType.notice destination text = send_line (Rfc2812.notice destination text)

-- ev_logged_in: what is written to the socket, through write_hardcoded_line
abbrev pub ev_logged_in : List Bytes
ev_logged_in =
    (codes "CAP REQ :twitch.tv/commands" ++ 13 ∷ 10 ∷ [])
    ∷ (codes "CAP REQ :twitch.tv/tags" ++ 13 ∷ 10 ∷ [])
    ∷ []

-- event_ping
abbrev pub pong_reply : Bytes
pong_reply = codes "PONG :tmi.twitch.tv" ++ 13 ∷ 10 ∷ []

pub data Handler : Type 0 where
  -- of irc_client
  event_ping event_error event_message ignored : Handler
  -- of twitch_irc_client
  event_notice event_hosttarget event_clearchat event_userstate : Handler
  event_reconnect event_roomstate event_usernotice : Handler

-- irc_client::dispatch_message
pub dispatch_message : ReceiveType → Handler
dispatch_message ReceiveType.ping = event_ping
dispatch_message ReceiveType.error = event_error
dispatch_message ReceiveType.channel_message = event_message
dispatch_message ReceiveType.query_message = event_message
dispatch_message _ = ignored

-- the table of twitch_irc_client::dispatch_message
abbrev pub handlers : List Handler
handlers =
    event_notice ∷ event_hosttarget ∷ event_clearchat ∷ event_userstate ∷ event_reconnect
    ∷ event_roomstate ∷ event_usernotice ∷ []

abbrev or_undefined : Option Handler → Partial Handler
or_undefined none = undefined
or_undefined (some h) = defined h

-- twitch_irc_client::dispatch_message; past the table is undefined
pub twitch_dispatch : ReceiveType → Partial Handler
unfolding receive_type_index dispatch_message
twitch_dispatch type =
    let rt = receive_type_index type in
    let start = receive_type_index ReceiveType.channel_notice in
    let end = receive_type_index ReceiveType.usernotice in
    if leb start rt && leb rt end
    then or_undefined (get_elem? handlers (rt - start))
    else defined (dispatch_message type)
