-- ===== src/Irc/Client/Dispatch.antt =====
-- Which handler a message goes to.
use ash_bot.Prelude.{◌≡◌, refl}
use ash_bot.Partial.{defined}
use ash_bot.Irc.Enums.{ReceiveType}
use ash_bot.Irc.Client.{
  Handler, event_ping, event_error, event_message, ignored, event_notice, event_hosttarget,
  event_clearchat, event_userstate, event_reconnect, event_roomstate, event_usernotice,
  twitch_dispatch,
}

-- The handler that bears the name of a type.
abbrev pub handler_of : ReceiveType → Handler
handler_of ReceiveType.ping = event_ping
handler_of ReceiveType.error = event_error
handler_of ReceiveType.channel_message = event_message
handler_of ReceiveType.query_message = event_message
handler_of ReceiveType.channel_notice = event_notice
handler_of ReceiveType.hosttarget = event_hosttarget
handler_of ReceiveType.clearchat = event_clearchat
handler_of ReceiveType.userstate = event_userstate
handler_of ReceiveType.reconnect = event_reconnect
handler_of ReceiveType.roomstate = event_roomstate
handler_of ReceiveType.usernotice = event_usernotice
handler_of _ = ignored

-- Every message goes to the handler of its type, through the difference of two enumerators as an
-- index, which never leaves the table.
pub twitch_dispatch_lem : (type : ReceiveType) → twitch_dispatch type ≡ defined (handler_of type)
unfolding twitch_dispatch
twitch_dispatch_lem ReceiveType.ping = refl
twitch_dispatch_lem _ = refl
