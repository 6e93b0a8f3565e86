-- ===== src/Tokens/Access.antt =====
-- The functions of include/tokens.h, each of which gives out one token.
use ash_bot.Prelude.{List, Bytes}
use ash_bot.Partial.{Partial}
use ash_bot.Tokens.{TokenType, get_token}

abbrev pub youtube : List Bytes → Partial Bytes
youtube tokens = get_token tokens TokenType.youtube

abbrev pub twitch_secret : List Bytes → Partial Bytes
twitch_secret tokens = get_token tokens TokenType.twitch_secret

abbrev pub twitch_client_id : List Bytes → Partial Bytes
twitch_client_id tokens = get_token tokens TokenType.twitch_client_id

abbrev pub soundcloud : List Bytes → Partial Bytes
soundcloud tokens = get_token tokens TokenType.soundcloud_id

abbrev pub twitch_chat : List Bytes → Partial Bytes
twitch_chat tokens = get_token tokens TokenType.twitch_chat

abbrev pub twitch_user : List Bytes → Partial Bytes
twitch_user tokens = get_token tokens TokenType.twitch_user

abbrev pub vimeo : List Bytes → Partial Bytes
vimeo tokens = get_token tokens TokenType.vimeo

abbrev pub snapchat_name : List Bytes → Partial Bytes
snapchat_name tokens = get_token tokens TokenType.snapchat_name
