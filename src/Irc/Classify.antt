-- ===== src/Irc/Classify.antt =====
-- source/irc/irc_client.cpp and twitch_irc_client.cpp: what type of message a line is. The engine of
-- regular expressions is a parameter.
pub mod Shadowed
use ash_bot.Prelude.{
  ℕ, Bool, true, false, ◌&&◌, ◌||◌, Option, none, some, List, [], ◌∷◌, ◌++◌, Bytes, codes, contains,
  leb, ◌==◌, if◌then◌else◌,
}
use ash_bot.Prelude.Int.{pos_part}
use ash_bot.Prelude.Strtol.{is_digit, strtol}
use ash_bot.Regex.{
  Regex, lit, any, byte_in, seq, many, some_of, times, group, bos, eos, ◌>>>◌, text, Match, Engine,
}
use ash_bot.Irc.Enums.{ReceiveType}
use ash_bot.Irc.Tables.{receive_type_map, irc_reply_codes, binary_search, find_receive_type}

abbrev not_blank : ℕ → Bool
not_blank c = if c == b' ' then false else true

-- `:` and the shortest prefix
abbrev source_prefix : Regex
source_prefix = text ":" >>> many true any

abbrev reply_source : Regex
reply_source = text ":" >>> (some_of true (byte_in not_blank) >>> text " ")

-- namespace regex
abbrev pub reply_code_line : Regex
reply_code_line =
    bos
    >>> reply_source
    >>> group 1 (times 3 (byte_in is_digit))
    >>> text " "
    >>> some_of false any
    >>> eos

abbrev pub cap_ack_line : Regex
cap_ack_line = bos >>> reply_source >>> text "CAP * ACK" >>> many false any >>> eos

abbrev pub ping_line : Regex
ping_line = bos >>> text "PING :" >>> many false any

abbrev pub error_line : Regex
error_line = bos >>> text "ERROR :" >>> many false any

abbrev pub action_line : Regex
action_line =
    bos
    >>> text ":"
    >>> many true any
    >>> text " PRIVMSG "
    >>> group 1 any
    >>> many false any
    >>> lit (codes " :" ++ 1 ∷ [])
    >>> text "ACTION "
    >>> many false any
    >>> lit (1 ∷ [])
    >>> eos

abbrev pub ctcp_request_line : Regex
ctcp_request_line =
    bos
    >>> text ":"
    >>> many true any
    >>> text " PRIVMSG "
    >>> many false any
    >>> lit (codes " :" ++ 1 ∷ [])
    >>> many false any
    >>> lit (1 ∷ [])
    >>> eos

abbrev pub message_line : Regex
message_line =
    bos
    >>> text ":"
    >>> many true any
    >>> text " PRIVMSG "
    >>> group 1 any
    >>> many false any
    >>> text " :"
    >>> many false any
    >>> eos

abbrev pub ctcp_reply_line : Regex
ctcp_reply_line =
    bos
    >>> text ":"
    >>> many true any
    >>> text " NOTICE "
    >>> many false any
    >>> lit (codes " :" ++ 1 ∷ [])
    >>> many false any
    >>> lit (1 ∷ [])
    >>> eos

abbrev pub notice_line : Regex
notice_line =
    bos
    >>> text ":"
    >>> many true any
    >>> text " NOTICE "
    >>> group 1 any
    >>> many false any
    >>> text " :"
    >>> many false any
    >>> eos

abbrev pub join_line : Regex
join_line = bos >>> text ":" >>> many true any >>> text " JOIN " >>> many false any >>> eos

abbrev pub nick_line : Regex
nick_line = bos >>> text ":" >>> many true any >>> text " NICK " >>> many false any >>> eos

abbrev pub part_line : Regex
part_line = bos >>> text ":" >>> many true any >>> text " PART " >>> many false any >>> eos

-- The text at the group of a match.
abbrev at_group : Match → Bytes
at_group m = elim (m.first 1) [ none ↦ [] | some s ↦ s ]

-- *match[1].first: the first byte of a destination, a channel's is one of four
abbrev is_channel : Bytes → Bool
is_channel [] = false
is_channel (c ∷ cs) = c == b'#' || c == b'!' || c == b'&' || c == b'+'

-- The first pattern of a row that matches decides.
abbrev pub first_of_lines : Engine → List (Regex × ReceiveType) → Bytes → ReceiveType
first_of_lines e [] line = ReceiveType.unknown
first_of_lines e ((r, type) ∷ rows) line = elim (e.regex_match r line) [
  | some m ↦ type
  | none ↦ first_of_lines e rows line
]

abbrev pub last_lines : List (Regex × ReceiveType)
last_lines =
    (ping_line, ReceiveType.ping)
    ∷ (error_line, ReceiveType.error)
    ∷ (cap_ack_line, ReceiveType.cap_ack)
    ∷ (ctcp_request_line, ReceiveType.ctcp_request)
    ∷ (ctcp_reply_line, ReceiveType.ctcp_reply)
    ∷ (nick_line, ReceiveType.nick_change)
    ∷ []

abbrev pub by_destination : Match → ReceiveType → ReceiveType → ReceiveType
by_destination m channel query = if is_channel (at_group m) then channel else query

-- A line that starts with a reply code; `rc` keeps its value where the code is not known.
unfoldable pub reply_type : Match → ℕ → ReceiveType × ℕ
reply_type m rc =
    let code = pos_part (strtol 32 (at_group m)).value in
    if binary_search irc_reply_codes code
    then if leb 400 code && leb code 599
      then (ReceiveType.error_message, code)
      else elim (find_receive_type receive_type_map code) [
        | some type ↦ (type, code)
        | none ↦ (ReceiveType.unknown, code)
      ]
    else (ReceiveType.unknown, rc)

-- The lines without a reply code, in the order in which they are tried.
unfoldable pub command_type : Engine → Bytes → ReceiveType
command_type e line = elim (e.regex_match message_line line) [
  | some m ↦ by_destination m ReceiveType.channel_message ReceiveType.query_message
  | none ↦ elim (e.regex_match action_line line) [
    | some m ↦ by_destination m ReceiveType.channel_action ReceiveType.query_action
    | none ↦ elim (e.regex_match join_line line) [
      | some m ↦ ReceiveType.join
      | none ↦ elim (e.regex_match part_line line) [
        | some m ↦ ReceiveType.part
        | none ↦ elim (e.regex_match notice_line line) [
          | some m ↦ by_destination m ReceiveType.channel_notice ReceiveType.query_notice
          | none ↦ first_of_lines e last_lines line
        ]
      ]
    ]
  ]
]

-- irc_client::get_message_type, with the reply code that the caller's variable holds
unfoldable pub get_message_type : Engine → Bytes → ℕ → ReceiveType × ℕ
unfolding reply_type command_type
get_message_type e line rc = elim (e.regex_match reply_code_line line) [
  | some m ↦ reply_type m rc
  | none ↦ (command_type e line, 0)
]

-- twitch_irc_client::get_message_type
unfoldable pub twitch_message_type : Engine → Bytes → ReceiveType × ℕ
unfolding get_message_type
twitch_message_type e line =
    if contains (codes "HOSTTARGET") line
    then (ReceiveType.hosttarget, 0)
    else if contains (codes "CLEARCHAT") line
    then (ReceiveType.clearchat, 0)
    else if contains (codes "USERSTATE") line
    then (ReceiveType.userstate, 0)
    else if contains (codes "RECONNECT") line
    then (ReceiveType.reconnect, 0)
    else if contains (codes "ROOMSTATE") line
    then (ReceiveType.roomstate, 0)
    else if contains (codes "USERNOTICE") line
    then (ReceiveType.usernotice, 0)
    else get_message_type e line 0
