-- ===== src/Irc/Enums.antt =====
-- include/irc/irc_enums.h: the types of messages and the reply codes of RFC 2812.
use ash_bot.Prelude.{ℕ}

pub data ReceiveType : Type 0 where
  info login motd list join kick part invite : ReceiveType
  quit who who_is who_was name topic ban_list nick_change : ReceiveType
  topic_change user_mode user_mode_change channel_mode channel_mode_change channel_message
        channel_action query_message :
      ReceiveType
  query_action query_notice ctcp_reply ctcp_request error error_message ping cap_ack : ReceiveType
  channel_notice hosttarget clearchat userstate reconnect roomstate usernotice unknown : ReceiveType

-- static_cast<int>
unfoldable pub receive_type_index : ReceiveType → ℕ
receive_type_index info = 0
receive_type_index login = 1
receive_type_index motd = 2
receive_type_index list = 3
receive_type_index join = 4
receive_type_index kick = 5
receive_type_index part = 6
receive_type_index invite = 7
receive_type_index quit = 8
receive_type_index who = 9
receive_type_index who_is = 10
receive_type_index who_was = 11
receive_type_index name = 12
receive_type_index topic = 13
receive_type_index ban_list = 14
receive_type_index nick_change = 15
receive_type_index topic_change = 16
receive_type_index user_mode = 17
receive_type_index user_mode_change = 18
receive_type_index channel_mode = 19
receive_type_index channel_mode_change = 20
receive_type_index channel_message = 21
receive_type_index channel_action = 22
receive_type_index query_message = 23
receive_type_index query_action = 24
receive_type_index query_notice = 25
receive_type_index ctcp_reply = 26
receive_type_index ctcp_request = 27
receive_type_index error = 28
receive_type_index error_message = 29
receive_type_index ping = 30
receive_type_index cap_ack = 31
receive_type_index channel_notice = 32
receive_type_index hosttarget = 33
receive_type_index clearchat = 34
receive_type_index userstate = 35
receive_type_index reconnect = 36
receive_type_index roomstate = 37
receive_type_index usernotice = 38
receive_type_index unknown = 39

pub data SendType : Type 0 where
  message action notice : SendType
