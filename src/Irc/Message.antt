-- ===== src/Irc/Message.antt =====
-- include/irc/irc_message_data.h and irc_client::parse_message: what is kept of a line.
pub mod Relay
pub mod Stale
use ash_bot.Prelude.{
  ℕ, zero, suc, Bool, true, false, not, ◌||◌, ◌&&◌, Option, none, some, List, [], ◌∷◌, ◌++◌, Bytes,
  codes, length, drop, ltb, str_eq, starts_with, break_at, ◌==◌, if◌then◌else◌,
}
use ash_bot.Prelude.Int.{ℤ, pos}
use ash_bot.Prelude.Strtol.{strtol, stoll}
use ash_bot.Partial.{Partial, defined, undefined}
use ash_bot.Outcome.{Outcome, done, aborted, threw, faulted, ◌>>=◌, of_partial}
use ash_bot.Regex.{Engine}
use ash_bot.Db.Results.{string_buffer_size}
use ash_bot.TwitchUser.{TwitchUser, set_user}
use ash_bot.Irc.Enums.{ReceiveType}
use ash_bot.Irc.Tags.{TagMap, find_tag, set_tag, parse_tags}
use ash_bot.Irc.Classify.{twitch_message_type}

-- irc_message_data; `message` is the text in its buffer of 2048 bytes
pub record MessageData : Type 0 where
  pub user : Option TwitchUser
  pub message : Bytes
  pub receive_type : ReceiveType
  pub reply_code : ℤ
  pub tags : TagMap

-- release_impl of the last reference; the object, which the cache gives out again, keeps the rest
unfoldable pub release_data : MessageData → MessageData
release_data d = record d { user = none; tags = [] }

abbrev pub requires_user_id : MessageData → Bool
requires_user_id d = elim d.receive_type [
  | ReceiveType.channel_message ↦ true
  | ReceiveType.channel_action ↦ true
  | _ ↦ false
]

-- it != tags_.end() && it->second == "1"
abbrev pub is_flag : Option Bytes → Bool
is_flag none = false
is_flag (some v) = str_eq v (codes "1")

abbrev pub or_empty : Option Bytes → Bytes
or_empty none = []
or_empty (some v) = v

-- displayName.swap(it->second)
abbrev pub take_name : Option Bytes → TagMap → TagMap
take_name none tags = tags
take_name (some v) tags = set_tag (codes "display-name") [] tags

-- std::stoll of the tag, 0 where there is none
abbrev pub read_user_id : Option Bytes → Outcome ℤ
read_user_id none = done (pos 0)
read_user_id (some v) = elim (stoll v) [ none ↦ threw | some id ↦ done id ]

abbrev pub lacks_id : MessageData → Option Bytes → Bool
lacks_id d (some v) = false
lacks_id d none = requires_user_id d

-- update_user
unfoldable pub update_user : Bytes → MessageData → Outcome MessageData
update_user name d =
    let display = find_tag (codes "display-name") d.tags in
    let tags = take_name display d.tags in
    let user_id = find_tag (codes "user-id") tags in
    if lacks_id d user_id then aborted else do
      id ← read_user_id user_id
      user ← of_partial (
          set_user id name (or_empty display) (is_flag (find_tag (codes "mod") d.tags))
            (is_flag (find_tag (codes "sub") d.tags)))
      done (record d { user = some user; tags = tags })

-- strstr(s, " :") + 2
unfoldable pub after_colon : Bytes → Option Bytes
after_colon [] = none
after_colon (c ∷ s) =
    if c == b' ' && starts_with (b':' ∷ []) s then some (drop 1 s) else after_colon s

abbrev pub starts : ℕ → Bytes → Bool
starts b [] = false
starts b (c ∷ s) = c == b

abbrev pub without_colon : Bytes → Bytes
without_colon [] = []
without_colon (c ∷ s) = if c == b':' then s else c ∷ s

-- The name of the sender: up to the first `!`, or up to the first `@` if a blank is before any `!`,
-- or nothing if a blank is before both. Without `!` and blank a null pointer is read.
unfoldable pub sender : Bytes → Partial Bytes
sender raw = elim (break_at (λ c. c == b'!' || c == b' ') raw) [
  | none ↦ undefined
  | some (before, here) ↦
      if starts b' ' here
      then elim (break_at (λ c. c == b'@' || c == b' ') raw) [
        | none ↦ undefined
        | some (nick, there) ↦ defined (if starts b'@' there then nick else [])
      ]
      else defined before
]

-- The reply code of a line, which is looked for a second time where the type gave none.
unfoldable pub final_code : ℕ → Bytes → ℤ
final_code (suc rc) raw = pos (suc rc)
final_code zero raw = elim (break_at (λ c. c == b' ') raw) [
  | none ↦ pos 0
  | some (before, here) ↦
      (let code = strtol 32 (drop 1 here) in if code.converted then code.value else pos 0)
]

-- strcpy(message_, pMessage)
abbrev pub copy_message : Option Bytes → MessageData → Outcome MessageData
copy_message none d = done d
copy_message (some text) d =
    if ltb (length text) string_buffer_size then done (record d { message = text }) else faulted

module _ (e : Engine) where
  -- parse_message behind the tags
  unfoldable pub parse_raw : Bytes → MessageData → Outcome MessageData
  unfolding update_user after_colon sender final_code
  parse_raw line d = do
    let (type, code) = twitch_message_type e line
    let raw = without_colon line
    name ← of_partial (sender raw)
    d1 ← update_user name d
    d2 ← copy_message (after_colon raw) d1
    done (record d2 { reply_code = final_code code raw; receive_type = type })

  -- parse_message
  unfoldable pub parse_message : Bytes → MessageData → Outcome MessageData
  unfolding parse_raw
  parse_message line d =
      if starts b'@' line
      then (do
        (tags, raw) ← of_partial (parse_tags line d.tags)
        parse_raw raw (record d { tags = tags }))
      else parse_raw line d
