-- ===== src/Irc/Message/Relay.antt =====
-- A chat message that one client sends, the server relays, and parse_message reads.
use ash_bot.Prelude.{
  ℕ, ◌<◌, ◌≡◌, refl, ap, ◌∙◌, Bool, false, ◌||◌, Option, none, some, List, [], ◌∷◌, ◌++◌, Bytes,
  codes, length, lt→ltb, str_eq, str_eq_iff, starts_with, break_at, break_at-append, break_at-skip,
  Avoids, ◌==◌, Bool-cases, inl, inr, arith,
}
use ash_bot.Prelude.Int.{ℤ, pos}
use ash_bot.Prelude.Strtol.{strtol, stoll}
use ash_bot.Partial.{defined}
use ash_bot.Outcome.{done}
use ash_bot.Regex.{Engine}
use ash_bot.TwitchUser.{TwitchUser, set_user}
use ash_bot.Irc.Enums.{ReceiveType, SendType}
use ash_bot.Irc.Tags.{TagMap, find_tag, set_tag}
use ash_bot.Irc.Tags.Printing.{AllKeys, print_tags, set_tags, parse_tags-print}
use ash_bot.Irc.Classify.{twitch_message_type}
use ash_bot.Irc.Client.Sending.{chat_line}
use ash_bot.Irc.Message.{
  MessageData, is_flag, or_empty, take_name, read_user_id, update_user, after_colon, sender,
  final_code, parse_raw, parse_message,
}

abbrev pub is_blank : ℕ → Bool
is_blank c = c == b' '

-- A byte that ends the name of a sender.
abbrev pub ends_nick : ℕ → Bool
ends_nick c = c == b'!' || c == b' '

-- The line that the server makes of a message to a channel, from the second byte on.
abbrev pub relayed : Bytes → Bytes → Bytes → Bytes → Bytes
relayed nick host channel text =
    nick ++ b'!' ∷ (host ++ b' ' ∷ chat_line SendType.message (b'#' ∷ channel) text)

after_colon-skip : (a s : Bytes) → Avoids is_blank a → after_colon (a ++ s) ≡ after_colon s
unfolding after_colon
after_colon-skip [] s h = refl
after_colon-skip (c ∷ a) s h = rw (h.0) (after_colon-skip a s h.1)

Avoids-blank : (a : Bytes) → Avoids ends_nick a → Avoids is_blank a
Avoids-blank [] h = tt
Avoids-blank (c ∷ a) h = (ground (arith, h.0), Avoids-blank a h.1)

find_tag-other :
    (key other value : Bytes) (tags : TagMap)
    → str_eq other key ≡ false
    → find_tag key (set_tag other value tags) ≡ find_tag key tags
unfolding find_tag set_tag
find_tag-other key other value [] h = rw h refl
find_tag-other key other value ((k, v) ∷ tags) h = elim (Bool-cases (str_eq k other)) [
  | inl e ↦
      (let same : k ≡ other = (str_eq_iff k other).0 e in
        let differs : str_eq k key ≡ false = ap (λ k. str_eq k key) same ∙ h in
        rw (e, find_tag, differs) refl)
  | inr e ↦ elim (Bool-cases (str_eq k key)) [
    | inl e' ↦ rw (e, find_tag, e') refl
    | inr e' ↦ rw (e, find_tag, e', find_tag-other key other value tags h) refl
  ]
]

after_colon-relayed :
    (nick host channel text : Bytes)
    → Avoids ends_nick nick
    → Avoids is_blank host
    → Avoids is_blank channel
    → after_colon (relayed nick host channel text) ≡ some text
unfolding after_colon starts_with
after_colon-relayed nick host channel text n h c =
    after_colon-skip nick _ (Avoids-blank nick n)
    ∙ (after_colon-skip host _ h ∙ after_colon-skip channel (b' ' ∷ b':' ∷ text) c)

sender-relayed :
    (nick rest : Bytes) → Avoids ends_nick nick → sender (nick ++ b'!' ∷ rest) ≡ defined nick
unfolding sender
sender-relayed nick rest n = rw (break_at-append ends_nick nick b'!' rest n refl, sender) refl

find_tag-take_name :
    (display : Option Bytes) (tags : TagMap)
    → find_tag (codes "user-id") (take_name display tags) ≡ find_tag (codes "user-id") tags
find_tag-take_name none tags = refl
find_tag-take_name (some v) tags =
    find_tag-other (codes "user-id") (codes "display-name") [] tags (unfold str_eq in refl)

-- The user that tags and a name describe.
abbrev pub user_of : ℤ → Bytes → TagMap → TwitchUser
user_of id name tags = record {
  id = id;
  username = name;
  display_name = or_empty (find_tag (codes "display-name") tags);
  moderator = is_flag (find_tag (codes "mod") tags);
  subscriber = is_flag (find_tag (codes "sub") tags);
}

-- The tags without the name that is shown, which was moved out of them.
abbrev pub tags_left : TagMap → TagMap
tags_left tags = take_name (find_tag (codes "display-name") tags) tags

update_user_lem :
    (name id_text : Bytes) (id : ℤ) (d : MessageData)
    → length name < 32
    → find_tag (codes "user-id") d.tags ≡ some id_text
    → stoll id_text ≡ some id
    → update_user name d
      ≡ done (record d { user = some (user_of id name d.tags); tags = tags_left d.tags })
unfolding update_user set_user
update_user_lem name id_text id d short found number =
    let has : find_tag (codes "user-id") (tags_left d.tags) ≡ some id_text =
      find_tag-take_name (find_tag (codes "display-name") d.tags) d.tags ∙ found in
    let read : read_user_id (some id_text) ≡ done id = rw (number, read_user_id) refl in
    rw (has, update_user, read, lt→ltb (length name) 32 short) refl

final_code-relayed :
    (nick host channel text : Bytes)
    → Avoids ends_nick nick
    → Avoids is_blank host
    → final_code 0 (relayed nick host channel text) ≡ pos 0
unfolding final_code strtol
final_code-relayed nick host channel text n h = rw (blank, final_code) refl
  where
    blank :
        break_at is_blank (relayed nick host channel text)
        ≡ some (nick ++ b'!' ∷ host, b' ' ∷ chat_line SendType.message (b'#' ∷ channel) text)
    blank = break_at-skip is_blank nick _ (b'!' ∷ host) _ (Avoids-blank nick n) (
        break_at-append is_blank (b'!' ∷ host) b' '
          (chat_line SendType.message (b'#' ∷ channel) text) (refl, h) refl)

-- What parse_message keeps of the line, in the order of the fields.
abbrev pub read_as : TwitchUser → Bytes → ReceiveType → TagMap → MessageData
read_as user text type tags = record {
  user = some user;
  message = text;
  receive_type = type;
  reply_code = pos 0;
  tags = tags_left tags;
}

-- A chat message that send_message formats, relayed by the server behind tags and the name of its
-- sender, is read back: the user with the id, the flags and the names that the tags give, the text and
-- the type, if the tags have a numeric user-id, the name fits in 32 bytes and the text in 2048, and the
-- line is classified without a reply code. Nothing of the data's earlier use is left but its tags.
pub parse_message-relayed :
    (e : Engine) (t : Bytes × Bytes) (ts : List (Bytes × Bytes))
    (nick host channel text id_text : Bytes) (id : ℤ) (type : ReceiveType) (d : MessageData)
    → AllKeys t ts
    → Avoids ends_nick nick
    → Avoids is_blank host
    → Avoids is_blank channel
    → length nick < 32
    → length text < 2048
    → find_tag (codes "user-id") (set_tags t ts d.tags) ≡ some id_text
    → stoll id_text ≡ some id
    → twitch_message_type e (b':' ∷ relayed nick host channel text) ≡ (type, 0)
    → parse_message e (b'@' ∷ print_tags t ts (b':' ∷ relayed nick host channel text)) d
      ≡ done (read_as (user_of id nick (set_tags t ts d.tags)) text type (set_tags t ts d.tags))
unfolding parse_message parse_raw
parse_message-relayed e t ts nick host channel text id_text id type d keys n h c short fits found
      number classified =
    let tags = set_tags t ts d.tags in
    let d1 : MessageData = record d { tags = tags } in
    let raw = relayed nick host channel text in
    rw
      (
        parse_tags-print t ts (b':' ∷ raw) d.tags keys,
        classified,
        sender-relayed nick (host ++ b' ' ∷ chat_line SendType.message (b'#' ∷ channel) text) n,
        update_user_lem nick id_text id d1 short found number,
        after_colon-relayed nick host channel text n h c,
        lt→ltb (length text) 2048 fits,
        final_code-relayed nick host channel text n h,
      )
      refl
