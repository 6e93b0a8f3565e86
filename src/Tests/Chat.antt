-- ===== src/Tests/Chat.antt =====
-- Lines of the chat.
use ash_bot.Prelude.{
  true, ◌≡◌, ◌≢◌, refl, ◌↔◌, Option, none, some, [], ◌∷◌, ◌++◌, Bytes, codes, str_eq,
}
use ash_bot.Partial.{defined}
use ash_bot.Regex.{Regex, lit, seq, bos, Match, Matches, Engine}
use ash_bot.Irc.Enums.{ReceiveType}
use ash_bot.Irc.ReplyCode.{ReplyCode}
use ash_bot.Irc.ReplyCode.Values.{reply_code_value}
use ash_bot.Irc.Tables.{irc_reply_codes, binary_search}
use ash_bot.Irc.Tables.Known.{IsSorted, irc_reply_codes_lem}
use ash_bot.Irc.Tags.{set_tag, parse_tags}
use ash_bot.Irc.Tags.Escaping.{escape}
use ash_bot.Irc.Tags.Printing.{IsKey, print_tags, parse_tags-print}
use ash_bot.Irc.Classify.{action_line, twitch_message_type}
use ash_bot.Irc.Classify.Shadowed.{any_text, twitch_message_type-ne-action}

irc_reply_codes_example :
    IsSorted irc_reply_codes
    × ((binary_search irc_reply_codes 433 ≡ true)
        ↔ ((rc : ReplyCode) × (reply_code_value rc ≡ 433)))
irc_reply_codes_example = irc_reply_codes_lem 433

color-IsKey : IsKey (codes "color")
color-IsKey = record {
  unended = (refl, (refl, (refl, (refl, (refl, tt)))));
  unescaped = (refl, (refl, (refl, (refl, (refl, tt)))));
}

name-IsKey : IsKey (codes "name")
name-IsKey = record {
  unended = (refl, (refl, (refl, (refl, tt))));
  unescaped = (refl, (refl, (refl, (refl, tt))));
}

parse_tags-print_example :
    parse_tags (codes "@color=red;name=ann\\slee :x") []
    ≡ defined ((codes "color", codes "red") ∷ (codes "name", codes "ann lee") ∷ [], codes ":x")
unfolding print_tags escape set_tag str_eq
parse_tags-print_example =
    parse_tags-print (codes "color", codes "red") ((codes "name", codes "ann lee") ∷ [])
      (codes ":x") [] (color-IsKey, name-IsKey)

-- The line of an action, and an engine that finds the patterns that start with a literal in it.
abbrev action : Bytes
action = codes ":ann!a@b PRIVMSG #c :" ++ (1 ∷ codes "ACTION waves" ++ 1 ∷ [])

abbrev match_lit : Regex → Bytes → Option Match
match_lit (seq bos (seq (lit w) r)) s = some (record { first = λ n. some (codes "#c") })
match_lit _ s = none

abbrev chat_engine : Engine
chat_engine = record { regex_match = match_lit; regex_search = λ r s. none; regex_erase = λ r s. s }

action-Matches : Matches action_line action
action-Matches = (
  [],
  _,
  refl,
  refl,
  (
    codes ":",
    _,
    refl,
    refl,
    (
      codes "ann!a@b",
      _,
      refl,
      any_text _,
      (
        codes " PRIVMSG ",
        _,
        refl,
        refl,
        (
          codes "#",
          _,
          refl,
          (b'#', refl),
          (
            codes "c",
            _,
            refl,
            any_text _,
            (
              codes " :" ++ 1 ∷ [],
              _,
              refl,
              refl,
              (
                codes "ACTION ",
                _,
                refl,
                refl,
                (codes "waves", _, refl, any_text _, (1 ∷ [], [], refl, refl, refl)),
              ),
            ),
          ),
        ),
      ),
    ),
  ),
)

twitch_message_type-ne-action_example :
    ((twitch_message_type chat_engine action).0 ≢ ReceiveType.channel_action)
    × ((twitch_message_type chat_engine action).0 ≢ ReceiveType.query_action)
twitch_message_type-ne-action_example =
    twitch_message_type-ne-action chat_engine action
      (record { match_sound = λ m e. action-Matches }) (record { match_complete = λ h e. cc })
