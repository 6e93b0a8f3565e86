-- ===== src/Irc/Message/Stale.antt =====
-- What is left of a message when its data is used again.
use ash_bot.Prelude.{◌≡◌, refl, true, false, [], Bytes}
use ash_bot.Partial.{defined}
use ash_bot.Outcome.{aborted}
use ash_bot.Regex.{Engine}
use ash_bot.Irc.Tags.{find_tag}
use ash_bot.Irc.Message.{
  MessageData, release_data, requires_user_id, update_user, sender, without_colon, starts,
  parse_raw, parse_message,
}

update_user-aborts :
    (name : Bytes) (d : MessageData)
    → d.tags ≡ []
    → requires_user_id d ≡ true
    → update_user name d ≡ aborted
unfolding update_user find_tag
update_user-aborts name d empty needs = rw (empty, update_user, needs) refl

-- After a message whose type asks for the id of its user, the released data ends the process on every
-- line without tags that has a sender's name to read, whatever the type of that line is.
pub parse_message-stale :
    (e : Engine) (line name : Bytes) (d : MessageData)
    → requires_user_id d ≡ true
    → starts b'@' line ≡ false
    → sender (without_colon line) ≡ defined name
    → parse_message e line (release_data d) ≡ aborted
unfolding parse_message parse_raw release_data
parse_message-stale e line name d needs untagged named =
    rw (untagged, named, update_user-aborts name (release_data d) refl needs) refl
