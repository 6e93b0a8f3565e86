-- ===== src/Irc/Tables/Known.antt =====
-- The table of known reply codes and the enumeration agree.
use ash_bot.Prelude.{
  ℕ, ◌<◌, ◌≡◌, refl, true, List, [], ◌∷◌, ◌==◌, ==_iff, Bool-cases, inl, inr, arith, map, ◌↔◌,
}
use ash_bot.Irc.ReplyCode.{ReplyCode}
use ash_bot.Irc.ReplyCode.Values.{reply_code_value}
use ash_bot.Irc.Tables.{irc_reply_codes, binary_search}

-- Each item is below the next: what std::binary_search asks of its range.
abbrev pub IsSorted : List ℕ → Type 0
IsSorted [] = Unit {0}
IsSorted (x ∷ []) = Unit {0}
IsSorted (x ∷ y ∷ ys) = (x < y) × IsSorted (y ∷ ys)

irc_reply_codes-IsSorted : IsSorted irc_reply_codes
unfolding irc_reply_codes
irc_reply_codes-IsSorted = omega arith

reply_code_value-known :
    (rc : ReplyCode) → binary_search irc_reply_codes (reply_code_value rc) ≡ true
unfolding irc_reply_codes binary_search reply_code_value
reply_code_value-known ReplyCode.null = refl
reply_code_value-known _ = refl

all_reply_codes : List ReplyCode
all_reply_codes =
    ReplyCode.null ∷ ReplyCode.welcome ∷ ReplyCode.your_host ∷ ReplyCode.created ∷ ReplyCode.my_info
    ∷ ReplyCode.bounce ∷ ReplyCode.trace_link ∷ ReplyCode.trace_connecting
    ∷ ReplyCode.trace_handshake ∷ ReplyCode.trace_unknown ∷ ReplyCode.trace_operator
    ∷ ReplyCode.trace_user ∷ ReplyCode.trace_server ∷ ReplyCode.trace_service
    ∷ ReplyCode.trace_new_type ∷ ReplyCode.trace_class ∷ ReplyCode.trace_reconnect
    ∷ ReplyCode.stats_link_info ∷ ReplyCode.stats_commands ∷ ReplyCode.end_of_stats
    ∷ ReplyCode.user_mode_is ∷ ReplyCode.service_list ∷ ReplyCode.service_list_end
    ∷ ReplyCode.stats_uptime ∷ ReplyCode.stats_o_line ∷ ReplyCode.luser_client ∷ ReplyCode.luser_op
    ∷ ReplyCode.luser_unknown ∷ ReplyCode.luser_channels ∷ ReplyCode.luser_me ∷ ReplyCode.admin_me
    ∷ ReplyCode.admin_location1 ∷ ReplyCode.admin_location2 ∷ ReplyCode.admin_email
    ∷ ReplyCode.trace_log ∷ ReplyCode.trace_end ∷ ReplyCode.try_again ∷ ReplyCode.away
    ∷ ReplyCode.user_host ∷ ReplyCode.is_on ∷ ReplyCode.un_away ∷ ReplyCode.now_away
    ∷ ReplyCode.who_is_user ∷ ReplyCode.who_is_server ∷ ReplyCode.who_is_operator
    ∷ ReplyCode.who_was_user ∷ ReplyCode.end_of_who ∷ ReplyCode.who_is_idle
    ∷ ReplyCode.end_of_who_is ∷ ReplyCode.who_is_channels ∷ ReplyCode.list_start ∷ ReplyCode.list
    ∷ ReplyCode.list_end ∷ ReplyCode.channel_mode_is ∷ ReplyCode.unique_op_is ∷ ReplyCode.no_topic
    ∷ ReplyCode.topic ∷ ReplyCode.inviting ∷ ReplyCode.summoning ∷ ReplyCode.invite_list
    ∷ ReplyCode.end_of_invite_list ∷ ReplyCode.exception_list ∷ ReplyCode.end_of_exception_list
    ∷ ReplyCode.version ∷ ReplyCode.who_reply ∷ ReplyCode.names_reply ∷ ReplyCode.links
    ∷ ReplyCode.end_of_links ∷ ReplyCode.end_of_names ∷ ReplyCode.ban_list
    ∷ ReplyCode.end_of_ban_list ∷ ReplyCode.end_of_who_was ∷ ReplyCode.info ∷ ReplyCode.motd
    ∷ ReplyCode.end_of_info ∷ ReplyCode.motd_start ∷ ReplyCode.end_of_motd ∷ ReplyCode.you_are_oper
    ∷ ReplyCode.rehashing ∷ ReplyCode.you_are_service ∷ ReplyCode.time ∷ ReplyCode.users_start
    ∷ ReplyCode.users ∷ ReplyCode.end_of_users ∷ ReplyCode.no_users
    ∷ ReplyCode.error_no_such_nickname ∷ ReplyCode.error_no_such_server
    ∷ ReplyCode.error_no_such_channel ∷ ReplyCode.error_cannot_send_to_channel
    ∷ ReplyCode.error_too_many_channels ∷ ReplyCode.error_was_no_such_nickname
    ∷ ReplyCode.error_too_many_targets ∷ ReplyCode.error_no_such_service ∷ ReplyCode.error_no_origin
    ∷ ReplyCode.error_no_recipient ∷ ReplyCode.error_no_text_to_send ∷ ReplyCode.error_no_top_level
    ∷ ReplyCode.error_wild_top_level ∷ ReplyCode.error_bad_mask ∷ ReplyCode.error_unknown_command
    ∷ ReplyCode.error_no_motd ∷ ReplyCode.error_no_admin_info ∷ ReplyCode.error_file_error
    ∷ ReplyCode.error_no_nickname_given ∷ ReplyCode.error_erroneus_nickname
    ∷ ReplyCode.error_nickname_in_use ∷ ReplyCode.error_nickname_collision
    ∷ ReplyCode.error_unavailable_resource ∷ ReplyCode.error_user_not_in_channel
    ∷ ReplyCode.error_not_on_channel ∷ ReplyCode.error_user_on_channel ∷ ReplyCode.error_no_login
    ∷ ReplyCode.error_summon_disabled ∷ ReplyCode.error_users_disabled
    ∷ ReplyCode.error_not_registered ∷ ReplyCode.error_need_more_params
    ∷ ReplyCode.error_already_registered ∷ ReplyCode.error_no_permission_for_host
    ∷ ReplyCode.error_password_mismatch ∷ ReplyCode.error_you_are_banned_creep
    ∷ ReplyCode.error_you_will_be_banned ∷ ReplyCode.error_key_set ∷ ReplyCode.error_channel_is_full
    ∷ ReplyCode.error_unknown_mode ∷ ReplyCode.error_invite_only_channel
    ∷ ReplyCode.error_banned_from_channel ∷ ReplyCode.error_bad_channel_key
    ∷ ReplyCode.error_bad_channel_mask ∷ ReplyCode.error_no_channel_modes
    ∷ ReplyCode.error_ban_list_full ∷ ReplyCode.error_no_privileges
    ∷ ReplyCode.error_channel_op_privileges_needed ∷ ReplyCode.error_cannot_kill_server
    ∷ ReplyCode.error_restricted ∷ ReplyCode.error_unique_op_privileges_needed
    ∷ ReplyCode.error_no_oper_host ∷ ReplyCode.error_user_mode_unknown_flag
    ∷ ReplyCode.error_users_do_not_match ∷ []

values-all : map reply_code_value all_reply_codes ≡ irc_reply_codes
unfolding all_reply_codes reply_code_value irc_reply_codes
values-all = refl

found_value :
    (rcs : List ReplyCode) (code : ℕ)
    → binary_search (map reply_code_value rcs) code ≡ true
    → (rc : ReplyCode) × (reply_code_value rc ≡ code)
unfolding binary_search
found_value [] code h = cc
found_value (rc ∷ rcs) code h = elim (Bool-cases (reply_code_value rc == code)) [
  | inl here ↦ (rc, (==_iff (reply_code_value rc) code).0 here)
  | inr there ↦ found_value rcs code (rw there at h)
]

value_known :
    (code : ℕ)
    → (rc : ReplyCode) × (reply_code_value rc ≡ code)
    → binary_search irc_reply_codes code ≡ true
value_known code (rc, e) = rw e at (reply_code_value-known rc)

-- The table of reply codes is sorted, as its binary search needs, and a number is found in it
-- exactly if it is the value of an enumerator, so that the cast to the enumeration names one.
pub irc_reply_codes_lem :
    (code : ℕ)
    → IsSorted irc_reply_codes
      × ((binary_search irc_reply_codes code ≡ true)
          ↔ ((rc : ReplyCode) × (reply_code_value rc ≡ code)))
irc_reply_codes_lem code = (
  irc_reply_codes-IsSorted,
  (λ h. found_value all_reply_codes code (rw values-all h), value_known code),
)
