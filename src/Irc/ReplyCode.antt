-- ===== src/Irc/ReplyCode.antt =====
-- include/irc/irc_enums.h: the numeric replies of RFC 2812.
pub mod Values

pub data ReplyCode : Type 0 where
  null welcome your_host created my_info bounce : ReplyCode
  trace_link trace_connecting trace_handshake trace_unknown trace_operator trace_user : ReplyCode
  trace_server trace_service trace_new_type trace_class trace_reconnect stats_link_info : ReplyCode
  stats_commands end_of_stats user_mode_is service_list service_list_end stats_uptime : ReplyCode
  stats_o_line luser_client luser_op luser_unknown luser_channels luser_me : ReplyCode
  admin_me admin_location1 admin_location2 admin_email trace_log trace_end : ReplyCode
  try_again away user_host is_on un_away now_away : ReplyCode
  who_is_user who_is_server who_is_operator who_was_user end_of_who who_is_idle : ReplyCode
  end_of_who_is who_is_channels list_start list list_end channel_mode_is : ReplyCode
  unique_op_is no_topic topic inviting summoning invite_list : ReplyCode
  end_of_invite_list exception_list end_of_exception_list version who_reply names_reply : ReplyCode
  links end_of_links end_of_names ban_list end_of_ban_list end_of_who_was : ReplyCode
  info motd end_of_info motd_start end_of_motd you_are_oper : ReplyCode
  rehashing you_are_service time users_start users end_of_users : ReplyCode
  no_users error_no_such_nickname error_no_such_server error_no_such_channel
        error_cannot_send_to_channel error_too_many_channels :
      ReplyCode
  error_was_no_such_nickname error_too_many_targets error_no_such_service error_no_origin
        error_no_recipient error_no_text_to_send :
      ReplyCode
  error_no_top_level error_wild_top_level error_bad_mask error_unknown_command error_no_motd
        error_no_admin_info :
      ReplyCode
  error_file_error error_no_nickname_given error_erroneus_nickname error_nickname_in_use
        error_nickname_collision error_unavailable_resource :
      ReplyCode
  error_user_not_in_channel error_not_on_channel error_user_on_channel error_no_login
        error_summon_disabled error_users_disabled :
      ReplyCode
  error_not_registered error_need_more_params error_already_registered error_no_permission_for_host
        error_password_mismatch error_you_are_banned_creep :
      ReplyCode
  error_you_will_be_banned error_key_set error_channel_is_full error_unknown_mode
        error_invite_only_channel error_banned_from_channel :
      ReplyCode
  error_bad_channel_key error_bad_channel_mask error_no_channel_modes error_ban_list_full
        error_no_privileges error_channel_op_privileges_needed :
      ReplyCode
  error_cannot_kill_server error_restricted error_unique_op_privileges_needed error_no_oper_host
        error_user_mode_unknown_flag error_users_do_not_match :
      ReplyCode
