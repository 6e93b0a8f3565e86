-- ===== src/Irc/ReplyCode/Values.antt =====
-- include/irc/irc_enums.h: the values of the reply codes.
use ash_bot.Prelude.{ℕ}
use ash_bot.Irc.ReplyCode.{ReplyCode}

-- static_cast<int>
unfoldable pub reply_code_value : ReplyCode → ℕ
reply_code_value ReplyCode.null = 0
reply_code_value ReplyCode.welcome = 1
reply_code_value ReplyCode.your_host = 2
reply_code_value ReplyCode.created = 3
reply_code_value ReplyCode.my_info = 4
reply_code_value ReplyCode.bounce = 5
reply_code_value ReplyCode.trace_link = 200
reply_code_value ReplyCode.trace_connecting = 201
reply_code_value ReplyCode.trace_handshake = 202
reply_code_value ReplyCode.trace_unknown = 203
reply_code_value ReplyCode.trace_operator = 204
reply_code_value ReplyCode.trace_user = 205
reply_code_value ReplyCode.trace_server = 206
reply_code_value ReplyCode.trace_service = 207
reply_code_value ReplyCode.trace_new_type = 208
reply_code_value ReplyCode.trace_class = 209
reply_code_value ReplyCode.trace_reconnect = 210
reply_code_value ReplyCode.stats_link_info = 211
reply_code_value ReplyCode.stats_commands = 212
reply_code_value ReplyCode.end_of_stats = 219
reply_code_value ReplyCode.user_mode_is = 221
reply_code_value ReplyCode.service_list = 234
reply_code_value ReplyCode.service_list_end = 235
reply_code_value ReplyCode.stats_uptime = 242
reply_code_value ReplyCode.stats_o_line = 243
reply_code_value ReplyCode.luser_client = 251
reply_code_value ReplyCode.luser_op = 252
reply_code_value ReplyCode.luser_unknown = 253
reply_code_value ReplyCode.luser_channels = 254
reply_code_value ReplyCode.luser_me = 255
reply_code_value ReplyCode.admin_me = 256
reply_code_value ReplyCode.admin_location1 = 257
reply_code_value ReplyCode.admin_location2 = 258
reply_code_value ReplyCode.admin_email = 259
reply_code_value ReplyCode.trace_log = 261
reply_code_value ReplyCode.trace_end = 262
reply_code_value ReplyCode.try_again = 263
reply_code_value ReplyCode.away = 301
reply_code_value ReplyCode.user_host = 302
reply_code_value ReplyCode.is_on = 303
reply_code_value ReplyCode.un_away = 305
reply_code_value ReplyCode.now_away = 306
reply_code_value ReplyCode.who_is_user = 311
reply_code_value ReplyCode.who_is_server = 312
reply_code_value ReplyCode.who_is_operator = 313
reply_code_value ReplyCode.who_was_user = 314
reply_code_value ReplyCode.end_of_who = 315
reply_code_value ReplyCode.who_is_idle = 317
reply_code_value ReplyCode.end_of_who_is = 318
reply_code_value ReplyCode.who_is_channels = 319
reply_code_value ReplyCode.list_start = 321
reply_code_value ReplyCode.list = 322
reply_code_value ReplyCode.list_end = 323
reply_code_value ReplyCode.channel_mode_is = 324
reply_code_value ReplyCode.unique_op_is = 325
reply_code_value ReplyCode.no_topic = 331
reply_code_value ReplyCode.topic = 332
reply_code_value ReplyCode.inviting = 341
reply_code_value ReplyCode.summoning = 342
reply_code_value ReplyCode.invite_list = 346
reply_code_value ReplyCode.end_of_invite_list = 347
reply_code_value ReplyCode.exception_list = 348
reply_code_value ReplyCode.end_of_exception_list = 349
reply_code_value ReplyCode.version = 351
reply_code_value ReplyCode.who_reply = 352
reply_code_value ReplyCode.names_reply = 353
reply_code_value ReplyCode.links = 364
reply_code_value ReplyCode.end_of_links = 365
reply_code_value ReplyCode.end_of_names = 366
reply_code_value ReplyCode.ban_list = 367
reply_code_value ReplyCode.end_of_ban_list = 368
reply_code_value ReplyCode.end_of_who_was = 369
reply_code_value ReplyCode.info = 371
reply_code_value ReplyCode.motd = 372
reply_code_value ReplyCode.end_of_info = 374
reply_code_value ReplyCode.motd_start = 375
reply_code_value ReplyCode.end_of_motd = 376
reply_code_value ReplyCode.you_are_oper = 381
reply_code_value ReplyCode.rehashing = 382
reply_code_value ReplyCode.you_are_service = 383
reply_code_value ReplyCode.time = 391
reply_code_value ReplyCode.users_start = 392
reply_code_value ReplyCode.users = 393
reply_code_value ReplyCode.end_of_users = 394
reply_code_value ReplyCode.no_users = 395
reply_code_value ReplyCode.error_no_such_nickname = 401
reply_code_value ReplyCode.error_no_such_server = 402
reply_code_value ReplyCode.error_no_such_channel = 403
reply_code_value ReplyCode.error_cannot_send_to_channel = 404
reply_code_value ReplyCode.error_too_many_channels = 405
reply_code_value ReplyCode.error_was_no_such_nickname = 406
reply_code_value ReplyCode.error_too_many_targets = 407
reply_code_value ReplyCode.error_no_such_service = 408
reply_code_value ReplyCode.error_no_origin = 409
reply_code_value ReplyCode.error_no_recipient = 411
reply_code_value ReplyCode.error_no_text_to_send = 412
reply_code_value ReplyCode.error_no_top_level = 413
reply_code_value ReplyCode.error_wild_top_level = 414
reply_code_value ReplyCode.error_bad_mask = 415
reply_code_value ReplyCode.error_unknown_command = 421
reply_code_value ReplyCode.error_no_motd = 422
reply_code_value ReplyCode.error_no_admin_info = 423
reply_code_value ReplyCode.error_file_error = 424
reply_code_value ReplyCode.error_no_nickname_given = 431
reply_code_value ReplyCode.error_erroneus_nickname = 432
reply_code_value ReplyCode.error_nickname_in_use = 433
reply_code_value ReplyCode.error_nickname_collision = 436
reply_code_value ReplyCode.error_unavailable_resource = 437
reply_code_value ReplyCode.error_user_not_in_channel = 441
reply_code_value ReplyCode.error_not_on_channel = 442
reply_code_value ReplyCode.error_user_on_channel = 443
reply_code_value ReplyCode.error_no_login = 444
reply_code_value ReplyCode.error_summon_disabled = 445
reply_code_value ReplyCode.error_users_disabled = 446
reply_code_value ReplyCode.error_not_registered = 451
reply_code_value ReplyCode.error_need_more_params = 461
reply_code_value ReplyCode.error_already_registered = 462
reply_code_value ReplyCode.error_no_permission_for_host = 463
reply_code_value ReplyCode.error_password_mismatch = 464
reply_code_value ReplyCode.error_you_are_banned_creep = 465
reply_code_value ReplyCode.error_you_will_be_banned = 466
reply_code_value ReplyCode.error_key_set = 467
reply_code_value ReplyCode.error_channel_is_full = 471
reply_code_value ReplyCode.error_unknown_mode = 472
reply_code_value ReplyCode.error_invite_only_channel = 473
reply_code_value ReplyCode.error_banned_from_channel = 474
reply_code_value ReplyCode.error_bad_channel_key = 475
reply_code_value ReplyCode.error_bad_channel_mask = 476
reply_code_value ReplyCode.error_no_channel_modes = 477
reply_code_value ReplyCode.error_ban_list_full = 478
reply_code_value ReplyCode.error_no_privileges = 481
reply_code_value ReplyCode.error_channel_op_privileges_needed = 482
reply_code_value ReplyCode.error_cannot_kill_server = 483
reply_code_value ReplyCode.error_restricted = 484
reply_code_value ReplyCode.error_unique_op_privileges_needed = 485
reply_code_value ReplyCode.error_no_oper_host = 491
reply_code_value ReplyCode.error_user_mode_unknown_flag = 501
reply_code_value ReplyCode.error_users_do_not_match = 502
