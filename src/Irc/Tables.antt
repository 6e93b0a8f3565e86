-- ===== src/Irc/Tables.antt =====
-- source/irc/irc_client.cpp: the tables over the reply codes.
pub mod Known
use ash_bot.Prelude.{ℕ, Bool, false, ◌||◌, Option, none, some, List, [], ◌∷◌, ◌==◌, if◌then◌else◌}
use ash_bot.Irc.Enums.{ReceiveType}
use ash_bot.Irc.ReplyCode.{ReplyCode}
use ash_bot.Irc.ReplyCode.Values.{reply_code_value}

-- ReceiveTypeMap
unfoldable pub receive_type_map : List (ReplyCode × ReceiveType)
receive_type_map =
    (ReplyCode.welcome, ReceiveType.login)
    ∷ (ReplyCode.your_host, ReceiveType.login)
    ∷ (ReplyCode.created, ReceiveType.login)
    ∷ (ReplyCode.my_info, ReceiveType.login)
    ∷ (ReplyCode.bounce, ReceiveType.login)
    ∷ (ReplyCode.luser_client, ReceiveType.info)
    ∷ (ReplyCode.luser_op, ReceiveType.info)
    ∷ (ReplyCode.luser_unknown, ReceiveType.info)
    ∷ (ReplyCode.luser_me, ReceiveType.login)
    ∷ (ReplyCode.luser_channels, ReceiveType.login)
    ∷ (ReplyCode.motd_start, ReceiveType.motd)
    ∷ (ReplyCode.motd, ReceiveType.motd)
    ∷ (ReplyCode.end_of_motd, ReceiveType.motd)
    ∷ (ReplyCode.names_reply, ReceiveType.name)
    ∷ (ReplyCode.end_of_names, ReceiveType.name)
    ∷ (ReplyCode.who_reply, ReceiveType.who)
    ∷ (ReplyCode.end_of_who, ReceiveType.who)
    ∷ (ReplyCode.list_start, ReceiveType.list)
    ∷ (ReplyCode.list, ReceiveType.list)
    ∷ (ReplyCode.list_end, ReceiveType.list)
    ∷ (ReplyCode.ban_list, ReceiveType.ban_list)
    ∷ (ReplyCode.end_of_ban_list, ReceiveType.ban_list)
    ∷ (ReplyCode.topic, ReceiveType.topic)
    ∷ (ReplyCode.no_topic, ReceiveType.topic)
    ∷ (ReplyCode.who_is_user, ReceiveType.who_is)
    ∷ (ReplyCode.who_is_server, ReceiveType.who_is)
    ∷ (ReplyCode.who_is_operator, ReceiveType.who_is)
    ∷ (ReplyCode.who_is_idle, ReceiveType.who_is)
    ∷ (ReplyCode.who_is_channels, ReceiveType.who_is)
    ∷ (ReplyCode.end_of_who_is, ReceiveType.who_is)
    ∷ (ReplyCode.who_was_user, ReceiveType.who_was)
    ∷ (ReplyCode.end_of_who_was, ReceiveType.who_was)
    ∷ (ReplyCode.user_mode_is, ReceiveType.user_mode)
    ∷ (ReplyCode.channel_mode_is, ReceiveType.channel_mode)
    ∷ []

-- IrcReplyCodes
unfoldable pub irc_reply_codes : List ℕ
irc_reply_codes =
    0 ∷ 1 ∷ 2 ∷ 3 ∷ 4 ∷ 5 ∷ 200 ∷ 201 ∷ 202 ∷ 203 ∷ 204 ∷ 205 ∷ 206 ∷ 207 ∷ 208 ∷ 209 ∷ 210 ∷ 211
    ∷ 212 ∷ 219 ∷ 221 ∷ 234 ∷ 235 ∷ 242 ∷ 243 ∷ 251 ∷ 252 ∷ 253 ∷ 254 ∷ 255 ∷ 256 ∷ 257 ∷ 258 ∷ 259
    ∷ 261 ∷ 262 ∷ 263 ∷ 301 ∷ 302 ∷ 303 ∷ 305 ∷ 306 ∷ 311 ∷ 312 ∷ 313 ∷ 314 ∷ 315 ∷ 317 ∷ 318 ∷ 319
    ∷ 321 ∷ 322 ∷ 323 ∷ 324 ∷ 325 ∷ 331 ∷ 332 ∷ 341 ∷ 342 ∷ 346 ∷ 347 ∷ 348 ∷ 349 ∷ 351 ∷ 352 ∷ 353
    ∷ 364 ∷ 365 ∷ 366 ∷ 367 ∷ 368 ∷ 369 ∷ 371 ∷ 372 ∷ 374 ∷ 375 ∷ 376 ∷ 381 ∷ 382 ∷ 383 ∷ 391 ∷ 392
    ∷ 393 ∷ 394 ∷ 395 ∷ 401 ∷ 402 ∷ 403 ∷ 404 ∷ 405 ∷ 406 ∷ 407 ∷ 408 ∷ 409 ∷ 411 ∷ 412 ∷ 413 ∷ 414
    ∷ 415 ∷ 421 ∷ 422 ∷ 423 ∷ 424 ∷ 431 ∷ 432 ∷ 433 ∷ 436 ∷ 437 ∷ 441 ∷ 442 ∷ 443 ∷ 444 ∷ 445 ∷ 446
    ∷ 451 ∷ 461 ∷ 462 ∷ 463 ∷ 464 ∷ 465 ∷ 466 ∷ 467 ∷ 471 ∷ 472 ∷ 473 ∷ 474 ∷ 475 ∷ 476 ∷ 477 ∷ 478
    ∷ 481 ∷ 482 ∷ 483 ∷ 484 ∷ 485 ∷ 491 ∷ 501 ∷ 502 ∷ []

-- std::binary_search: on a sorted range it finds the value exactly if it is there
unfoldable pub binary_search : List ℕ → ℕ → Bool
binary_search [] code = false
binary_search (c ∷ cs) code = c == code || binary_search cs code

-- ReceiveTypeMap.find
unfoldable pub find_receive_type : List (ReplyCode × ReceiveType) → ℕ → Option ReceiveType
unfolding reply_code_value
find_receive_type [] code = none
find_receive_type ((rc, type) ∷ entries) code =
    if reply_code_value rc == code then some type else find_receive_type entries code
