-- ===== src/Lib.antt =====
-- AshBot: a chat bot for one channel of Twitch, with song requests. This library models its core
-- and proves it correct where it is.
--
-- The parts, and the files that model them (a file `A/B.antt` is the module A.B):
-- - source/irc/irc_client.cpp and twitch_irc_client.cpp: a line of the chat is split into its
--   tags and its message (Irc/Tags: parse_tags, unescape_tag_string) and classified
--   (Irc/Classify: get_message_type). What is kept of it is Irc/Message
--   (irc_client::parse_message and include/irc/irc_message_data.h); Irc/Client hands it on to a
--   handler, and has login, join and send_message; Chat is ev_line_read with the handlers. The
--   lines are made over the formats of include/irc/rfc2812.h (Irc/Rfc2812). The tables are
--   Irc/Tables, the enumerations of include/irc/irc_enums.h Irc/Enums and Irc/ReplyCode.
-- - source/irc/irc_connection.cpp: the connection to the server, its lines with their buffers,
--   and the ping timer (Irc/Connection); what is done when a read fails is
--   Irc/Connection/Recovery, and writes that are not waited for are Irc/Connection/Writes.
-- - source/modules/songrequest: a request is queued for a worker thread (SongRequest/Provider and
--   its Worker; Provider/Queue is the queue between them), checked (Provider/Check), its link is
--   parsed (SongRequest/Song), the song is looked up in the database or at the site that hosts it
--   (Fetch, Youtube, Soundcloud, Vimeo), and it is put into the queue (Provider/Request).
-- - include/db/db.h and source/db/db.cpp: the parameters of a query in binary form (Db/Params),
--   its result (Db/Results), the pool of connections (Db/Connections, and its use by several
--   threads in Db/Connections/Users), and a command (Db/Query).
-- - source/sub_manager.cpp and source/twitch_api.cpp: subscribers, page by page (SubManager,
--   TwitchApi).
-- - include/object_cache.h, string_pool.h and ref_counted_object.h: blocks of memory that are
--   used again, and their counted references (ObjectCache).
-- - source/channel_context.cpp: a message of the channel asks for a command, if its sender may
--   use it (ChannelContext: process_message_core, get_user_access_level), and messages are sent
--   to the channel, at once or later (ChannelContext/Output). Its constructor and its end, and
--   those of the bot around it, are ChannelContext/Lifetime.
-- - include/commands: the arguments of a command (Commands), its traits (Commands/Traits), the
--   map from keywords to commands (Commands/Factory), the commands (Commands/Execute), and the
--   class of those that keep their text (Commands/WithMessage).
-- - source/modules/bot_module.cpp: modules that are called every so many seconds (TimedModule).
-- - source/tokens.cpp: the secrets in the database (Tokens).
-- - source/http_client.cpp: requests (HttpClient), source/remote/control_server.cpp: what the
--   player tells (ControlServer), and source/main.cpp and bot.cpp: the start (Bot).
-- - System puts the parts together: a step of it is a line that is read (Chat), a task of the
--   thread pool (ChannelContext), a request that the worker dequeues or serves
--   (SongRequest/Provider/Worker) or a report of the player (ControlServer), each run to its end
--   and in any order.
--
-- How the code is modelled. A text is the list of its bytes. An operation with effects is a
-- function of the history of what was asked of the database, the sites and the chat (World), and
-- of what these answer, which is a function of the history. A read through a null pointer or past
-- a buffer makes the result `undefined` (Partial); code that may also end the process or throw
-- has a result of its own for each (Outcome). An `int` or a counter of w bits is a number below
-- 2 ^ w; memory is that of a machine whose least significant byte comes first.
--
-- Code that is not in the repository is a parameter: libpq and the server by what they answer
-- (PgResult), libcurl (Transfer of HttpClient), the JSON parser by what is looked up in its result, where each may throw, the
-- engine of boost::xpressive (Regex: what it documents is the records IsSound, IsComplete and
-- IsGrouped), boost::lexical_cast, std::get_time, and the queue of the moodycamel library
-- (CcQueue: items come out in any order, and each once). Which hashes share a bucket of a
-- std::unordered_map is a parameter of Commands/Factory.
--
-- Fuel. unescape_loop and parse_tags_loop run on one round more than the line is long; each round
-- but the last moves on by a byte at least. get_pages runs on given fuel:
-- its offset goes from 0 to 10000 in steps of 100, so that 101 rounds are enough. close_all runs on a given number of rounds.
-- connect runs on a given number of attempts, and split_loop on as many rounds as the message is
-- long, of which each but the last takes a blank away.
--
-- Not modelled: the socket, the set-up of websocketpp, and what main frees at its end; thread pools,
-- locks and logging, which only wrap libraries; the schema in db.sql.
--
-- The tests and the runs of the theorems at concrete data are under Tests.
mod Prelude
pub mod CcQueue
pub mod Ownership
pub mod Pick
pub mod ObjectCache
pub mod Db
pub mod World
pub mod Printf
pub mod Regex
pub mod TwitchApi
pub mod SubManager
pub mod Irc
pub mod Outcome
pub mod Partial
pub mod TwitchUser
pub mod SongRequest
pub mod TimedModule
pub mod Tokens
pub mod Commands
pub mod ChannelContext
pub mod Chat
pub mod Bot
pub mod ControlServer
pub mod HttpClient
pub mod System
mod Tests
