-- ===== src/Tests/Whole.antt =====
-- The bot from the first line to the request that the worker takes, and a report of the player.
use text.Mathlib.Text.{◌==◌ as same_text}
use ash_bot.Db.Results.Counts.{sent}
use ash_bot.Prelude.{
  if◌then◌else◌, ◌≡◌, refl, ap, suc, ◌==◌, true, false, Option, some, List, All, length, ◌≤◌, [],
  ◌∷◌, Bytes, codes, str_eq, contains, arith,
}
use ash_bot.Prelude.Int.{pos}
use ash_bot.Prelude.Strtol.{stoll}
use ash_bot.Partial.{defined}
use ash_bot.Outcome.{done}
use ash_bot.World.{Env, Event, queried, said}
use ash_bot.Irc.Tags.{find_tag, set_tag}
use ash_bot.Irc.Classify.{twitch_message_type}
use ash_bot.SongRequest.Provider.{
  Provider, SongRequestItem, make_item, put_item, enqueue_request, new_provider,
}
use ash_bot.SongRequest.Provider.Status.Reported.{player_message, answer, told, on_message-failed}
use ash_bot.SongRequest.Provider.Request.{
  current_song, queue_song, notify_song_list_change, request_song, answer_request,
}
use ash_bot.Db.Results.{fatal_error}
use ash_bot.ChannelContext.{process_message_core}
use ash_bot.ChannelContext.Quiet.{process_message-inserted}
use ash_bot.ControlServer.{ControlMessage, on_message}
use ash_bot.Chat.{ev_line_read}
use ash_bot.Chat.Requests.{ev_line_read-requests}
use ash_bot.System.{System, begun, Reach, read_line, run_task, take_out, serve, here, next}
use ash_bot.System.Traced.{IsAccounted, Reach-IsAccounted}
use ash_bot.System.Inserted.{IsRequested, Reach-rows}
use ash_bot.Tests.Songs.{some_apis}
use ash_bot.SongRequest.Provider.Worker.{serve_item}
use ash_bot.SongRequest.Provider.Check.{request_song_check}
use ash_bot.Db.Results.{PgResult, read_int}
use ash_bot.Db.Wire.{byte_swap}
use ash_bot.SubManager.{is_regular}
use ash_bot.SongRequest.Fetch.{sql_get_song_tid, get_song, get_parsed}
use ash_bot.SongRequest.Provider.Request.Accepted.{rows_with, request_song-inserted}
use ash_bot.SongRequest.Song.{
  new_song, parse_link, try_process_youtube_link, try_process_soundcloud_link,
  try_process_vimeo_link, process_youtube_id,
}
use ash_bot.SongRequest.Provider.Request.Rows.{inserted}
use ash_bot.Tests.Setting.{answers, table, open_provider, fresh_data, wish}
use ash_bot.Tests.Messages.{message_engine, mod-IsKey, user_id-IsKey}
use ash_bot.Tests.Channel.{bot_cast, channel, sr-found}
use ash_bot.Tests.Pipeline.{wish_line, wish_task, ann, nothing}

-- A database that has every song that is looked up by its track, and no row else.
abbrev song_rows : List Event → PgResult
song_rows (queried sql params ∷ h) =
    if same_text sql sql_get_song_tid then table 1 (sent 8 4) else table 0 (sent 8 4)
song_rows _ = table 0 (sent 8 4)

abbrev song_library : Env
song_library = record (answers 0 []) { result = song_rows }

abbrev player : Bytes → Option ControlMessage
player payload = some (player_message (pos 5) true)

wish-read :
    (ev_line_read message_engine wish_line fresh_data nothing
      ≡ done (record { written = []; tasks = wish_task ∷ [] }))
    × ((process_message_core song_library ◌==◌ bot_cast channel wish_task []).0
        ≡ defined (enqueue_request ann (codes "abc") open_provider))
unfolding find_tag set_tag str_eq stoll twitch_message_type contains
wish-read =
    ev_line_read-requests message_engine song_library ◌==◌ bot_cast channel nothing fresh_data []
      (codes "mod", codes "0") ((codes "user-id", codes "42") ∷ []) (codes "ann") (codes "ann@tmi")
      (codes "c") (codes "sr") (codes "abc") (codes "42") (pos 42) (mod-IsKey, user_id-IsKey)
      (refl, (refl, (refl, tt))) (refl, (refl, (refl, (refl, (refl, (refl, (refl, tt)))))))
      (refl, tt) (omega arith) (omega arith) refl refl refl refl (refl, (refl, tt)) sr-found
      (refl, (refl, (refl, tt))) refl refl

abbrev Run : System → System → Type 0
Run = Reach message_engine song_library ◌==◌ bot_cast player some_apis (pos 0) channel

abbrev asked : Provider
asked = enqueue_request ann (codes "abc") open_provider

abbrev item : SongRequestItem
item = (make_item ann (codes "abc") open_provider).0

abbrev asked_history : List Event
asked_history = (process_message_core song_library ◌==◌ bot_cast channel wish_task []).1

abbrev done_with : System
done_with = record {
  lines = wish_line ∷ [];
  received = nothing;
  provider = record asked { items = [] };
  taken = [];
  served = item ∷ [];
  history =
      (serve_item song_library some_apis (pos 0) item.action (record asked { items = [] }) item
        asked_history).1;
}

is_served :
    (serve_item song_library some_apis
      (pos 0)
      item.action
      (record asked { items = [] })
      item
      asked_history).0
    ≡ done tt
unfolding make_item serve_item request_song request_song_check enqueue_request new_provider read_int
    byte_swap find_tag set_tag str_eq is_regular get_song parse_link try_process_youtube_link
    try_process_soundcloud_link try_process_vimeo_link process_youtube_id get_parsed answer_request
    contains
is_served = refl

run : Run (begun open_provider []) done_with
unfolding new_provider enqueue_request make_item put_item
run =
    next
      (next
        (next (next here (read_line wish_line fresh_data wish-read.0))
          (run_task 0 refl wish-read.1))
        (take_out 0 refl))
      (serve 0 refl is_served)

none_yet : open_provider.items ≡ []
unfolding new_provider
none_yet = refl

Reach-IsAccounted_example : IsAccounted message_engine ◌==◌ channel.creators done_with
Reach-IsAccounted_example =
    Reach-IsAccounted message_engine song_library ◌==◌ bot_cast player some_apis (pos 0) channel
      open_provider [] none_yet run

-- The run inserts a row.
one_row : length (inserted done_with.history) ≡ 1
unfolding make_item serve_item request_song request_song_check enqueue_request new_provider read_int
    byte_swap find_tag set_tag str_eq is_regular get_song parse_link try_process_youtube_link
    try_process_soundcloud_link try_process_vimeo_link process_youtube_id get_parsed answer_request
    contains queue_song notify_song_list_change
one_row =
    ap (λ rows. suc (length rows))
      (process_message-inserted song_library bot_cast ◌==◌ channel wish_task [])

Reach-rows_example :
    All
      (IsRequested message_engine ◌==◌ channel.creators done_with.lines)
      (inserted done_with.history)
    × (length (inserted done_with.history) ≤ 1)
Reach-rows_example =
    Reach-rows message_engine song_library ◌==◌ bot_cast player some_apis (pos 0) channel
      open_provider [] none_yet refl run

request_song-inserted_example :
    let p = record asked { items = [] } in
    let checked = request_song_check song_library p item [] in
    let got = get_song song_library some_apis (codes "abc") (new_song (pos 0) (pos 0)) checked.1 in
    inserted (request_song song_library some_apis (pos 0) p item []).1
    ≡ (if checked.0 then rows_with song_library p item got.0 got.1 [] else [])
unfolding make_item
request_song-inserted_example =
    request_song-inserted song_library (record asked { items = [] }) item some_apis (pos 0) []

-- A database that refuses every query.
abbrev refusing : Env
refusing = record (answers 0 []) { result = λ h. record (table 0 []) { status = fatal_error } }

on_message-failed_example :
    (p : Provider) × ((on_message refusing player [] open_provider []).0 ≡ done p)
    × (current_song refusing p wish [] ≡ (
      tt,
      said false (answer true) (told true (codes "viewer") open_provider.status (pos 5)) ∷ [],
    ))
on_message-failed_example =
    on_message-failed refusing player [] (pos 5) true open_provider wish [] [] refl refl refl
