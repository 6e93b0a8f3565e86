-- ===== src/SongRequest/Provider/Request/Requests.antt =====
-- Which requests over HTTP it costs to serve a request for a song.
use ash_bot.Prelude.{
  ◌+◌, ◌≤◌, ◌≡◌, refl, ap, Bool, true, false, ◌&&◌, ltb, List, [], ◌∷◌, arith, Bytes, codes, length,
  if◌then◌else◌, Bool-cases, inl, inr,
}
use ash_bot.Prelude.Int.{ℤ}
use ash_bot.Partial.{defined, undefined, Partial-cases}
use ash_bot.Outcome.{Outcome, done, aborted, threw, faulted}
use ash_bot.Db.Results.{db_result, is_ok}
use ash_bot.World.{Env, Event, queried, requested, said, said_later, request_count}
use ash_bot.SubManager.{is_regular}
use ash_bot.SongRequest.Song.{Song, new_song, parse_link}
use ash_bot.SongRequest.Fetch.{Apis, find_song, get_song}
use ash_bot.SongRequest.Fetch.Requests.{get_parsed-requests}
use ash_bot.SongRequest.Provider.{Provider, SongRequestItem}
use ash_bot.SongRequest.Provider.Check.{
  request_song_check, is_user_banned, is_queue_full, user_can_add_more_songs,
}
use ash_bot.SongRequest.Provider.Request.{
  sql_insert_new_request, queue_song, notify_song_list_change, report_error, answer_request,
  request_song,
}
use ash_bot.SongRequest.Provider.Request.Inserts.{placed, is_accepted}
use ash_bot.SongRequest.Provider.Request.Rows.{row_of}

-- The addresses that are asked for, newest first.
abbrev pub urls : List Event → List Bytes
urls [] = []
urls (requested url headers follow ∷ h) = url ∷ urls h
urls (queried sql params ∷ h) = urls h
urls (said action format args ∷ h) = urls h
urls (said_later delay action format args ∷ h) = urls h

length-urls : (h : List Event) → length (urls h) ≡ request_count h
length-urls [] = refl
length-urls (requested url headers follow ∷ h) = omega (arith, length-urls h)
length-urls (queried sql params ∷ h) = length-urls h
length-urls (said action format args ∷ h) = length-urls h
length-urls (said_later delay action format args ∷ h) = length-urls h

-- Where the player is told that the list of songs changed.
abbrev pub list_change_url : Bytes
list_change_url = codes "http://192.168.1.115:8085/SongRequest/SongListChange"

module _ (env : Env) (p : Provider) (item : SongRequestItem) where
  is_user_banned-urls :
      (name : Bytes) (h : List Event) → urls (is_user_banned env name h).1 ≡ urls h
  unfolding is_user_banned
  is_user_banned-urls name h = ground arith

  is_queue_full-urls : (h : List Event) → urls (is_queue_full env p h).1 ≡ urls h
  unfolding is_queue_full
  is_queue_full-urls h = ground arith

  user_can_add_more_songs-urls :
      (h : List Event) → urls (user_can_add_more_songs env p item h).1 ≡ urls h
  unfolding user_can_add_more_songs is_regular
  user_can_add_more_songs-urls h = ground arith

  check-urls : (h : List Event) → urls (request_song_check env p item h).1 ≡ urls h
  unfolding request_song_check
  check-urls h =
      let banned = is_user_banned env item.requested_by.username h in
      let full = is_queue_full env p banned.1 in
      ground (
        arith,
        is_user_banned-urls item.requested_by.username h,
        is_queue_full-urls banned.1,
        user_can_add_more_songs-urls full.1,
      )

  -- Whether the row of a song is put into the queue.
  abbrev pub is_queued : Song → List Event → Bool
  is_queued s h =
      is_accepted env p s h
      && is_ok (
          db_result
            (env.result (queried sql_insert_new_request (row_of env p item s h) ∷ placed s h)))

  queue_song-urls :
      (s : Song) (h : List Event)
      → urls (queue_song env p item s h).1
        ≡ (if is_queued s h then list_change_url ∷ urls h else urls h)
  unfolding queue_song notify_song_list_change
  queue_song-urls s h = ground arith

  report_error-urls : (s : Song) (h : List Event) → urls (report_error env item s h).1 ≡ urls h
  report_error-urls s h = ground arith

  -- The addresses after a request, by whether get_song found its song.
  abbrev pub urls_with : Outcome (Bool × Song) → List Event → List Bytes
  urls_with (done (true, s)) h = if is_queued s h then list_change_url ∷ urls h else urls h
  urls_with (done (false, s)) h = urls h
  urls_with aborted h = urls h
  urls_with threw h = urls h
  urls_with faulted h = urls h

  answer_request-urls :
      (got : Outcome (Bool × Song)) (h : List Event)
      → urls (answer_request env p item got h).1 ≡ urls_with got h
  unfolding answer_request
  answer_request-urls (done (true, s)) h = queue_song-urls s h
  answer_request-urls (done (false, s)) h = report_error-urls s h
  answer_request-urls aborted h = refl
  answer_request-urls threw h = refl
  answer_request-urls faulted h = refl

-- Whether the database has the song that a link names.
abbrev pub is_stored : Env → Apis → ℤ → Bytes → List Event → Bool
is_stored env apis garbage link h = elim (parse_link apis.engine link (new_song garbage garbage)) [
  | undefined ↦ false
  | defined s ↦ ltb 0 (find_song env apis s h).0.row_count
]

module _ (env : Env) (apis : Apis) (garbage : ℤ) where
  get_song-requests :
      (link : Bytes) (h : List Event)
      → request_count (get_song env apis link (new_song garbage garbage) h).1
        ≤ request_count h + (if is_stored env apis garbage link h then 0 else 2)
  unfolding get_song
  get_song-requests link h =
      elim (Partial-cases (parse_link apis.engine link (new_song garbage garbage))) [
        | inl e ↦ rw (e, get_song, is_stored) (omega arith)
        | inr (s, e) ↦ rw (e, get_song, is_stored) (get_parsed-requests env apis s h)
      ]

  -- To find the song of a request, at most two requests are made over HTTP, and none if the database
  -- has the song. Behind that, the player is told at its own address that the list changed, and told
  -- once, exactly if the song was found, is accepted, and its row could be inserted; no other
  -- request is made, and none at all if the request does not pass its check.
  pub request_song-requests :
      (p : Provider) (item : SongRequestItem) (h : List Event)
      → let checked = request_song_check env p item h in
        let got = get_song env apis item.link (new_song garbage garbage) checked.1 in
        (length (urls got.1)
          ≤ length (urls h) + (if is_stored env apis garbage item.link checked.1 then 0 else 2))
        × (urls (request_song env apis garbage p item h).1
            ≡ (if checked.0 then urls_with env p item got.0 got.1 else urls h))
  unfolding request_song
  request_song-requests p item h =
      let checked = request_song_check env p item h in
      let got = get_song env apis item.link (new_song garbage garbage) checked.1 in
      let asked : length (urls checked.1) ≡ length (urls h) =
        ap (λ us. length us) (check-urls env p item h) in
      (
        omega (
          arith,
          asked,
          length-urls got.1,
          length-urls checked.1,
          get_song-requests item.link checked.1,
        ),
        elim (Bool-cases checked.0) [
          | inr e ↦ rw (e, request_song) (check-urls env p item h)
          | inl e ↦ rw (e, request_song) (answer_request-urls env p item got.0 got.1)
        ],
      )
