-- ===== src/SongRequest/Provider/Request/Rows.antt =====
-- The rows that are put into the queue in the database.
use text.Mathlib.Text.{◌==◌ as same_text}
use ash_bot.Prelude.{
  Option, ◌≡◌, refl, ◌∙◌, Bool, true, false, List, [], ◌∷◌, Bytes, codes, if◌then◌else◌, arith,
  get_elem?, ap, Bool-cases, some, ◌⊎◌, inl, inr,
}
use ash_bot.Prelude.Int.{ℤ, pattern_of}
use ash_bot.Outcome.{Outcome, done, aborted, threw, faulted}
use ash_bot.Partial.{Partial-cases}
use ash_bot.Regex.{Engine}
use ash_bot.Db.Params.{fill_int}
use ash_bot.World.{Env, Event, queried, requested, said, said_later}
use ash_bot.SubManager.{is_regular}
use ash_bot.SongRequest.Song.{Song, Source, youtube, soundcloud, vimeo, new_song, parse_link}
use ash_bot.SongRequest.Youtube
use ash_bot.SongRequest.Soundcloud
use ash_bot.SongRequest.Vimeo
use ash_bot.SongRequest.Fetch.{
  Apis, find_song, fetch_song, save_song, store_fetched, get_parsed, get_song,
}
use ash_bot.SongRequest.Provider.{Provider, SongRequestItem}
use ash_bot.SongRequest.Provider.Check.{
  request_song_check, is_user_banned, is_queue_full, user_can_add_more_songs,
}
use ash_bot.SongRequest.Fetch.{read_or}
use ash_bot.Db.Results.{db_result, read_int}
use ash_bot.SongRequest.Provider.Request.Inserts.{placed, is_accepted}
use ash_bot.SongRequest.Provider.Request.{
  sql_insert_new_request, queue_song, notify_song_list_change, report_error, answer_request,
  request_song,
}

-- The parameters of the queries that insert a row, newest first.
abbrev pub inserted : List Event → List (List Bytes)
inserted [] = []
inserted (queried sql params ∷ h) =
    if same_text sql sql_insert_new_request then params ∷ inserted h else inserted h
inserted (requested url headers follow ∷ h) = inserted h
inserted (said action format args ∷ h) = inserted h
inserted (said_later delay action format args ∷ h) = inserted h

module _ (env : Env) (e : Engine) (get_time : Bytes → ℤ) (s : Song) (h : List Event) where
  youtube-inserted :
      (parse : Bytes → Option Youtube.VideoData) (key country : Bytes)
      → inserted (Youtube.retrieve_video_data env e get_time parse key s country h).1 ≡ inserted h
  unfolding Youtube.retrieve_video_data
  youtube-inserted parse key country = ground arith

  soundcloud-inserted :
      (parse : Bytes → Option Soundcloud.TrackData) (client_id : Bytes)
      → inserted (Soundcloud.retrieve_song_data env e parse client_id s h).1 ≡ inserted h
  unfolding Soundcloud.retrieve_song_data
  soundcloud-inserted parse client_id = ground arith

  vimeo-inserted :
      (parse : Bytes → Option Vimeo.VideoData) (token : Bytes)
      → inserted (Vimeo.retrieve_video_data env get_time parse token s h).1 ≡ inserted h
  unfolding Vimeo.retrieve_video_data
  vimeo-inserted parse token = ground arith

module _ (env : Env) (apis : Apis) where
  find_song-inserted :
      (s : Song) (h : List Event) → inserted (find_song env apis s h).1 ≡ inserted h
  unfolding find_song
  find_song-inserted s h = by_source s.source
    where
      by_source :
          (source : Source)
          → inserted (find_song env apis (record s { source = source }) h).1 ≡ inserted h
      by_source youtube = refl
      by_source soundcloud = refl
      by_source vimeo = refl

  fetch_song-inserted :
      (s : Song) (h : List Event) → inserted (fetch_song env apis s h).1 ≡ inserted h
  unfolding fetch_song
  fetch_song-inserted s h = by_source s.source
    where
      by_source :
          (source : Source)
          → inserted (fetch_song env apis (record s { source = source }) h).1 ≡ inserted h
      by_source youtube =
          youtube-inserted env apis.engine apis.get_time (record s { source = youtube }) h
            apis.youtube_data apis.youtube_key (codes "CZ")
      by_source soundcloud =
          soundcloud-inserted env apis.engine apis.get_time (record s { source = soundcloud }) h
            apis.soundcloud_data apis.soundcloud_id
      by_source vimeo =
          vimeo-inserted env apis.engine apis.get_time (record s { source = vimeo }) h
            apis.vimeo_data apis.vimeo_token

  store_fetched-inserted :
      (fetched : Outcome (Bool × Song)) (h : List Event)
      → inserted (store_fetched env apis fetched h).1 ≡ inserted h
  unfolding store_fetched save_song
  store_fetched-inserted (done (false, s)) h = refl
  store_fetched-inserted (done (true, s)) h = ground arith
  store_fetched-inserted aborted h = refl
  store_fetched-inserted threw h = refl
  store_fetched-inserted faulted h = refl

  get_parsed-inserted :
      (s : Song) (h : List Event) → inserted (get_parsed env apis s h).1 ≡ inserted h
  unfolding get_parsed
  get_parsed-inserted s h =
      let found = find_song env apis s h in
      let fetched = fetch_song env apis s found.1 in
      ground (
        arith,
        find_song-inserted s h,
        fetch_song-inserted s found.1,
        store_fetched-inserted fetched.0 fetched.1,
      )

  pub get_song-inserted :
      (link : Bytes) (s : Song) (h : List Event)
      → inserted (get_song env apis link s h).1 ≡ inserted h
  unfolding get_song
  get_song-inserted link s h = elim (Partial-cases (parse_link apis.engine link s)) [
    | inl e ↦ rw (e, get_song) refl
    | inr (s', e) ↦ rw (e, get_song) (get_parsed-inserted s' h)
  ]

-- A row that is inserted for the user of a request.
abbrev pub IsRowOf : SongRequestItem → List Bytes → Type 0
IsRowOf item params = get_elem? params 1 ≡ some (fill_int 8 (pattern_of 64 item.requested_by.id)).0

-- No row more, or one more that is for this request.
abbrev pub Inserts : SongRequestItem → List Event → List Event → Type 0
Inserts item h h' =
    (inserted h' ≡ inserted h)
    ⊎ ((params : List Bytes) × (inserted h' ≡ params ∷ inserted h) × IsRowOf item params)

module _ (env : Env) (p : Provider) (item : SongRequestItem) where
  is_user_banned-inserted :
      (name : Bytes) (h : List Event) → inserted (is_user_banned env name h).1 ≡ inserted h
  unfolding is_user_banned
  is_user_banned-inserted name h = ground arith

  is_queue_full-inserted : (h : List Event) → inserted (is_queue_full env p h).1 ≡ inserted h
  unfolding is_queue_full
  is_queue_full-inserted h = ground arith

  user_can_add_more_songs-inserted :
      (h : List Event) → inserted (user_can_add_more_songs env p item h).1 ≡ inserted h
  unfolding user_can_add_more_songs is_regular
  user_can_add_more_songs-inserted h = ground arith

  pub check-inserted : (h : List Event) → inserted (request_song_check env p item h).1 ≡ inserted h
  unfolding request_song_check
  check-inserted h =
      let banned = is_user_banned env item.requested_by.username h in
      let full = is_queue_full env p banned.1 in
      ground (
        arith,
        is_user_banned-inserted item.requested_by.username h,
        is_queue_full-inserted banned.1,
        user_can_add_more_songs-inserted full.1,
      )

  pub report_error-inserted :
      (s : Song) (h : List Event) → inserted (report_error env item s h).1 ≡ inserted h
  report_error-inserted s h = ground arith

  -- The row of a song that is accepted: the song, the user and the place.
  abbrev pub row_of : Song → List Event → List Bytes
  row_of s h =
      (fill_int 8 (pattern_of 64 s.id)).0
      ∷ (fill_int 8 (pattern_of 64 item.requested_by.id)).0
      ∷ (fill_int 8 (read_or (λ v. v) (read_int 8 (db_result (env.result (placed s h))) 0 0) 0)).0
      ∷ []

  pub queue_song-inserted :
      (s : Song) (h : List Event)
      → inserted (queue_song env p item s h).1
        ≡ (if is_accepted env p s h then row_of s h ∷ inserted h else inserted h)
  unfolding queue_song notify_song_list_change
  queue_song-inserted s h = ground arith

  queue_song-Inserts : (s : Song) (h : List Event) → Inserts item h (queue_song env p item s h).1
  queue_song-Inserts s h = elim (Bool-cases (is_accepted env p s h)) [
    | inl e ↦ inr (row_of s h, rw e at (queue_song-inserted s h), refl)
    | inr e ↦ inl (rw e at (queue_song-inserted s h))
  ]

  answer_request-Inserts :
      (got : Outcome (Bool × Song)) (h : List Event)
      → Inserts item h (answer_request env p item got h).1
  unfolding answer_request
  answer_request-Inserts (done (true, s)) h = queue_song-Inserts s h
  answer_request-Inserts (done (false, s)) h = inl (report_error-inserted s h)
  answer_request-Inserts aborted h = inl refl
  answer_request-Inserts threw h = inl refl
  answer_request-Inserts faulted h = inl refl

-- What comes before makes no difference.
Inserts-after :
    (item : SongRequestItem) (h k k' : List Event)
    → inserted k ≡ inserted h
    → Inserts item k k'
    → Inserts item h k'
Inserts-after item h k k' same (inl e) = inl (e ∙ same)
Inserts-after item h k k' same (inr (params, e, row)) = inr (params, e ∙ ap (◌∷◌ params) same, row)

module _ (env : Env) (apis : Apis) (garbage : ℤ) where
  pub request_song-Inserts :
      (p : Provider) (item : SongRequestItem) (h : List Event)
      → Inserts item h (request_song env apis garbage p item h).1
  unfolding request_song
  request_song-Inserts p item h =
      let checked = request_song_check env p item h in
      let got = get_song env apis item.link (new_song garbage garbage) checked.1 in
      elim (Bool-cases checked.0) [
        | inr e ↦ inl (rw (e, request_song) (check-inserted env p item h))
        | inl e ↦
            rw (e, request_song)
              (Inserts-after item h got.1 (answer_request env p item got.0 got.1).1
                (get_song-inserted env apis item.link (new_song garbage garbage) checked.1
                  ∙ check-inserted env p item h)
                (answer_request-Inserts env p item got.0 got.1))
      ]
