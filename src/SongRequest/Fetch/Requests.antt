-- ===== src/SongRequest/Fetch/Requests.antt =====
-- How many requests over HTTP it costs to find a song, and to serve a request for one.
use ash_bot.Prelude.{
  Option, Bool, true, false, ◌+◌, ◌≤◌, ◌≡◌, refl, ltb, Bytes, codes, List, arith, if◌then◌else◌,
}
use ash_bot.Prelude.Int.{ℤ}
use ash_bot.Regex.{Engine}
use ash_bot.World.{Env, Event, request_count}
use ash_bot.SongRequest.Song.{Song, Source, youtube, soundcloud, vimeo}
use ash_bot.SongRequest.Youtube
use ash_bot.SongRequest.Soundcloud
use ash_bot.SongRequest.Vimeo
use ash_bot.SongRequest.Fetch.{Apis, find_song, fetch_song, save_song, store_fetched, get_parsed}
use ash_bot.Outcome.{Outcome, done, aborted, threw, faulted}

module _ (env : Env) (e : Engine) (get_time : Bytes → ℤ) (s : Song) (h : List Event) where
  youtube-requests :
      (parse : Bytes → Option Youtube.VideoData) (key country : Bytes)
      → request_count (Youtube.retrieve_video_data env e get_time parse key s country h).1
        ≤ request_count h + 2
  unfolding Youtube.retrieve_video_data
  youtube-requests parse key country = ground arith

  soundcloud-requests :
      (parse : Bytes → Option Soundcloud.TrackData) (client_id : Bytes)
      → request_count (Soundcloud.retrieve_song_data env e parse client_id s h).1
        ≤ request_count h + 2
  unfolding Soundcloud.retrieve_song_data
  soundcloud-requests parse client_id = ground arith

  vimeo-requests :
      (parse : Bytes → Option Vimeo.VideoData) (token : Bytes)
      → request_count (Vimeo.retrieve_video_data env get_time parse token s h).1
        ≤ request_count h + 2
  unfolding Vimeo.retrieve_video_data
  vimeo-requests parse token = ground arith

module _ (env : Env) (apis : Apis) where
  find_song-requests :
      (s : Song) (h : List Event) → request_count (find_song env apis s h).1 ≡ request_count h
  unfolding find_song
  find_song-requests s h = by_source s.source
    where
      by_source :
          (source : Source)
          → request_count (find_song env apis (record s { source = source }) h).1 ≡ request_count h
      by_source youtube = refl
      by_source soundcloud = refl
      by_source vimeo = refl

  fetch_song-requests :
      (s : Song) (h : List Event) → request_count (fetch_song env apis s h).1 ≤ request_count h + 2
  unfolding fetch_song
  fetch_song-requests s h = by_source s.source
    where
      by_source :
          (source : Source)
          → request_count (fetch_song env apis (record s { source = source }) h).1
            ≤ request_count h + 2
      by_source youtube =
          youtube-requests env apis.engine apis.get_time (record s { source = youtube }) h
            apis.youtube_data apis.youtube_key (codes "CZ")
      by_source soundcloud =
          soundcloud-requests env apis.engine apis.get_time (record s { source = soundcloud }) h
            apis.soundcloud_data apis.soundcloud_id
      by_source vimeo =
          vimeo-requests env apis.engine apis.get_time (record s { source = vimeo }) h
            apis.vimeo_data apis.vimeo_token

  store_fetched-requests :
      (fetched : Outcome (Bool × Song)) (h : List Event)
      → request_count (store_fetched env apis fetched h).1 ≡ request_count h
  unfolding store_fetched save_song
  store_fetched-requests (done (false, s)) h = refl
  store_fetched-requests (done (true, s)) h = ground arith
  store_fetched-requests aborted h = refl
  store_fetched-requests threw h = refl
  store_fetched-requests faulted h = refl

  pub get_parsed-requests :
      (s : Song) (h : List Event)
      → request_count (get_parsed env apis s h).1
        ≤ request_count h + (if ltb 0 (find_song env apis s h).0.row_count then 0 else 2)
  unfolding get_parsed
  get_parsed-requests s h =
      let found = find_song env apis s h in
      let fetched = fetch_song env apis s found.1 in
      ground (
        arith,
        find_song-requests s h,
        fetch_song-requests s found.1,
        store_fetched-requests fetched.0 fetched.1,
      )
