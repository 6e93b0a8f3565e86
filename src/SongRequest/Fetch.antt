-- ===== src/SongRequest/Fetch.antt =====
-- songrequest_provider::get_song and fill_song: the song that a link names, from the database or
-- from the site that hosts it. `apis` holds the parsers and tokens that the three sites take.
pub mod Requests
use ash_bot.Prelude.{
  ℕ, Bool, true, false, not, Option, none, some, [], ◌∷◌, Bytes, String, codes, ltb, ◌==◌,
  if◌then◌else◌,
}
use ash_bot.Prelude.Int.{ℤ, pos, signed, pattern_of}
use ash_bot.Outcome.{Outcome, done, aborted, threw, faulted}
use ash_bot.Partial.{defined, undefined}
use ash_bot.Regex.{Engine}
use ash_bot.Db.Results.{DbResult, is_ok, read_int, read_string}
use ash_bot.Db.Params.{fill_int, fill_chars}
use ash_bot.World.{Env, M, ◌>>=◌, pure, query}
use ash_bot.SongRequest.Song.{
  Song, youtube, soundcloud, vimeo, source_index, no_error, does_not_exist, parse_link,
}
use ash_bot.SongRequest.Youtube
use ash_bot.SongRequest.Soundcloud
use ash_bot.SongRequest.Vimeo

pub record Apis : Type 0 where
  pub engine : Engine
  pub get_time : Bytes → ℤ
  pub youtube_data : Bytes → Option Youtube.VideoData
  pub soundcloud_data : Bytes → Option Soundcloud.TrackData
  pub vimeo_data : Bytes → Option Vimeo.VideoData
  pub youtube_key : Bytes
  pub soundcloud_id : Bytes
  pub vimeo_token : Bytes

abbrev pub sql_get_song_tid : String
sql_get_song_tid = "SELECT * FROM songs WHERE track_id = $1::varchar AND source = $2::smallint;"

abbrev sql_get_song_link : String
sql_get_song_link = "SELECT * FROM songs WHERE link = $1::varchar;"

abbrev sql_insert_song : String
sql_insert_song =
    "INSERT INTO songs(source, name, track_id, length, banned, ban_user_on_request, ban_length) VALUES($1::smallint, $2::varchar, $3::varchar, $4::smallint, $5::boolean, $6::boolean, $7::integer) RETURNING id;"

-- A value that keeps what it had where the read fails.
abbrev pub read_or {ℓ} : {A : Type ℓ} → (ℕ → A) → Option ℕ → A → A
read_or f none old = old
read_or f (some v) old = f v

abbrev text_or : Option Bytes → Bytes → Bytes
text_or none old = old
text_or (some s) old = s

abbrev as_bool : ℕ → Bool
as_bool v = not (v == 0)

-- A row of `songs` has all the columns that are read.
pub fill_song : Song → DbResult → Song
fill_song s r = record s {
  error = no_error;
  id = read_or (signed 64) (read_int 8 r 0 0) s.id;
  name = text_or (read_string r 0 2) s.name;
  length = read_or (signed 16) (read_int 2 r 0 5) (pos 0);
  banned = read_or as_bool (read_int 1 r 0 6) s.banned;
  ban_on_request = read_or as_bool (read_int 1 r 0 7) s.ban_on_request;
  ban_length = read_or (signed 32) (read_int 4 r 0 8) s.ban_length;
}

module _ (env : Env) (apis : Apis) where
  -- the first switch: the query that looks the song up
  unfoldable pub find_song : Song → M DbResult
  find_song s = elim s.source [
    | soundcloud ↦
        query env sql_get_song_link
          ((fill_chars (Soundcloud.strip_soundcloud_link apis.engine s.link)).0 ∷ [])
    | other ↦
        query env sql_get_song_tid
          ((fill_chars s.track_id).0 ∷ (fill_int 2 (source_index other)).0 ∷ [])
  ]

  -- the second switch: the site that hosts the song
  unfoldable pub fetch_song : Song → M (Outcome (Bool × Song))
  fetch_song s = elim s.source [
    | youtube ↦
        Youtube.retrieve_video_data env apis.engine apis.get_time apis.youtube_data apis.youtube_key
          s (codes "CZ")
    | soundcloud ↦
        Soundcloud.retrieve_song_data env apis.engine apis.soundcloud_data apis.soundcloud_id s
    | vimeo ↦ Vimeo.retrieve_video_data env apis.get_time apis.vimeo_data apis.vimeo_token s
  ]

  -- the rest of get_song: a song with a name is saved
  unfoldable pub save_song : Song → M (Bool × Song)
  save_song s = do
    result ← query env sql_insert_song (
        (fill_int 2 (source_index s.source)).0
        ∷ (fill_chars s.name).0
        ∷ (fill_chars s.track_id).0
        ∷ (fill_int 2 (pattern_of 16 s.length)).0
        ∷ (fill_int 1 0).0
        ∷ (fill_int 1 0).0
        ∷ (fill_int 4 0).0
        ∷ [])
    if is_ok result
        then pure (true, record s { id = read_or (signed 64) (read_int 8 result 0 0) s.id })
        else pure (false, s)

  abbrev is_empty : Bytes → Bool
  is_empty [] = true
  is_empty (c ∷ cs) = false

  -- what get_song does with what the site gave
  unfoldable pub store_fetched : Outcome (Bool × Song) → M (Outcome (Bool × Song))
  unfolding save_song
  store_fetched (done (false, s)) = pure (done (false, s))
  store_fetched (done (true, s)) =
      if is_empty s.name
      then pure (done (false, record s { error = does_not_exist }))
      else do saved ← save_song s; pure (done saved)
  store_fetched aborted = pure aborted
  store_fetched threw = pure threw
  store_fetched faulted = pure faulted

  unfoldable pub get_parsed : Song → M (Outcome (Bool × Song))
  unfolding find_song fill_song fetch_song store_fetched
  get_parsed s = do
    result ← find_song s
    if ltb 0 result.row_count
        then pure (done (true, fill_song s result))
        else do fetched ← fetch_song s; store_fetched fetched

  -- get_song(item, s); an exception of a parser leaves it
  unfoldable pub get_song : Bytes → Song → M (Outcome (Bool × Song))
  unfolding get_parsed
  get_song link s = elim (parse_link apis.engine link s) [
    | undefined ↦ pure faulted
    | defined s' ↦ get_parsed s'
  ]
