-- ===== src/SongRequest/Provider/Status.antt =====
-- songrequest_provider::song_state_change: the status that the player reports.
pub mod Reported
use ash_bot.Prelude.{ℕ, Bool, not, Option, none, some, [], ◌∷◌, Bytes, String, ◌==◌, if◌then◌else◌}
use ash_bot.Prelude.Int.{ℤ, negsuc, eqb_ℤ, pattern_of}
use ash_bot.Db.Results.{DbResult, is_ok, read_int, read_string}
use ash_bot.Db.Params.{fill_int}
use ash_bot.World.{Env, M, ◌>>=◌, pure, query}
use ash_bot.SongRequest.Song.{Song, Source, youtube, soundcloud, vimeo, get_standardized_link}
use ash_bot.SongRequest.Fetch.{read_or}
use ash_bot.SongRequest.Provider.{Provider}

-- The literals are joined with no space between them.
abbrev pub sql_get_song : String
sql_get_song =
    "SELECT s.name, u.username, s.source, s.link, s.track_idFROM song_requests srINNER JOIN songs s ON sr.song_id = s.idINNER JOIN users u ON sr.user_id = u.idWHERE sr.id = $1::bigint"

abbrev source_of : ℕ → Source → Source
source_of v old =
    if v == 0 then youtube else if v == 1 then soundcloud else if v == 2 then vimeo else old

abbrev pub text_or : Option Bytes → Bytes → Bytes
text_or none old = old
text_or (some s) old = s

-- The columns that song_state_change reads.
unfoldable pub read_status : DbResult → Song → Song
read_status r s = record s {
  name = text_or (read_string r 0 0) s.name;
  source = read_or (λ v. source_of v s.source) (read_int 2 r 0 2) s.source;
  link = text_or (read_string r 0 3) s.link;
  track_id = text_or (read_string r 0 4) s.track_id;
}

unfoldable pub song_state_change : Env → ℤ → Bool → Provider → M Provider
unfolding read_status
song_state_change env request_id is_playing p = if eqb_ℤ request_id (negsuc 0) then pure p else do
  let told = record p.status { is_playing = is_playing; request_id = request_id }
  result ← query env sql_get_song ((fill_int 8 (pattern_of 64 request_id)).0 ∷ [])
  let s = read_status result told.song
  let known = record told {
    song = s;
    requested_by = text_or (read_string result 0 1) told.requested_by;
    std_link = get_standardized_link s;
  }
  if not (is_ok result)
      then pure (record p { status = told })
      else pure (record p { status = known })
