-- ===== src/SongRequest/Provider/Request.antt =====
-- songrequest_provider::request_song, current_song, skip_song and reset_songs.
pub mod Inserts
pub mod Requests
pub mod Rows
pub mod Accepted
use ash_bot.Prelude.{
  ℕ, suc, ◌-◌, ◌/◌, Bool, true, false, not, ◌==◌, Option, none, some, List, [], ◌∷◌, ◌++◌, Bytes,
  String, codes, get_elem?, if◌then◌else◌,
}
use ash_bot.Prelude.Int.{ℤ, pos, negsuc, eqb_ℤ, ltb_ℤ, signed, pattern_of}
use ash_bot.Prelude.Strtol.{negate}
use ash_bot.Outcome.{Outcome, done, aborted, threw, faulted}
use ash_bot.Db.Results.{DbResult, is_ok, read_int}
use ash_bot.Db.Params.{fill_int}
use ash_bot.World.{
  str, int, said_later, Env, HttpResponse, M, ◌>>=◌, ◌>>◌, pure, skip, perform, say, query,
  send_request,
}
use ash_bot.SubManager.{has_row}
use ash_bot.SongRequest.Song.{Song, Error, error_index, new_song}
use ash_bot.SongRequest.Fetch.{Apis, get_song, read_or}
use ash_bot.SongRequest.Provider.{Provider, SongRequestItem}
use ash_bot.SongRequest.Provider.Check.{request_song_check}

abbrev song_errors : List String
song_errors =
    "Sorry, %s, your request could not be processed (site down?)."
    ∷ "Sorry, %s, this video does not exist."
    ∷ "Sorry, %s, this song cannot be played in the streamer's country."
    ∷ "Sorry, %s, this video cannot be embedded."
    ∷ "Sorry, %s, this link is not a track (playlists and other types of links are not supported)."
    ∷ []

-- MSGSTRS_SONG_ERRORS[err - 1], where there is an error.
abbrev pub song_error : Error → Option String
song_error e = if error_index e == 0 then none else get_elem? song_errors (error_index e - 1)

-- duration_cast<minutes>
abbrev minutes : ℤ → ℤ
minutes (pos n) = pos (n / 60)
minutes (negsuc n) = negate (suc n / 60)

abbrev pub sql_find_existing_request : String
sql_find_existing_request =
    "SELECT id FROM active_song_requests WHERE song_id = $1::bigint LIMIT 1;"

abbrev pub sql_get_next_position : String
sql_get_next_position = "SELECT COALESCE(MAX(pos), 0) + 1 FROM active_song_requests;"

abbrev pub sql_insert_new_request : String
sql_insert_new_request =
    "INSERT INTO song_requests(song_id, user_id, pos) VALUES($1::bigint, $2::bigint, $3::bigint) RETURNING id;"

abbrev sql_skip_song : String
sql_skip_song = "SELECT skip_song($1::bigint);"

abbrev sql_reset_songs : String
sql_reset_songs = "UPDATE song_requests SET hidden = TRUE, pos = NULL;"

-- channel_context::timeout_user with a reason
abbrev pub timeout_user : Bytes → ℤ → Bytes → M (Unit {0})
timeout_user name seconds reason =
    perform (said_later 1000 false ".timeout %s %i %s" (str name ∷ int seconds ∷ str reason ∷ []))

module _ (env : Env) where
  unfoldable pub notify_song_list_change : Bool → M (Unit {0})
  notify_song_list_change skip_current = do
    let base = codes "http://192.168.1.115:8085/SongRequest/"
    send_request env
        (base ++ (if skip_current then codes "SkipCurrentSong" else codes "SongListChange"))
        (codes "User-Agent: AshBot v1.x" ∷ []) true
    skip

  -- What request_song does with a song that get_song found: from the check of its length on.
  unfoldable pub queue_song : Provider → SongRequestItem → Song → M (Unit {0})
  unfolding notify_song_list_change
  queue_song p item s =
      let name = item.requested_by.username in
      if ltb_ℤ p.max_song_length s.length
      then say "Sorry, %s, this song is longer than %i minutes."
          (str name ∷ int (minutes p.max_song_length) ∷ [])
      else if s.banned
      then (do
        say "Nice try, %s." (str name ∷ [])
        if s.ban_on_request
            then timeout_user name s.ban_length (codes "Requesting banned song")
            else skip)
      else do
        let song_id = (fill_int 8 (pattern_of 64 s.id)).0
        existing ← query env sql_find_existing_request (song_id ∷ [])
        if not (is_ok existing)
            then skip
            else if has_row existing
            then say "%s, this song is already in the queue." (str name ∷ [])
            else do
              next ← query env sql_get_next_position []
              if not (is_ok next) then skip else do
                let position = read_or (λ v. v) (read_int 8 next 0 0) 0
                inserted ← query env sql_insert_new_request (
                    song_id
                    ∷ (fill_int 8 (pattern_of 64 item.requested_by.id)).0
                    ∷ (fill_int 8 position).0
                    ∷ [])
                if not (is_ok inserted) then skip else do
                  notify_song_list_change false
                  let rid = read_or (signed 64) (read_int 8 inserted 0 0) (pos 0)
                  say "%s, %s has been added to the queue (RID %llu)."
                      (str name ∷ str s.name ∷ int rid ∷ [])

  abbrev pub report_error : SongRequestItem → Song → M (Unit {0})
  report_error item s = elim (song_error s.error) [
    | none ↦ skip
    | some message ↦ say message (str item.requested_by.username ∷ [])
  ]

  -- the rest of request_song(item), where get_song has returned
  unfoldable pub answer_request :
      Provider → SongRequestItem → Outcome (Bool × Song) → M (Outcome (Unit {0}))
  unfolding queue_song
  answer_request p item (done (true, s)) = do queue_song p item s; pure (done tt)
  answer_request p item (done (false, s)) = do report_error item s; pure (done tt)
  answer_request p item aborted = pure aborted
  answer_request p item threw = pure threw
  answer_request p item faulted = pure faulted

  -- request_song(item); `garbage` is what an uninitialised song holds
  unfoldable pub request_song : Apis → ℤ → Provider → SongRequestItem → M (Outcome (Unit {0}))
  unfolding answer_request
  request_song apis garbage p item = do
    checked ← request_song_check env p item
    if not checked then pure (done tt) else do
      got ← get_song env apis item.link (new_song garbage garbage)
      answer_request p item got

  unfoldable pub current_song : Provider → SongRequestItem → M (Unit {0})
  current_song p item =
      if not p.status.is_playing
      then say "Song requests are not playing right now." []
      else say "%s, current song is '%s'. It was requested by %s and its link is %s (RID %lld)" (
          str item.requested_by.username
          ∷ str p.status.song.name
          ∷ str p.status.requested_by
          ∷ str p.status.std_link
          ∷ int p.status.request_id
          ∷ [])

  unfoldable pub skip_song : Provider → SongRequestItem → M (Unit {0})
  skip_song p item = do
    let song_id = if eqb_ℤ item.id (negsuc 0) then p.status.request_id else item.id
    query env sql_skip_song ((fill_int 8 (pattern_of 64 song_id)).0 ∷ [])
    skip

  unfoldable pub reset_songs : M (Unit {0})
  unfolding notify_song_list_change
  reset_songs = do
    query env sql_reset_songs []
    notify_song_list_change false
    say "Song list reset!" []
