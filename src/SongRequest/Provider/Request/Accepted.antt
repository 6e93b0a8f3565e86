-- ===== src/SongRequest/Provider/Request/Accepted.antt =====
-- Which requests for songs come into the queue of the database, and with which row.
use ash_bot.Prelude.{
  ◌≡◌, refl, ◌∙◌, ap, Bool, true, false, List, ◌∷◌, Bytes, if◌then◌else◌, Bool-cases, inl, inr,
}
use ash_bot.Prelude.Int.{ℤ}
use ash_bot.Outcome.{Outcome, done, aborted, threw, faulted}
use ash_bot.World.{Env, Event}
use ash_bot.SongRequest.Song.{Song, new_song}
use ash_bot.SongRequest.Fetch.{Apis, get_song}
use ash_bot.SongRequest.Provider.{Provider, SongRequestItem}
use ash_bot.SongRequest.Provider.Check.{request_song_check}
use ash_bot.SongRequest.Provider.Request.{answer_request, request_song}
use ash_bot.SongRequest.Provider.Request.Inserts.{is_accepted}
use ash_bot.SongRequest.Provider.Request.Rows.{
  inserted, row_of, queue_song-inserted, check-inserted, report_error-inserted, get_song-inserted,
}

module _ (env : Env) (p : Provider) (item : SongRequestItem) where
  -- The rows after a request, by whether get_song found its song.
  abbrev pub rows_with : Outcome (Bool × Song) → List Event → List (List Bytes) → List (List Bytes)
  rows_with (done (true, s)) h rows =
      if is_accepted env p s h then row_of env p item s h ∷ rows else rows
  rows_with (done (false, s)) h rows = rows
  rows_with aborted h rows = rows
  rows_with threw h rows = rows
  rows_with faulted h rows = rows

  answer_request-inserted :
      (got : Outcome (Bool × Song)) (h : List Event)
      → inserted (answer_request env p item got h).1 ≡ rows_with got h (inserted h)
  unfolding answer_request
  answer_request-inserted (done (true, s)) h = queue_song-inserted env p item s h
  answer_request-inserted (done (false, s)) h = report_error-inserted env p item s h
  answer_request-inserted aborted h = refl
  answer_request-inserted threw h = refl
  answer_request-inserted faulted h = refl

  -- A request for a song inserts at most one row, and exactly if request_song_check lets it through,
  -- get_song finds its song, the song is short enough and not banned, no active request has it, and both
  -- queries before the insertion succeed; the row has the numbers of the song, of the user of the
  -- request, and of the next place.
  pub request_song-inserted :
      (apis : Apis) (garbage : ℤ) (h : List Event)
      → let checked = request_song_check env p item h in
        let got = get_song env apis item.link (new_song garbage garbage) checked.1 in
        inserted (request_song env apis garbage p item h).1
        ≡ (if checked.0 then rows_with got.0 got.1 (inserted h) else inserted h)
  unfolding request_song
  request_song-inserted apis garbage h =
      let checked = request_song_check env p item h in
      let got = get_song env apis item.link (new_song garbage garbage) checked.1 in
      let before : inserted got.1 ≡ inserted h =
        get_song-inserted env apis item.link (new_song garbage garbage) checked.1
        ∙ check-inserted env p item h in
      elim (Bool-cases checked.0) [
        | inr e ↦ rw (e, request_song) (check-inserted env p item h)
        | inl e ↦
            rw (e, request_song)
              (answer_request-inserted got.0 got.1 ∙ ap (rows_with got.0 got.1) before)
      ]
