-- ===== src/SongRequest/Provider/Request/Inserts.antt =====
-- What request_song asks of a song before it puts it into the queue.
use ash_bot.Prelude.{Bool, not, ◌&&◌, List, [], ◌∷◌}
use ash_bot.Prelude.Int.{ltb_ℤ, pattern_of}
use ash_bot.Db.Params.{fill_int}
use ash_bot.Db.Results.{db_result, is_ok}
use ash_bot.World.{Event, queried, Env}
use ash_bot.SubManager.{has_row}
use ash_bot.SongRequest.Song.{Song}
use ash_bot.SongRequest.Provider.{Provider}
use ash_bot.SongRequest.Provider.Request.{sql_find_existing_request, sql_get_next_position}

abbrev looked_up : Song → List Event → List Event
looked_up s h = queried sql_find_existing_request ((fill_int 8 (pattern_of 64 s.id)).0 ∷ []) ∷ h

abbrev pub placed : Song → List Event → List Event
placed s h = queried sql_get_next_position [] ∷ looked_up s h

-- The song is short enough and not banned, no active request has it, and the database answers.
abbrev pub is_accepted : Env → Provider → Song → List Event → Bool
is_accepted env p s h =
    let existing = db_result (env.result (looked_up s h)) in
    let next = db_result (env.result (placed s h)) in
    not (ltb_ℤ p.max_song_length s.length)
    && not s.banned
    && is_ok existing
    && not (has_row existing)
    && is_ok next
