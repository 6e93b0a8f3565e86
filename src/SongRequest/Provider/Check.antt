-- ===== src/SongRequest/Provider/Check.antt =====
-- songrequest_provider::request_song_check and the three checks that it makes.
pub mod Limits
use ash_bot.Prelude.{
  ℕ, Bool, true, false, not, ◌||◌, ◌&&◌, Option, none, some, List, [], ◌∷◌, Bytes, String, ltb,
  if◌then◌else◌,
}
use ash_bot.Prelude.Int.{ℤ, pos, signed, leb_ℤ, ltb_ℤ}
use ash_bot.Db.Results.{DbResult, is_ok, read_int}
use ash_bot.Db.Params.{fill_chars}
use ash_bot.World.{object, Env, M, ◌>>=◌, ◌>>◌, pure, say, query}
use ash_bot.SubManager.{has_row, is_regular}
use ash_bot.SongRequest.Provider.{Provider, SongRequestItem}

abbrev pub sql_user_banned : String
sql_user_banned = "SELECT 1 FROM users WHERE username = $1::varchar AND sr_ban = TRUE;"

abbrev pub sql_queue_count : String
sql_queue_count = "SELECT COUNT(*) FROM active_song_requests;"

abbrev pub sql_get_user_song_count : String
sql_get_user_song_count = "SELECT COUNT(*) FROM active_song_requests WHERE username = $1::varchar;"

-- `!result || !result.read_column<int>(count, 0, 0)`: `none` where either fails.
abbrev pub read_count : DbResult → Option ℤ
read_count r =
    if is_ok r then elim (read_int 4 r 0 0) [ none ↦ none | some v ↦ some (signed 32 v) ] else none

module _ (env : Env) where
  unfoldable pub is_user_banned : Bytes → M Bool
  is_user_banned name = do
    result ← query env sql_user_banned ((fill_chars name).0 ∷ [])
    if not (is_ok result) then pure false else pure (has_row result)

  unfoldable pub is_queue_full : Provider → M Bool
  is_queue_full p = do
    result ← query env sql_queue_count []
    elim (read_count result) [
      | none ↦ pure false
      | some song_count ↦ pure (leb_ℤ p.queue_capacity song_count)
    ]

  unfoldable pub user_can_add_more_songs : Provider → SongRequestItem → M Bool
  user_can_add_more_songs p item = do
    result ← query env sql_get_user_song_count ((fill_chars item.requested_by.username).0 ∷ [])
    elim (read_count result) [
      | none ↦ pure true
      | some existing ↦
          if item.requested_by.moderator
          then pure (ltb_ℤ existing p.songs_per_mod)
          else if item.requested_by.subscriber
          then pure (ltb_ℤ existing p.songs_per_sub)
          else do
            regular ← is_regular env item.requested_by.username false
            if regular
                then pure (ltb_ℤ existing p.songs_per_regular)
                else pure (ltb_ℤ existing p.songs_per_pleb)
    ]

  unfoldable pub request_song_check : Provider → SongRequestItem → M Bool
  unfolding is_user_banned is_queue_full user_can_add_more_songs
  request_song_check p item =
      let user = item.requested_by in
      if not p.enabled
      then pure false
      else if p.sub_only && (not user.subscriber && not user.moderator)
      then pure false
      else do
        banned ← is_user_banned user.username
        if banned
            then (do
              say "Sorry, %s, you're banned from requesting songs." (object ∷ [])
              pure false)
            else do
              full ← is_queue_full p
              if full
                  then (do
                    say "Sorry, %s, the song request queue is full." (object ∷ [])
                    pure false)
                  else do
                    more ← user_can_add_more_songs p item
                    if more then pure true else (do
                      say "Sorry, %s, you already have %i songs in the queue." (object ∷ [])
                      pure true)
