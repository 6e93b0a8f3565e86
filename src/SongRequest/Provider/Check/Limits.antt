-- ===== src/SongRequest/Provider/Check/Limits.antt =====
-- What the checks of a request come to: the limits on the queue are read off bigint columns as
-- `int` values.
use ash_bot.Prelude.{
  ℕ, suc, ◌^◌, ◌<◌, ◌≡◌, true, false, not, ◌&&◌, some, List, [], ◌∷◌, ◌++◌, Bytes, arith,
}
use ash_bot.Prelude.Int.{pos}
use ash_bot.Db.Params.{fill_chars}
use ash_bot.Db.Results.{db_result, status_ok, is_ok}
use ash_bot.Db.Results.Counts.{sent, read_int-half}
use ash_bot.World.{Event, queried, Env}
use ash_bot.SubManager.{has_row}
use ash_bot.SongRequest.Provider.{Provider, SongRequestItem}
use ash_bot.SongRequest.Provider.Check.{
  sql_user_banned, sql_queue_count, sql_get_user_song_count, read_count, is_user_banned,
  is_queue_full, user_can_add_more_songs, request_song_check,
}

-- A query for a count succeeds with `n`, in a column of eight bytes.
pub record Counts (env : Env) (h : List Event) (n : ℕ) : Type 0 where
  pub succeeds : status_ok (env.result h).status ≡ true
  pub small : n < 2 ^ 32
  pub rest : Bytes
  pub bigint : (env.result h).getvalue 0 0 ≡ some (sent 8 n ++ rest)

read_count-Counts :
    (env : Env) (h : List Event) (n : ℕ)
    → Counts env h n
    → read_count (db_result (env.result h)) ≡ some (pos 0)
read_count-Counts env h n c =
    rw (c.succeeds, read_int-half (db_result (env.result h)) n c.rest 0 0 c.small c.bigint)

module _ (env : Env) (p : Provider) (item : SongRequestItem) (h : List Event) (n : ℕ) where
  -- However many songs below 2 ^ 32 are in the queue, a queue that has room for one is never full.
  pub is_queue_full-never :
      {capacity : ℕ}
      → p.queue_capacity ≡ pos (suc capacity)
      → Counts env (queried sql_queue_count [] ∷ h) n
      → (is_queue_full env p h).0 ≡ false
  unfolding is_queue_full
  is_queue_full-never room c =
      rw (read_count-Counts env (queried sql_queue_count [] ∷ h) n c, is_queue_full, room)
        (ground arith)

  -- However many songs a user has in the queue, it may add more, if every limit is at least one.
  pub user_can_add_more_songs-always :
      {mods subs regulars plebs : ℕ}
      → p.songs_per_mod ≡ pos (suc mods)
      → p.songs_per_sub ≡ pos (suc subs)
      → p.songs_per_regular ≡ pos (suc regulars)
      → p.songs_per_pleb ≡ pos (suc plebs)
      → Counts env
          (queried sql_get_user_song_count ((fill_chars item.requested_by.username).0 ∷ []) ∷ h)
          n
      → (user_can_add_more_songs env p item h).0 ≡ true
  unfolding user_can_add_more_songs
  user_can_add_more_songs-always m s r l c =
      rw (read_count-Counts env _ n c, user_can_add_more_songs, m, s, r, l) (ground arith)

-- What the checks come to in a request's check.
request_song_check-checks :
    (env : Env) (p : Provider) (item : SongRequestItem) (h : List Event)
    → let user = item.requested_by in
      let banned = is_user_banned env user.username h in
      let full = is_queue_full env p banned.1 in
      (request_song_check env p item h).0 ≡ (
        p.enabled
        && not (p.sub_only && (not user.subscriber && not user.moderator))
        && not banned.0
        && not full.0)
unfolding request_song_check
request_song_check-checks env p item h = ground arith

-- The history with the query whether a user is banned from requests.
abbrev pub ban_asked : SongRequestItem → List Event → List Event
ban_asked item h = queried sql_user_banned ((fill_chars item.requested_by.username).0 ∷ []) ∷ h

is_user_banned_lem :
    (env : Env) (item : SongRequestItem) (h : List Event)
    → let result = db_result (env.result (ban_asked item h)) in
      is_user_banned env item.requested_by.username h
      ≡ (is_ok result && has_row result, ban_asked item h)
unfolding is_user_banned
is_user_banned_lem env item h = ground arith

-- If the queue has room for at least one song, and the database counts fewer than 2 ^ 32 songs in it, in
-- a bigint column, a request passes its check exactly if requests are on, they are open to its user,
-- and the database does not say that the user is banned from them. Neither how many songs are in the
-- queue nor how many of them are the user's makes a difference.
pub request_song_check-unlimited :
    (env : Env) (p : Provider) (item : SongRequestItem) (h : List Event) (n capacity : ℕ)
    → p.queue_capacity ≡ pos (suc capacity)
    → Counts env (queried sql_queue_count [] ∷ ban_asked item h) n
    → let user = item.requested_by in
      let banned = db_result (env.result (ban_asked item h)) in
      (request_song_check env p item h).0 ≡ (
        p.enabled
        && not (p.sub_only && (not user.subscriber && not user.moderator))
        && not (is_ok banned && has_row banned))
request_song_check-unlimited env p item h n capacity room counts =
    let ban = is_user_banned_lem env item h in
    let full : (is_queue_full env p (is_user_banned env item.requested_by.username h).1).0 ≡ false =
      rw ban (is_queue_full-never env p item (ban_asked item h) n room counts) in
    ground (arith, request_song_check-checks env p item h, ban, full)
