-- ===== src/SongRequest/Provider/Worker/Rows.antt =====
-- What the worker puts into the queue in the database when it serves a request.
use ash_bot.Prelude.{◌≡◌, refl, inl, List, arith}
use ash_bot.Prelude.Int.{ℤ}
use ash_bot.World.{Env, Event}
use ash_bot.SongRequest.Fetch.{Apis}
use ash_bot.SongRequest.Provider.{
  Provider, SongRequestItem, SongRequestAction, new_song_action, current_song_action,
  skip_song_action, reset_songs_action,
}
use ash_bot.SongRequest.Provider.Request.{
  current_song, skip_song, reset_songs, notify_song_list_change,
}
use ash_bot.SongRequest.Provider.Request.Rows.{inserted, Inserts, request_song-Inserts}
use ash_bot.SongRequest.Provider.Worker.{serve_item}

module _ (env : Env) (apis : Apis) (garbage : ℤ) where
  current_song-inserted :
      (p : Provider) (item : SongRequestItem) (h : List Event)
      → inserted (current_song env p item h).1 ≡ inserted h
  unfolding current_song
  current_song-inserted p item h = ground arith

  -- Serving a request inserts at most one row, which is for the user of the request.
  pub serve_item-Inserts :
      (action : SongRequestAction) (p : Provider) (item : SongRequestItem) (h : List Event)
      → Inserts item h (serve_item env apis garbage action p item h).1
  unfolding serve_item skip_song reset_songs notify_song_list_change
  serve_item-Inserts new_song_action p item h = request_song-Inserts env apis garbage p item h
  serve_item-Inserts current_song_action p item h = inl (current_song-inserted p item h)
  serve_item-Inserts skip_song_action p item h = inl refl
  serve_item-Inserts reset_songs_action p item h = inl refl
  serve_item-Inserts _ p item h = inl refl
