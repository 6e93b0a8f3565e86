-- ===== src/SongRequest/Provider/Worker.antt =====
-- songrequest_provider::request_worker: the thread that serves the requests, as a run over what
-- its waits end with.
pub mod Lifetime
pub mod Rows
use ash_bot.Prelude.{ℕ, Bool, true, false, not, List, [], ◌∷◌, if◌then◌else◌}
use ash_bot.Prelude.Int.{ℤ}
use ash_bot.Outcome.{Outcome, done, aborted, threw, faulted}
use ash_bot.World.{Env, M, ◌>>=◌, ◌>>◌, pure}
use ash_bot.SongRequest.Fetch.{Apis}
use ash_bot.SongRequest.Provider.{
  Provider, SongRequestItem, SongRequestAction, new_song_action, current_song_action,
  skip_song_action, reset_songs_action,
}
use ash_bot.SongRequest.Provider.Request.{request_song, current_song, skip_song, reset_songs}

-- Another thread changes the provider, an item is dequeued, or five seconds pass without one.
pub data Poll : Type 0 where
  changed : Provider → Poll
  dequeued : SongRequestItem → Poll
  timed_out : Poll

-- The thread serves on, has returned, or ended the process: undefined behaviour, or an exception that
-- nothing catches.
pub data WorkerState : Type 0 where
  serving : Provider → WorkerState
  returned crashed : WorkerState

abbrev after_item : Provider → Outcome (Unit {0}) → WorkerState
after_item p (done _) = serving p
after_item p aborted = crashed
after_item p threw = crashed
after_item p faulted = crashed

module _ (env : Env) (apis : Apis) (garbage : ℤ) where
  -- the switch over the action
  unfoldable pub serve_item :
      SongRequestAction → Provider → SongRequestItem → M (Outcome (Unit {0}))
  serve_item new_song_action p item = request_song env apis garbage p item
  serve_item current_song_action p item = do current_song env p item; pure (done tt)
  serve_item skip_song_action p item = do skip_song env p item; pure (done tt)
  serve_item reset_songs_action p item = do reset_songs env; pure (done tt)
  serve_item _ p item = pure (done tt)

  pub worker_step : WorkerState → Poll → M WorkerState
  unfolding serve_item
  worker_step returned poll = pure returned
  worker_step crashed poll = pure crashed
  worker_step (serving p) (changed p') = pure (serving p')
  worker_step (serving p) timed_out = pure (if not p.enabled then returned else serving p)
  worker_step (serving p) (dequeued item) = do
    served ← serve_item item.action p item
    pure (after_item p served)

  pub request_worker : WorkerState → List Poll → M WorkerState
  unfolding worker_step
  request_worker w [] = pure w
  request_worker w (poll ∷ polls) = do w' ← worker_step w poll; request_worker w' polls
