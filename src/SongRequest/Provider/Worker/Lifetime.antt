-- ===== src/SongRequest/Provider/Worker/Lifetime.antt =====
-- How long the worker thread serves.
use ash_bot.Prelude.{true, ◌≡◌, ◌≢◌, refl, List, [], ◌∷◌}
use ash_bot.Prelude.Int.{ℤ}
use ash_bot.Outcome.{Outcome, done, aborted, threw, faulted}
use ash_bot.World.{Event, Env}
use ash_bot.SongRequest.Fetch.{Apis}
use ash_bot.SongRequest.Provider.{Provider}
use ash_bot.SongRequest.Provider.Worker.{
  Poll, changed, dequeued, timed_out, serving, returned, crashed, after_item, request_worker,
}

-- Requests stay on in every change that the polls bring.
abbrev pub StaysEnabled : List Poll → Type 0
StaysEnabled [] = Unit {0}
StaysEnabled (changed p ∷ polls) = (p.enabled ≡ true) × StaysEnabled polls
StaysEnabled (dequeued item ∷ polls) = StaysEnabled polls
StaysEnabled (timed_out ∷ polls) = StaysEnabled polls

module _ (env : Env) (apis : Apis) (garbage : ℤ) where
  request_worker-crashed :
      (polls : List Poll) (h : List Event)
      → request_worker env apis garbage crashed polls h ≡ (crashed, h)
  unfolding request_worker
  request_worker-crashed [] h = refl
  request_worker-crashed (poll ∷ polls) h = request_worker-crashed polls h

  after_item-serves :
      (p : Provider) (polls : List Poll)
      → ((h : List Event) → (request_worker env apis garbage (serving p) polls h).0 ≢ returned)
      → (served : Outcome (Unit {0})) (h : List Event)
      → (request_worker env apis garbage (after_item p served) polls h).0 ≢ returned
  after_item-serves p polls later (done _) h = later h
  after_item-serves p polls later aborted h = rw (request_worker-crashed polls h) (λ e. cc)
  after_item-serves p polls later threw h = rw (request_worker-crashed polls h) (λ e. cc)
  after_item-serves p polls later faulted h = rw (request_worker-crashed polls h) (λ e. cc)

  -- While requests are on the worker does not return, however long it waits.
  pub request_worker-enabled :
      (p : Provider) (polls : List Poll) (h : List Event)
      → p.enabled ≡ true
      → StaysEnabled polls
      → (request_worker env apis garbage (serving p) polls h).0 ≢ returned
  unfolding request_worker
  request_worker-enabled p [] h on stays = λ e. cc
  request_worker-enabled p (changed p' ∷ polls) h on (on', stays) =
      request_worker-enabled p' polls h on' stays
  request_worker-enabled p (timed_out ∷ polls) h on stays =
      simp on (request_worker-enabled p polls h on stays)
  request_worker-enabled p (dequeued item ∷ polls) h on stays =
      after_item-serves p polls (λ h'. request_worker-enabled p polls h' on stays) _ _
