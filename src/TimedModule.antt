-- ===== src/TimedModule.antt =====
-- source/modules/bot_module.cpp and channel_context::second_timer_elapsed: modules that a timer of one
-- second calls.
pub mod Counts
use ash_bot.Prelude.{ℕ, zero, suc, ◌+◌, Bool, true, false, List, [], ◌∷◌, map, if◌then◌else◌}
use ash_bot.Prelude.Int.{ℤ, pos, leb_ℤ}

pub record TimedModule : Type 0 where
  pub timer_hit_count : ℕ
  pub timer_interval_seconds : ℤ
  pub async_timer_handler : Bool

-- the constructor
unfoldable pub new_module : ℤ → Bool → TimedModule
new_module interval async = record {
  timer_hit_count = 0;
  timer_interval_seconds = interval;
  async_timer_handler = async;
}

-- How timer_elapsed is called, if it is.
pub data Call : Type 0 where
  not_called called_here queued : Call

-- timer_second_elapsed
pub timer_second_elapsed : TimedModule → Call × TimedModule
timer_second_elapsed m =
    let hits = suc m.timer_hit_count in
    if leb_ℤ m.timer_interval_seconds (pos hits)
    then (if m.async_timer_handler then queued else called_here, record m { timer_hit_count = 0 })
    else (not_called, record m { timer_hit_count = hits })

abbrev pub times : Call → ℕ
times not_called = 0
times called_here = 1
times queued = 1

-- The loop of second_timer_elapsed; how often each module's timer_elapsed was called is kept with it.
pub second_timer_elapsed : List (ℕ × TimedModule) → List (ℕ × TimedModule)
unfolding timer_second_elapsed
second_timer_elapsed [] = []
second_timer_elapsed ((calls, m) ∷ modules) =
    let (call, m') = timer_second_elapsed m in
    (calls + times call, m') ∷ second_timer_elapsed modules

-- that many seconds
pub seconds_elapsed : ℕ → List (ℕ × TimedModule) → List (ℕ × TimedModule)
unfolding second_timer_elapsed
seconds_elapsed zero modules = modules
seconds_elapsed (suc n) modules = second_timer_elapsed (seconds_elapsed n modules)
