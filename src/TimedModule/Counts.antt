-- ===== src/TimedModule/Counts.antt =====
-- How often a module is called.
use ash_bot.Prelude.{
  ℕ, zero, suc, ◌+◌, ◌*◌, ◌<◌, ◌≤◌, ◌≡◌, refl, Bool, true, false, List, [], ◌∷◌, All, Bool-cases,
  inl, inr, leb, if◌then◌else◌, arith,
}
use ash_bot.Prelude.Int.{pos}
use ash_bot.TimedModule.{
  TimedModule, queued, called_here, times, timer_second_elapsed, second_timer_elapsed,
  seconds_elapsed,
}

-- After n seconds, a module with an interval of k seconds was called once for each k of them.
abbrev pub IsCounted : ℕ → ℕ × TimedModule → Type 0
IsCounted n (calls, m) =
    (k : ℕ) × (m.timer_interval_seconds ≡ pos k)
    × (m.timer_hit_count < k)
    × (n ≡ calls * k + m.timer_hit_count)

called_once : (async : Bool) → times (if async then queued else called_here) ≡ 1
called_once true = refl
called_once false = refl

next_call :
    (n calls k hits : ℕ)
    → hits < k
    → k ≤ suc hits
    → n ≡ calls * k + hits
    → suc n ≡ (calls + 1) * k + 0
next_call n calls k hits below reached counted = ground arith

timer_second_elapsed-IsCounted :
    (n calls : ℕ) (m : TimedModule)
    → IsCounted n (calls, m)
    → IsCounted (suc n) (calls + times (timer_second_elapsed m).0, (timer_second_elapsed m).1)
unfolding timer_second_elapsed
timer_second_elapsed-IsCounted n calls m (k, interval, below, counted) =
    elim (Bool-cases (leb k (suc m.timer_hit_count))) [
      | inl e ↦
          rw (interval, timer_second_elapsed, e)
            (
              k,
              refl,
              omega arith,
              rw (called_once m.async_timer_handler)
                  (next_call n calls k m.timer_hit_count below (ground arith) counted),
            )
      | inr e ↦
          rw (interval, timer_second_elapsed, e) (k, refl, ground arith, omega (arith, counted))
    ]

second_timer_elapsed-IsCounted :
    (n : ℕ) (modules : List (ℕ × TimedModule))
    → All (IsCounted n) modules
    → All (IsCounted (suc n)) (second_timer_elapsed modules)
unfolding second_timer_elapsed
second_timer_elapsed-IsCounted n [] h = tt
second_timer_elapsed-IsCounted n ((calls, m) ∷ modules) h =
    (timer_second_elapsed-IsCounted n calls m h.0, second_timer_elapsed-IsCounted n modules h.1)

-- After n seconds, every module with a positive interval was called once for each whole interval
-- among them, and its counter has the seconds that are left; neither counter nor calls drift.
pub seconds_elapsed-IsCounted :
    (n : ℕ) (modules : List (ℕ × TimedModule))
    → All (IsCounted 0) modules
    → All (IsCounted n) (seconds_elapsed n modules)
unfolding seconds_elapsed
seconds_elapsed-IsCounted zero modules h = h
seconds_elapsed-IsCounted (suc n) modules h =
    second_timer_elapsed-IsCounted n (seconds_elapsed n modules)
      (seconds_elapsed-IsCounted n modules h)
