-- ===== src/Irc/Connection/Ping.antt =====
-- When check_ping writes a PING, over a run of the timer and of the lines that are read.
use ash_bot.Prelude.{
  ℕ, suc, ◌+◌, ◌*◌, ◌^◌, ◌≤◌, ◌<◌, ◌≡◌, refl, Bool, false, List, [], ◌∷◌, Bytes, if◌then◌else◌,
  arith,
}
use ash_bot.Partial.{Partial, defined, ◌>>=◌, Holds, Holds-bind}
use ash_bot.Irc.Connection.{Connection, check_ping, ping_written, parse_line}
use ash_bot.Irc.Connection.Buffers.{Keeps, parse_line-Keeps}

-- ping_timer_elapsed, and a line that is read, at their times
pub data PingEvent : Type 0 where
  timer : ℕ → PingEvent
  line : ℕ → Bytes → PingEvent

-- The PINGs that are written in a run; each is written at once.
pub ping_run : List PingEvent → Connection → Partial ℕ
ping_run [] s = defined 0
ping_run (timer now ∷ events) s =
    let sent = ping_run events (ping_written now s) in
    let not_sent = ping_run events s in
    if check_ping now s then (sent >>= λ n. defined (suc n)) else not_sent
ping_run (line now raw ∷ events) s = parse_line now raw s >>= λ r. ping_run events r.1

-- The timer elapses only after the timeout of the last PING.
abbrev pub AllLate : ℕ → List PingEvent → Type 0
AllLate last [] = Unit {0}
AllLate last (timer now ∷ events) = (last + 300 * 10 ^ 9 ≤ now) × AllLate last events
AllLate last (line now raw ∷ events) = AllLate last events

check_ping-late :
    (now : ℕ) (s : Connection) → s.last_ping_sent + 300 * 10 ^ 9 ≤ now → check_ping now s ≡ false
unfolding check_ping
check_ping-late now s late = ground arith

-- Once no PING has been sent for the timeout, none is ever sent again, whatever is received.
pub ping_run-late :
    (events : List PingEvent) (s : Connection)
    → AllLate s.last_ping_sent events
    → Holds (λ n. n ≡ 0) (ping_run events s)
unfolding ping_run
ping_run-late [] s late = refl
ping_run-late (timer now ∷ events) s late =
    rw (check_ping-late now s late.0) (ping_run-late events s late.1)
ping_run-late (line now raw ∷ events) s late =
    Holds-bind (λ (r : Bool × Connection). Keeps s r.1) (λ n. n ≡ 0) (parse_line now raw s) _
      (parse_line-Keeps now raw s) (λ r keeps. ping_run-late events r.1 (rw keeps.1 late))

check_ping-early :
    (now : ℕ) (s : Connection)
    → s.last_pong_received ≤ now
    → now < s.last_pong_received + 151 * 10 ^ 9
    → check_ping now s ≡ false
unfolding check_ping
check_ping-early now s after early = ground arith

-- With a timer that elapses within 151 seconds after the start and then only after 300 seconds, no
-- PING is ever sent.
pub ping_run-regular :
    (start first : ℕ) (events : List PingEvent) (s : Connection)
    → s.last_ping_sent ≡ start
    → s.last_pong_received ≡ start
    → start ≤ first
    → first < start + 151 * 10 ^ 9
    → AllLate start events
    → Holds (λ n. n ≡ 0) (ping_run (timer first ∷ events) s)
unfolding ping_run
ping_run-regular start first events s sent received after early late =
    rw (check_ping-early first s (rw received after) (rw received early))
      (ping_run-late events s (rw sent late))
