-- ===== src/Tests/Link.antt =====
-- The connection to the server.
use ash_bot.Prelude.{
  ℕ, ◌*◌, ◌^◌, ◌≡◌, refl, true, false, none, some, List, [], ◌∷◌, ◌++◌, codes, arith,
}
use ash_bot.Partial.{defined, Holds}
use ash_bot.CcQueue.{CcQueue, newest_first}
use ash_bot.ObjectCache.Ownership.{empty_cache-Owned}
use ash_bot.Irc.Connection.{new_connection, connect, get_line}
use ash_bot.Irc.Connection.Lines.{get_line_lem}
use ash_bot.Irc.Connection.Ping.{timer, ping_run, ping_run-regular}
use ash_bot.Irc.Connection.Writes.{
  Link, LinkStep, read, begin_write, written, write_now, reconnected, link_steps, IsSettled,
  link_steps-IsSettled,
}
use ash_bot.Irc.Connection.Attempts.{connect-endless}

abbrev lines : CcQueue ℕ
lines = newest_first

abbrev seconds : ℕ → ℕ
seconds n = n * 10 ^ 9

get_line_example :
    get_line (codes "PING :a" ++ 13 ∷ 10 ∷ codes "PING :b")
    ≡ defined (codes "PING :a", codes "PING :b")
get_line_example = get_line_lem (codes "PING :a") (codes "PING :b") refl

-- Two writes are begun, the handler of the first is called behind a read, and the connection is lost
-- before the next line.
abbrev traffic : List LinkStep
traffic =
    begin_write (codes "PONG :a") none
    ∷ begin_write (codes "PONG :b") none
    ∷ read 5 (codes "PING :a" ++ 13 ∷ 10 ∷ [])
    ∷ written 1
    ∷ reconnected false
    ∷ write_now (codes "PONG :c") none
    ∷ []

abbrev fresh_link : Link
fresh_link = record {
  connection = record (new_connection 0) { connected = true };
  pending = [];
  dropped = [];
}

no_buffers : IsSettled fresh_link
unfolding new_connection
no_buffers = empty_cache-Owned

link_steps-IsSettled_example : Holds IsSettled (link_steps lines traffic fresh_link)
link_steps-IsSettled_example = link_steps-IsSettled lines traffic fresh_link no_buffers

connect-endless_example : connect 100 (some 2) (λ i. false) (new_connection 0) ≡ none
unfolding new_connection
connect-endless_example = connect-endless 1 (λ i. false) (new_connection 0) 100 refl (λ j. refl)

ping_run-regular_example :
    Holds
      (λ n. n ≡ 0)
      (ping_run
        (timer (seconds 150) ∷ timer (seconds 300) ∷ timer (seconds 450) ∷ [])
        (record (new_connection 0) { registered = true }))
unfolding new_connection
ping_run-regular_example =
    ping_run-regular 0 (seconds 150) (timer (seconds 300) ∷ timer (seconds 450) ∷ [])
      (record (new_connection 0) { registered = true }) refl refl (omega arith) (omega arith)
      (omega arith, (omega arith, tt))
