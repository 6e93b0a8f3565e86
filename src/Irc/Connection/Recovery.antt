-- ===== src/Irc/Connection/Recovery.antt =====
-- irc_connection: what is done when a read fails, and at the end.
use ash_bot.Prelude.{
  ℕ, suc, ◌<◌, ◌≡◌, refl, Bool, true, false, Option, none, some, Bytes, take, if◌then◌else◌,
}
use ash_bot.Irc.Connection.{Connection, connect, disconnect}
use ash_bot.Irc.Connection.Attempts.{connect-first}

pub reconnect : ℕ → Option ℕ → (ℕ → Bool) → Connection → Option (Bool × Connection)
reconnect fuel endpoints connects s = connect fuel endpoints connects (disconnect s)

-- line_read with an error, which is that of an aborted operation or another one
pub read_failed : Bool → ℕ → Option ℕ → (ℕ → Bool) → Connection → Option Connection
unfolding reconnect
read_failed aborted fuel endpoints connects s =
    if aborted
    then some s
    else elim (reconnect fuel endpoints connects s) [ none ↦ none | some (ok, s') ↦ some s' ]

-- stop; the timer, which it cancels, is not part of the state
pub stop : Connection → Connection
stop s = if s.connected then disconnect s else s

-- write_hardcoded_line: what is written
pub write_hardcoded_line : Bytes → ℕ → Bytes
write_hardcoded_line line size = take size line

-- When a read fails on a connection, it is connected again after the first attempt that succeeds, and
-- is not registered: nothing of the earlier registration is left.
pub read_failed_lem :
    (endpoints k : ℕ) (connects : ℕ → Bool) (s : Connection)
    → s.connected ≡ true
    → ((j : ℕ) → j < k → connects j ≡ false)
    → connects k ≡ true
    → read_failed false (suc k) (some (suc endpoints)) connects s
      ≡ some (record s { connected = true; registered = false })
unfolding read_failed reconnect disconnect
read_failed_lem endpoints k connects s up fails ok =
    let closed : Connection = record s { connected = false; registered = false } in
    rw (up, read_failed, disconnect, connect-first endpoints connects closed k refl fails ok) refl
