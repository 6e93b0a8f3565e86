-- ===== src/Irc/Connection.antt =====
-- source/irc/irc_connection.cpp: the connection to the server. A time is a count of nanoseconds of
-- the steady clock; what is written to the socket is a result, and the socket itself is left out.
pub mod Attempts
pub mod Lines
pub mod Ping
pub mod Buffers
pub mod Writes
pub mod Recovery
use ash_bot.Prelude.{
  ℕ, zero, suc, ◌+◌, ◌-◌, ◌/◌, ◌^◌, Bool, true, false, not, ◌&&◌, Option, none, some, List, [], ◌∷◌,
  ◌++◌, Bytes, codes, length, take, drop, ltb, leb, starts_with, break_at, ◌==◌, if◌then◌else◌,
}
use ash_bot.Prelude.Int.{ℤ, pos, eqb_ℤ}
use ash_bot.Prelude.Strtol.{strtol}
use ash_bot.Partial.{Partial, defined, undefined, ◌>>=◌}
use ash_bot.Db.Results.{string_buffer_size, c_str}
use ash_bot.CcQueue.{CcQueue}
use ash_bot.ObjectCache.{Cache, empty_cache, get_block, release_block}

pub record Connection : Type 0 where
  pub connected : Bool
  pub registered : Bool
  pub last_ping_sent : ℕ
  pub last_pong_received : ℕ
  pub line_pool : Cache

-- the constructor, at the time `now`
unfoldable pub new_connection : ℕ → Connection
new_connection now = record {
  connected = false;
  registered = false;
  last_ping_sent = now;
  last_pong_received = now;
  line_pool = empty_cache;
}

abbrev pub ping_timeout : ℕ
ping_timeout = 300

abbrev pub ping_interval : ℕ
ping_interval = 150

-- The loop of connect over the endpoints: `connects i` is whether attempt `i` succeeds. The iterator
-- is not moved, so that every attempt is at the first endpoint. `none` is a loop that goes on.
pub connect_loop : ℕ → (ℕ → Bool) → ℕ → Option Bool
connect_loop zero connects i = none
connect_loop (suc fuel) connects i =
    let later = connect_loop fuel connects (suc i) in if connects i then some true else later

-- connect: the number of endpoints, or `none` where the name is not resolved
pub connect : ℕ → Option ℕ → (ℕ → Bool) → Connection → Option (Bool × Connection)
unfolding connect_loop
connect fuel endpoints connects s = elim s.connected [
  | true ↦ some (false, s)
  | false ↦ elim endpoints [
    | none ↦ some (false, s)
    | some zero ↦ some (false, s)
    | some (suc n) ↦ elim (connect_loop fuel connects 0) [
      | none ↦ none
      | some ok ↦ some (ok, record s { connected = ok })
    ]
  ]
]

unfoldable pub disconnect : Connection → Connection
disconnect s = if s.connected then record s { connected = false; registered = false } else s

-- What check_ping does at the time `now`: whether it writes a PING.
unfoldable pub check_ping : ℕ → Connection → Bool
check_ping now s =
    let sent = (now - s.last_ping_sent) / 10 ^ 9 in
    let received = (now - s.last_pong_received) / 10 ^ 9 in
    if not s.registered
    then false
    else if ltb sent ping_timeout
    then if ltb s.last_pong_received s.last_ping_sent then false else ltb ping_interval received
    else false

-- the handler of the PING that was written
pub ping_written : ℕ → Connection → Connection
ping_written now s = record s { last_ping_sent = now }

-- get_line: what is put into the buffer from `index` on, and what is left to read. The buffer
-- overflows where a byte or the terminator is past its end, also on an input without an end of
-- line, whose EOF is stored again and again.
unfoldable pub get_line_from : ℕ → Bytes → Partial (Bytes × Bytes)
get_line_from index [] = undefined
get_line_from index (c ∷ s) =
    let later = get_line_from (suc index) s in
    if not (ltb index string_buffer_size)
    then undefined
    else if c == 13 && starts_with (10 ∷ []) s
    then defined ([], drop 1 s)
    else later >>= λ r. defined (c ∷ r.0, r.1)

pub get_line : Bytes → Partial (Bytes × Bytes)
unfolding get_line_from
get_line = get_line_from 0

-- strchr(pRawLine, ' ') + 1 where the line starts with a colon
abbrev pub after_source : Bytes → Partial Bytes
after_source [] = defined []
after_source (c ∷ s) =
    if c == b':'
    then elim (break_at (λ c. c == b' ') s) [
      | none ↦ undefined
      | some (before, here) ↦ defined (drop 1 here)
    ]
    else defined (c ∷ s)

abbrev starts_blank : Bytes → Bool
starts_blank = starts_with (b' ' ∷ [])

abbrev pub logs_in : Bytes → Connection → Bool
logs_in line s =
    let parsed = strtol 32 line in
    not s.registered && (starts_blank parsed.end && eqb_ℤ parsed.value (pos 1))

abbrev pub note_pong : Bool → ℕ → Connection → Connection
note_pong pong now s = if pong then record s { last_pong_received = now } else s

abbrev pub note_login : Bool → Connection → Connection
note_login logged_in s = if logged_in then record s { registered = true } else s

-- parse_line: whether ev_logged_in is called, and the state
pub parse_line : ℕ → Bytes → Connection → Partial (Bool × Connection)
parse_line now raw s = do
  line ← after_source raw
  defined (
    logs_in line s,
    note_pong (starts_with (codes "PONG ") line) now (note_login (logs_in line s) s),
  )

abbrev pub data_size_of : Bytes → Option ℕ → ℕ
data_size_of line none = length line
data_size_of line (some n) = n

module _ (queue : CcQueue ℕ) where
  abbrev pub get_line_buffer : Connection → ℕ × Connection
  get_line_buffer s =
      let (block, pool) = get_block queue s.line_pool in (block, record s { line_pool = pool })

  abbrev pub release_line_buffer : ℕ → Connection → Connection
  release_line_buffer block s = record s { line_pool = release_block queue block s.line_pool }

  -- write_line, with the buffer `block` that holds the line, and its length, or `none` for -1:
  -- the bytes that are written, once they are
  unfoldable pub write_line :
      ℕ → Bytes → Option ℕ → Connection → Partial (Option Bytes × Connection)
  write_line block line given s =
      let data_size = data_size_of line given in
      if not s.connected
      then defined (none, s)
      else if ltb string_buffer_size (data_size + 2)
      then undefined
      else defined (some (take data_size line ++ 13 ∷ 10 ∷ []), release_line_buffer block s)

  -- line_read without an error: the line, whether it logs in, the rest of the input and the state.
  -- ev_line_read, which is given the line, is the caller's.
  pub line_read : ℕ → Bytes → Connection → Partial ((Bytes × Bool × Bytes) × Connection)
  unfolding get_line parse_line
  line_read now input s = do
    let (block, s0) = get_line_buffer s
    (buffer, rest) ← get_line input
    let line = c_str buffer
    (logged_in, s1) ← parse_line now line s0
    defined ((line, logged_in, rest), release_line_buffer block s1)
