-- ===== src/Irc/Connection/Writes.antt =====
-- Writes that are not waited for: the buffer of the line is given back by the handler that is called
-- when the write is complete, and the handlers of several writes may be called in any order.
use mathlib.Core.List.{perm_middle}
use mathlib.Core.List.Perm
use ash_bot.Prelude.{
  ℕ, ◌+◌, Bool, true, false, not, Option, none, some, List, [], ◌∷◌, ◌++◌, Bytes, ltb,
  if◌then◌else◌, Option-cases, Bool-cases, inl, inr, ◌≡◌, refl,
}
use ash_bot.Partial.{Partial, defined, undefined, ◌>>=◌, Holds, Holds-bind, Holds-if}
use ash_bot.CcQueue.{CcQueue}
use ash_bot.Pick.{pick, pick-Perm}
use ash_bot.ObjectCache.{get_block}
use ash_bot.ObjectCache.Ownership.{Owned, Owned-perm, get_block-Owned, release_block-Owned}
use ash_bot.Db.Results.{string_buffer_size}
use ash_bot.Irc.Connection.{
  Connection, disconnect, get_line_buffer, release_line_buffer, write_line, line_read, data_size_of,
}
use ash_bot.Irc.Connection.Buffers.{line_read-Owned, write_line-Owned}

-- `pending` are the buffers of writes that are not complete, `dropped` those of lines that could not
-- be written.
pub record Link : Type 0 where
  pub connection : Connection
  pub pending : List ℕ
  pub dropped : List ℕ

pub data LinkStep : Type 0 where
  -- a line is read, at a time, from this input
  read : ℕ → Bytes → LinkStep
  -- a line with its length is put into a buffer, and its write is begun
  begin_write : Bytes → Option ℕ → LinkStep
  -- the handler of one of the writes is called, with an error or without
  written : ℕ → LinkStep
  -- the same, and waited for
  write_now : Bytes → Option ℕ → LinkStep
  -- the connection is given up, and made again or not
  reconnected : Bool → LinkStep

module _ (queue : CcQueue ℕ) where
  -- write_line with `async`: what it does before the write is complete; the buffer then waits for the
  -- handler, which calls line_written and release_line_buffer
  unfoldable pub begin_line : ℕ → Bytes → Option ℕ → Link → Partial Link
  begin_line block line given s =
      if not s.connection.connected
      then defined (record s { dropped = block ∷ s.dropped })
      else if ltb string_buffer_size (data_size_of line given + 2)
      then undefined
      else defined (record s { pending = block ∷ s.pending })

  unfoldable pub end_line : ℕ → Link → Link
  end_line n s = elim (pick n s.pending) [
    | none ↦ s
    | some (block, rest) ↦ record s {
      connection = release_line_buffer queue block s.connection;
      pending = rest;
    }
  ]

  pub link_step : LinkStep → Link → Partial Link
  unfolding begin_line end_line
  link_step (read now input) s = do
    (r, connection) ← line_read queue now input s.connection
    defined (record s { connection = connection })
  link_step (begin_write line given) s =
      let (block, connection) = get_line_buffer queue s.connection in
      begin_line block line given (record s { connection = connection })
  link_step (written n) s = defined (end_line n s)
  link_step (write_now line given) s =
      let (block, taken) = get_line_buffer queue s.connection in
      do
        (out, connection) ← write_line queue block line given taken
        defined (record s {
          connection = connection;
          dropped = if s.connection.connected then s.dropped else block ∷ s.dropped;
        })
  link_step (reconnected ok) s =
      defined (record s { connection = record (disconnect s.connection) { connected = ok } })

  pub link_steps : List LinkStep → Link → Partial Link
  unfolding link_step
  link_steps [] s = defined s
  link_steps (step ∷ steps) s = do s' ← link_step step s; link_steps steps s'

-- All buffers there are: in a write, dropped, or free, each once.
abbrev pub IsSettled : Link → Type 0
IsSettled s = Owned (s.pending ++ s.dropped) s.connection.line_pool

module _ (queue : CcQueue ℕ) where
  begin_line-IsSettled :
      (block : ℕ) (line : Bytes) (given : Option ℕ) (s : Link)
      → Owned (block ∷ s.pending ++ s.dropped) s.connection.line_pool
      → Holds IsSettled (begin_line queue block line given s)
  unfolding begin_line
  begin_line-IsSettled block line given s o =
      let begun : Link = record s { pending = block ∷ s.pending } in
      let too_long = ltb string_buffer_size (data_size_of line given + 2) in
      Holds-if IsSettled (not s.connection.connected)
        (defined (record s { dropped = block ∷ s.dropped }))
        (if too_long then undefined else defined begun)
        (λ _. Owned-perm (Perm.symm (perm_middle s.pending s.dropped)) o)
        (λ _. Holds-if IsSettled too_long undefined (defined begun) (λ _. tt) (λ _. o))

  end_line-IsSettled : (n : ℕ) (s : Link) → IsSettled s → IsSettled (end_line queue n s)
  unfolding end_line
  end_line-IsSettled n s o = elim (Option-cases (pick n s.pending)) [
    | inl e ↦ rw (e, end_line) o
    | inr ((block, rest), e) ↦
        rw (e, end_line)
          (release_block-Owned queue block (rest ++ s.dropped) s.connection.line_pool
            (Owned-perm (Perm.append_right s.dropped (pick-Perm n s.pending block rest e)) o))
  ]

  write_now-IsSettled :
      (line : Bytes) (given : Option ℕ) (s : Link)
      → IsSettled s
      → Holds IsSettled (link_step queue (write_now line given) s)
  unfolding link_step
  write_now-IsSettled line given s o =
      let taken = get_block queue s.connection.line_pool in
      let before : Connection = record s.connection { line_pool = taken.1 } in
      let held = s.pending ++ s.dropped in
      Holds-bind
        (λ (r : Option Bytes × Connection).
          Owned (if s.connection.connected then held else taken.0 ∷ held) r.1.line_pool)
        IsSettled (write_line queue taken.0 line given before) _
        (write_line-Owned queue taken.0 line given held before
          (get_block-Owned queue held s.connection.line_pool o))
        (λ r o'. kept taken.0 r.1 s.connection.connected o')
    where
      kept :
          (block : ℕ) (c : Connection) (up : Bool)
          → Owned
              (if up then s.pending ++ s.dropped else block ∷ s.pending ++ s.dropped)
              c.line_pool
          → IsSettled (record {
            connection = c;
            pending = s.pending;
            dropped = if up then s.dropped else block ∷ s.dropped;
          })
      kept block c true k = k
      kept block c false k = Owned-perm (Perm.symm (perm_middle s.pending s.dropped)) k

  line_pool-disconnect : (c : Connection) → (disconnect c).line_pool ≡ c.line_pool
  unfolding disconnect
  line_pool-disconnect c = elim (Bool-cases c.connected) [
    | inl up ↦ rw (up, disconnect) refl
    | inr down ↦ rw (down, disconnect) refl
  ]

  link_step-IsSettled :
      (step : LinkStep) (s : Link) → IsSettled s → Holds IsSettled (link_step queue step s)
  unfolding link_step
  link_step-IsSettled (read now input) s o =
      Holds-bind
        (λ (r : (Bytes × Bool × Bytes) × Connection). Owned (s.pending ++ s.dropped) r.1.line_pool)
        IsSettled (line_read queue now input s.connection) _
        (line_read-Owned queue now input (s.pending ++ s.dropped) s.connection o) (λ r k. k)
  link_step-IsSettled (begin_write line given) s o =
      begin_line-IsSettled _ line given _
        (get_block-Owned queue (s.pending ++ s.dropped) s.connection.line_pool o)
  link_step-IsSettled (written n) s o = end_line-IsSettled n s o
  link_step-IsSettled (write_now line given) s o = write_now-IsSettled line given s o
  link_step-IsSettled (reconnected ok) s o = rw (line_pool-disconnect s.connection) o

  -- However reads, writes that are waited for or not, the handlers of the writes and losses of the
  -- connection interleave: every line buffer there is has one place, that of a write that is not
  -- complete, of a line that was dropped as there was no connection, or the pool of free buffers.
  pub link_steps-IsSettled :
      (steps : List LinkStep) (s : Link) → IsSettled s → Holds IsSettled (link_steps queue steps s)
  unfolding link_steps
  link_steps-IsSettled [] s o = o
  link_steps-IsSettled (step ∷ steps) s o =
      Holds-bind IsSettled IsSettled (link_step queue step s) (link_steps queue steps)
        (link_step-IsSettled step s o) (λ s' k. link_steps-IsSettled steps s' k)
