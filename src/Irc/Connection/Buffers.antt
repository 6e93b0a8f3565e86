-- ===== src/Irc/Connection/Buffers.antt =====
-- The line buffers that reading and writing a line take and give back.
use ash_bot.Prelude.{
  ℕ, ◌≡◌, refl, Bool, true, false, Option, some, List, [], ◌∷◌, Bytes, codes, if◌then◌else◌,
  starts_with, ltb, take, ◌++◌, ◌+◌, Bool-cases, inl, inr,
}
use ash_bot.Partial.{defined, undefined, Holds, Holds-any, Holds-bind, Holds-if}
use ash_bot.CcQueue.{CcQueue}
use ash_bot.ObjectCache.{get_block, release_block}
use ash_bot.ObjectCache.Ownership.{Owned, get_block-Owned, release_block-Owned}
use ash_bot.Db.Results.{string_buffer_size, c_str}
use ash_bot.Irc.Connection.{
  Connection, get_line, parse_line, write_line, line_read, data_size_of, after_source, logs_in,
  note_pong, note_login,
}

-- What parse_line leaves alone.
abbrev pub Keeps : Connection → Connection → Type 0
Keeps s s' = (s'.line_pool ≡ s.line_pool) × (s'.last_ping_sent ≡ s.last_ping_sent)

note-Keeps :
    (pong logged_in : Bool) (now : ℕ) (s : Connection)
    → Keeps s (note_pong pong now (note_login logged_in s))
note-Keeps true true now s = (refl, refl)
note-Keeps true false now s = (refl, refl)
note-Keeps false true now s = (refl, refl)
note-Keeps false false now s = (refl, refl)

pub parse_line-Keeps :
    (now : ℕ) (raw : Bytes) (s : Connection) → Holds (λ r. Keeps s r.1) (parse_line now raw s)
unfolding parse_line
parse_line-Keeps now raw s =
    Holds-bind (λ _. Unit {0}) (λ (r : Bool × Connection). Keeps s r.1) (after_source raw) _
      (Holds-any (after_source raw))
      (λ line _. note-Keeps (starts_with (codes "PONG ") line) (logs_in line s) now s)

module _ (queue : CcQueue ℕ) where
  -- Reading a line, where it is defined, gives the buffer of the line back: if the buffers that are
  -- held and those that are free are all there are, each once, this is so afterwards.
  pub line_read-Owned :
      (now : ℕ) (input : Bytes) (held : List ℕ) (s : Connection)
      → Owned held s.line_pool
      → Holds (λ r. Owned held r.1.line_pool) (line_read queue now input s)
  unfolding line_read
  line_read-Owned now input held s o =
      let taken = get_block queue s.line_pool in
      Holds-bind (λ _. Unit {0})
        (λ (r : (Bytes × Bool × Bytes) × Connection). Owned held r.1.line_pool) (get_line input) _
        (Holds-any (get_line input))
        (λ r _.
          Holds-bind (λ (t : Bool × Connection). Keeps (record s { line_pool = taken.1 }) t.1)
            (λ (r : (Bytes × Bool × Bytes) × Connection). Owned held r.1.line_pool)
            (parse_line now (c_str r.0) (record s { line_pool = taken.1 })) _
            (parse_line-Keeps now (c_str r.0) (record s { line_pool = taken.1 }))
            (λ t keeps. rw keeps.0 (
              release_block-Owned queue taken.0 held taken.1
                (get_block-Owned queue held s.line_pool o))))

  -- Writing a line, where it is defined, gives its buffer back if there is a connection; if there is
  -- none, the buffer stays with its writer.
  pub write_line-Owned :
      (block : ℕ) (line : Bytes) (given : Option ℕ) (held : List ℕ) (s : Connection)
      → Owned (block ∷ held) s.line_pool
      → Holds
          (λ r. Owned (if s.connected then held else block ∷ held) r.1.line_pool)
          (write_line queue block line given s)
  unfolding write_line
  write_line-Owned block line given held s o = elim (Bool-cases s.connected) [
    | inl up ↦
        rw (up, write_line)
          (Holds-if (λ (r : Option Bytes × Connection). Owned held r.1.line_pool)
            (ltb string_buffer_size (data_size_of line given + 2)) undefined
            (defined (
              some (take (data_size_of line given) line ++ 13 ∷ 10 ∷ []),
              record s { connected = true; line_pool = release_block queue block s.line_pool },
            ))
            (λ _. tt) (λ _. release_block-Owned queue block held s.line_pool o))
    | inr down ↦ rw (down, write_line) o
  ]
