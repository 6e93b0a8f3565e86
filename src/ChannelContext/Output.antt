-- ===== src/ChannelContext/Output.antt =====
-- channel_context::vsend_message and send_message_async: messages to the channel, which are formatted
-- into a string of the pool. A delayed one is sent by a thread of the pool, in any order.
pub mod Strings
use ash_bot.Prelude.{
  ℕ, zero, suc, Bool, Option, none, some, List, [], ◌∷◌, ◌++◌, Bytes, String, if◌then◌else◌,
}
use ash_bot.Partial.{Partial, defined, undefined, ◌>>=◌}
use ash_bot.CcQueue.{CcQueue}
use ash_bot.Pick.{pick}
use ash_bot.ObjectCache.{Cache, get_block, release_string}
use ash_bot.World.{Arg}
use ash_bot.Printf.{snprintf}
use ash_bot.Db.Results.{string_buffer_size}
use ash_bot.Irc.Enums.{SendType}
use ash_bot.Irc.Connection.{Connection}
use ash_bot.Irc.Client.{Sent, send_message}

-- What the function object of send_message_async holds.
pub record Delayed : Type 0 where
  pub buffer : ℕ
  pub text : Bytes
  pub action : Bool

-- The strings of the pool, the connection, and the messages that wait.
pub record Output : Type 0 where
  pub strings : Cache
  pub connection : Connection
  pub pending : List Delayed

pub data OutputStep : Type 0 where
  send_now send_later : String → Bool → List Arg → OutputStep
  -- the n-th of the messages that wait is sent
  run_delayed : ℕ → OutputStep

abbrev pub send_type : Bool → SendType
send_type action = if action then SendType.action else SendType.message

-- `garbage` is what `%s` prints of an argument that is no string.
module _ (queue : CcQueue ℕ) (garbage channel : Bytes) where
  pub vsend_message : String → Bool → List Arg → Output → Partial (List Bytes × Output)
  vsend_message format action args s = do
    let (buffer, strings) = get_block queue s.strings
    let text = snprintf garbage string_buffer_size format args
    (lines, connection) ← send_message queue (send_type action) channel text s.connection
    defined (
      lines,
      record s { strings = release_string queue (some buffer) strings; connection = connection },
    )

  pub send_message_async : String → Bool → List Arg → Output → Output
  send_message_async format action args s =
      let (buffer, strings) = get_block queue s.strings in
      let text = snprintf garbage string_buffer_size format args in
      record s {
        strings = strings;
        pending = s.pending ++ (record { buffer = buffer; text = text; action = action } ∷ []);
      }

  -- the function object of send_message_async, after its delay
  pub send_delayed : Delayed → Output → Partial (List Bytes × Output)
  send_delayed task s = do
    (lines, connection) ← send_message queue (send_type task.action) channel task.text s.connection
    defined (
      lines,
      record s {
        strings = release_string queue (some task.buffer) s.strings;
        connection = connection;
      },
    )

  pub output_step : OutputStep → Output → Partial (List Bytes × Output)
  unfolding vsend_message send_message_async send_delayed
  output_step (send_now format action args) s = vsend_message format action args s
  output_step (send_later format action args) s =
      defined ([], send_message_async format action args s)
  output_step (run_delayed n) s = elim (pick n s.pending) [
    | none ↦ defined ([], s)
    | some (task, rest) ↦ send_delayed task (record s { pending = rest })
  ]

  pub output_steps : List OutputStep → Output → Partial (List Bytes × Output)
  unfolding output_step
  output_steps [] s = defined ([], s)
  output_steps (o ∷ os) s = do
    (first, s1) ← output_step o s
    (rest, s2) ← output_steps os s1
    defined (first ++ rest, s2)
