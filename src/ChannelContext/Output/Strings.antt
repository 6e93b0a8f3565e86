-- ===== src/ChannelContext/Output/Strings.antt =====
-- The strings that messages are formatted into.
use mathlib.Core.List.{perm_append_singleton, map-append}
use mathlib.Core.List.Perm
use ash_bot.Prelude.{ℕ, List, [], ◌∷◌, Bytes, Bool, String, map, Option-cases, inl, inr}
use ash_bot.Partial.{Holds, Holds-bind, Holds-any}
use ash_bot.CcQueue.{CcQueue}
use ash_bot.Pick.{pick, pick-Perm}
use ash_bot.ObjectCache.{get_block, release_string}
use ash_bot.ObjectCache.Ownership.{Owned, Owned-perm, get_block-Owned, release_block-Owned}
use ash_bot.World.{Arg}
use ash_bot.Printf.{snprintf}
use ash_bot.Db.Results.{string_buffer_size}
use ash_bot.Irc.Client.{send_message}
use ash_bot.ChannelContext.Output.{
  Delayed, Output, OutputStep, send_now, send_later, run_delayed, send_type, vsend_message,
  send_message_async, send_delayed, output_step, output_steps,
}

abbrev pub buffers : List Delayed → List ℕ
buffers = map (λ t. t.buffer)

-- Every string is in the hands of one message that waits, or free.
abbrev pub StringsOwned : Output → Type 0
StringsOwned s = Owned (buffers s.pending) s.strings

module _ (queue : CcQueue ℕ) (garbage channel : Bytes) where
  vsend_message-StringsOwned :
      (format : String) (action : Bool) (args : List Arg) (s : Output)
      → StringsOwned s
      → Holds (λ r. StringsOwned r.1) (vsend_message queue garbage channel format action args s)
  unfolding vsend_message release_string
  vsend_message-StringsOwned format action args s o =
      Holds-bind (λ _. Unit {0}) (λ (r : List Bytes × Output). StringsOwned r.1)
        (send_message queue (send_type action) channel
          (snprintf garbage string_buffer_size format args) s.connection)
        _
        (Holds-any (
          send_message queue (send_type action) channel
            (snprintf garbage string_buffer_size format args) s.connection))
        (λ r _.
          release_block-Owned queue (get_block queue s.strings).0 (buffers s.pending)
            (get_block queue s.strings).1 (get_block-Owned queue (buffers s.pending) s.strings o))

  send_delayed-StringsOwned :
      (task : Delayed) (s : Output)
      → Owned (task.buffer ∷ buffers s.pending) s.strings
      → Holds (λ r. StringsOwned r.1) (send_delayed queue garbage channel task s)
  unfolding send_delayed release_string
  send_delayed-StringsOwned task s o =
      Holds-bind (λ _. Unit {0}) (λ (r : List Bytes × Output). StringsOwned r.1)
        (send_message queue (send_type task.action) channel task.text s.connection) _
        (Holds-any (send_message queue (send_type task.action) channel task.text s.connection))
        (λ r _. release_block-Owned queue task.buffer (buffers s.pending) s.strings o)

  send_message_async-StringsOwned :
      (format : String) (action : Bool) (args : List Arg) (s : Output)
      → StringsOwned s
      → StringsOwned (send_message_async queue garbage channel format action args s)
  unfolding send_message_async
  send_message_async-StringsOwned format action args s o =
      let (buffer, strings) = get_block queue s.strings in
      let task : Delayed = record {
        buffer = buffer;
        text = snprintf garbage string_buffer_size format args;
        action = action;
      } in
      rw (map-append (λ t. t.buffer) s.pending (task ∷ [])) (
        Owned-perm (Perm.symm (perm_append_singleton buffer (buffers s.pending)))
          (get_block-Owned queue (buffers s.pending) s.strings o))

  output_step-StringsOwned :
      (step : OutputStep) (s : Output)
      → StringsOwned s
      → Holds (λ r. StringsOwned r.1) (output_step queue garbage channel step s)
  unfolding output_step
  output_step-StringsOwned (send_now format action args) s o =
      vsend_message-StringsOwned format action args s o
  output_step-StringsOwned (send_later format action args) s o =
      send_message_async-StringsOwned format action args s o
  output_step-StringsOwned (run_delayed n) s o = elim (Option-cases (pick n s.pending)) [
    | inl e ↦ rw (e, output_step) o
    | inr ((t, rest), e) ↦
        rw (e, output_step)
          (send_delayed-StringsOwned t (record s { pending = rest })
            (Owned-perm (Perm.map (λ t. t.buffer) (pick-Perm n s.pending t rest e)) o))
  ]

  -- However messages are sent at once, delayed, and sent after their delay in any order: where this is
  -- defined, every string is afterwards in the hands of one message that waits, or free.
  pub output_steps-StringsOwned :
      (steps : List OutputStep) (s : Output)
      → StringsOwned s
      → Holds (λ r. StringsOwned r.1) (output_steps queue garbage channel steps s)
  unfolding output_steps
  output_steps-StringsOwned [] s o = o
  output_steps-StringsOwned (step ∷ steps) s o =
      Holds-bind (λ (r : List Bytes × Output). StringsOwned r.1)
        (λ (r : List Bytes × Output). StringsOwned r.1) (output_step queue garbage channel step s) _
        (output_step-StringsOwned step s o)
        (λ r o1.
          Holds-bind (λ (r : List Bytes × Output). StringsOwned r.1)
            (λ (r : List Bytes × Output). StringsOwned r.1)
            (output_steps queue garbage channel steps r.1) _
            (output_steps-StringsOwned steps r.1 o1) (λ r' o2. o2))
