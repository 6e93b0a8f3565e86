-- ===== src/Chat/Tasks.antt =====
-- What a line that is read leaves to the threads of the pool.
use ash_bot.Prelude.{◌≡◌, refl, sym, ap, ◌∙◌, ◌⊎◌, inl, inr, [], ◌∷◌, ◌++◌, Bytes}
use ash_bot.Partial.{defined}
use ash_bot.Outcome.{done, done-bind, done-of_partial, done-injective}
use ash_bot.Regex.{Engine}
use ash_bot.Irc.Message.{MessageData, parse_message}
use ash_bot.Irc.Client.{Handler, event_message, twitch_dispatch}
use ash_bot.ChannelContext.{process_message}
use ash_bot.Chat.{Received, handle, ev_line_read}

-- What a handler does to the tasks.
handle-tasks :
    (handler : Handler) (d : MessageData) (s : Received)
    → ((handle handler d s).tasks ≡ s.tasks)
      ⊎ ((handler ≡ event_message) × ((handle handler d s).tasks ≡ s.tasks ++ d ∷ []))
unfolding handle process_message
handle-tasks Handler.event_message d s = inr (refl, refl)
handle-tasks Handler.event_ping d s = inl refl
handle-tasks Handler.event_error d s = inl refl
handle-tasks Handler.ignored d s = inl refl
handle-tasks Handler.event_notice d s = inl refl
handle-tasks Handler.event_hosttarget d s = inl refl
handle-tasks Handler.event_clearchat d s = inl refl
handle-tasks Handler.event_userstate d s = inl refl
handle-tasks Handler.event_reconnect d s = inl refl
handle-tasks Handler.event_roomstate d s = inl refl
handle-tasks Handler.event_usernotice d s = inl refl

-- A line adds at most one task, the message that it was read as.
pub ev_line_read-tasks :
    (e : Engine) (line : Bytes) (d : MessageData) (s r : Received)
    → ev_line_read e line d s ≡ done r
    → (r.tasks ≡ s.tasks)
      ⊎ ((read : MessageData) × (parse_message e line d ≡ done read)
          × (twitch_dispatch read.receive_type ≡ defined event_message)
          × (r.tasks ≡ s.tasks ++ read ∷ []))
unfolding ev_line_read
ev_line_read-tasks e line d s r h =
    let (read, parsed, later) = done-bind (parse_message e line d) _ h in
    let (handler, known, last) = done-bind _ _ later in
    let dispatched = done-of_partial (twitch_dispatch read.receive_type) known in
    let handled = ap (λ q. q.tasks) (sym (done-injective last)) in
    elim (handle-tasks handler read s) [
      | inl same ↦ inl (handled ∙ same)
      | inr (is_message, more) ↦
          inr (read, parsed, dispatched ∙ ap defined is_message, handled ∙ more)
    ]
