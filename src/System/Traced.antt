-- ===== src/System/Traced.antt =====
-- Where every request comes from.
use mathlib.Core.List.{Memᴰ}
use mathlib.Core.Path.{subst}
use ash_bot.Prelude.{
  ℕ, suc, ◌≡◌, refl, ◌+◌, ◌≤◌, arith, Bool, Option, List, [], ◌∷◌, Bytes, length, All, All-append,
  All-map, length-append, inl, inr,
}
use ash_bot.Partial.{defined, Holds}
use ash_bot.Outcome.{Ends, done}
use ash_bot.Regex.{Engine}
use ash_bot.World.{Env, Event}
use ash_bot.Pick.{pick-All, length-pick}
use ash_bot.Irc.Message.{MessageData, parse_message}
use ash_bot.Irc.Client.{event_message, twitch_dispatch}
use ash_bot.SongRequest.Provider.{Provider, SongRequestItem}
use ash_bot.Prelude.Int.{ℤ}
use ash_bot.SongRequest.Fetch.{Apis}
use ash_bot.SongRequest.Provider.Config.{LexicalCast}
use ash_bot.Commands.Factory.{CreatorMap}
use ash_bot.ChannelContext.{ChannelContext, process_message_core}
use ash_bot.ChannelContext.Growth.{IsAsked, Grows, process_message-Grows}
use ash_bot.Chat.{Received, ev_line_read}
use ash_bot.Chat.Tasks.{ev_line_read-tasks}
use ash_bot.ControlServer.{ControlMessage}
use ash_bot.SongRequest.Provider.Status.Reported.{on_message-items}
use ash_bot.System.{
  System, begun, Step, Reach, read_line, run_task, take_out, serve, report, here, next,
}

-- A message of the chat that one of these lines was read as.
pub record IsRead (e : Engine) (lines : List Bytes) (d : MessageData) : Type 0 where
  pub line : Bytes
  pub object : MessageData
  pub among : Memᴰ line lines
  pub parsed : parse_message e line object ≡ done d
  pub chat : twitch_dispatch d.receive_type ≡ defined event_message

-- A request that a message of the chat asks for.
pub record IsTraced (e : Engine) (same_bucket : ℕ → ℕ → Bool) (creators : CreatorMap)
    (lines : List Bytes) (item : SongRequestItem) : Type 0 where
  pub message : MessageData
  pub read : IsRead e lines message
  pub asked : IsAsked same_bucket creators message item

module _ (e : Engine) (same_bucket : ℕ → ℕ → Bool) (creators : CreatorMap) where
  -- Every task is a message of the chat, every request is asked for by one, and there are no more
  -- tasks and requests than lines.
  pub record IsAccounted (s : System) : Type 0 where
    pub tasks : All (IsRead e s.lines) s.received.tasks
    pub queue : All (IsTraced e same_bucket creators s.lines) s.provider.items
    pub taken : All (IsTraced e same_bucket creators s.lines) s.taken
    pub served : All (IsTraced e same_bucket creators s.lines) s.served
    pub count :
        length s.received.tasks + length s.provider.items + length s.taken + length s.served
        ≤ length s.lines

  IsRead-later :
      (line : Bytes) (lines : List Bytes) (d : MessageData)
      → IsRead e lines d
      → IsRead e (line ∷ lines) d
  IsRead-later line lines d r = record {
    line = r.line;
    object = r.object;
    among = Memᴰ.tail r.among;
    parsed = r.parsed;
    chat = r.chat;
  }

  pub IsTraced-later :
      (line : Bytes) (lines : List Bytes) (item : SongRequestItem)
      → IsTraced e same_bucket creators lines item
      → IsTraced e same_bucket creators (line ∷ lines) item
  IsTraced-later line lines item t = record {
    message = t.message;
    read = IsRead-later line lines t.message t.read;
    asked = t.asked;
  }

module _ (e : Engine) (env : Env) (same_bucket : ℕ → ℕ → Bool) (cast : LexicalCast)
    (parse : Bytes → Option ControlMessage) (apis : Apis) (garbage : ℤ) (c : ChannelContext) where
  read_line-IsAccounted :
      (s : System) (r : Received) (line : Bytes) (d : MessageData)
      → ev_line_read e line d s.received ≡ done r
      → IsAccounted e same_bucket c.creators s
      → IsAccounted e same_bucket c.creators (record s { lines = line ∷ s.lines; received = r })
  read_line-IsAccounted s r line d h a =
      let later = All-map (IsTraced-later e same_bucket c.creators line s.lines) in
      let tasks =
        All-map (IsRead-later e same_bucket c.creators line s.lines) s.received.tasks a.tasks in
      elim (ev_line_read-tasks e line d s.received r h) [
        | inl same ↦ record {
          tasks = rw same tasks;
          queue = later s.provider.items a.queue;
          taken = later s.taken a.taken;
          served = later s.served a.served;
          count = rw same (omega (arith, a.count));
        }
        | inr (read, parsed, chat, more) ↦
            let is_read : IsRead e (line ∷ s.lines) read = record {
              line = line;
              object = d;
              among = Memᴰ.head refl;
              parsed = parsed;
              chat = chat;
            } in
            record {
              tasks = rw more (
                  All-append (IsRead e (line ∷ s.lines)) s.received.tasks (read ∷ []) tasks
                    (is_read, tt));
              queue = later s.provider.items a.queue;
              taken = later s.taken a.taken;
              served = later s.served a.served;
              count =
                  rw (more, length-append s.received.tasks (read ∷ [])) (omega (arith, a.count));
            }
      ]

  -- The queue that a task leaves.
  ran-IsAccounted :
      (s : System) (task : MessageData) (rest : List MessageData) (p : Provider) (h : List Event)
      → length s.received.tasks ≡ suc (length rest)
      → IsRead e s.lines task × All (IsRead e s.lines) rest
      → Grows (IsAsked same_bucket c.creators task) s.provider.items p.items
      → IsAccounted e same_bucket c.creators s
      → IsAccounted e same_bucket c.creators
          (record s { received = record s.received { tasks = rest }; provider = p; history = h })
  ran-IsAccounted s task rest p h one (read, others) (inl same) a = record {
    tasks = others;
    queue = rw same a.queue;
    taken = a.taken;
    served = a.served;
    count = rw same (omega (arith, a.count, one));
  }
  ran-IsAccounted s task rest p h one (read, others) (inr (item, more, asked)) a =
      let traced : IsTraced e same_bucket c.creators s.lines item = record {
        message = task;
        read = read;
        asked = asked;
      } in
      record {
        tasks = others;
        queue = rw more (
            All-append (IsTraced e same_bucket c.creators s.lines) s.provider.items (item ∷ [])
              a.queue (traced, tt));
        taken = a.taken;
        served = a.served;
        count = rw (more, length-append s.provider.items (item ∷ [])) (omega (arith, a.count, one));
      }

  pub Step-IsAccounted :
      {s t : System}
      → Step e env same_bucket cast parse apis garbage c s t
      → IsAccounted e same_bucket c.creators s
      → IsAccounted e same_bucket c.creators t
  Step-IsAccounted {s} (read_line {r = r} line d h) a = read_line-IsAccounted s r line d h a
  Step-IsAccounted {s} (run_task {task = task} {rest = rest} {p = p} n picked ran) a =
      let before = record c { provider = s.provider } in
      ran-IsAccounted s task rest p
        (process_message_core env same_bucket cast before task s.history).1
        (length-pick n s.received.tasks task rest picked)
        (pick-All (IsRead e s.lines) n s.received.tasks task rest picked a.tasks)
        (subst (Holds (λ q. Grows (IsAsked same_bucket c.creators task) s.provider.items q.items))
          ran (process_message-Grows same_bucket before env cast task s.history))
        a
  Step-IsAccounted {s} (take_out {item = item} {rest = rest} n picked) a =
      let (got, others) =
        pick-All (IsTraced e same_bucket c.creators s.lines) n s.provider.items item rest picked
          a.queue in
      record {
        tasks = a.tasks;
        queue = others;
        taken = (got, a.taken);
        served = a.served;
        count = omega (arith, a.count, length-pick n s.provider.items item rest picked);
      }
  Step-IsAccounted {s} (serve {item = item} {rest = rest} n picked ran) a =
      let (got, others) =
        pick-All (IsTraced e same_bucket c.creators s.lines) n s.taken item rest picked a.taken in
      record {
        tasks = a.tasks;
        queue = a.queue;
        taken = others;
        served = (got, a.served);
        count = omega (arith, a.count, length-pick n s.taken item rest picked);
      }
  Step-IsAccounted {s} (report {p = p} payload told) a =
      let same : p.items ≡ s.provider.items =
        subst (Ends (λ q. q.items ≡ s.provider.items)) told
          (on_message-items env parse payload s.provider s.history) in
      record {
        tasks = a.tasks;
        queue = rw same a.queue;
        taken = a.taken;
        served = a.served;
        count = rw same a.count;
      }

  -- In whatever order lines are read, tasks run, requests taken out and served, and reports of the
  -- player heard, from a start with an empty queue: every task that waits is a chat message that one
  -- of the lines was read as; every request, in the queue, with the worker or served, is asked for by
  -- such a message, with the message's user, its first argument as the link, and a keyword of the song
  -- request command; and the tasks and requests together are no more than the lines.
  pub Reach-IsAccounted :
      (p : Provider) (h : List Event) {t : System}
      → p.items ≡ []
      → Reach e env same_bucket cast parse apis garbage c (begun p h) t
      → IsAccounted e same_bucket c.creators t
  Reach-IsAccounted p h empty here = record {
    tasks = tt;
    queue = rw empty tt;
    taken = tt;
    served = tt;
    count = rw empty (omega arith);
  }
  Reach-IsAccounted p h empty (next r step) = Step-IsAccounted step (Reach-IsAccounted p h empty r)
