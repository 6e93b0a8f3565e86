-- ===== src/System.antt =====
-- The parts of the bot together, from the lines of the server to the requests that are served:
-- irc_client::ev_line_read puts tasks into the thread pool, channel_context::process_message_core
-- runs them, request_worker takes the requests out and serves them, and control_server::on_message
-- tells what the player does. Each step is one handler that runs to its end; the threads choose their
-- order, and a thread that has ended takes no step any more.
pub mod Traced
pub mod Inserted
use ash_bot.Prelude.{ℕ, Bool, ◌≡◌, Option, some, List, [], ◌∷◌, Bytes}
use ash_bot.Partial.{defined}
use ash_bot.Outcome.{done}
use ash_bot.Regex.{Engine}
use ash_bot.World.{Env, Event}
use ash_bot.Pick.{pick}
use ash_bot.Irc.Message.{MessageData}
use ash_bot.SongRequest.Provider.{Provider, SongRequestItem}
use ash_bot.Prelude.Int.{ℤ}
use ash_bot.SongRequest.Fetch.{Apis}
use ash_bot.SongRequest.Provider.Worker.{serve_item}
use ash_bot.SongRequest.Provider.Config.{LexicalCast}
use ash_bot.ChannelContext.{ChannelContext, process_message_core}
use ash_bot.Chat.{Received, ev_line_read}
use ash_bot.ControlServer.{ControlMessage, on_message}

-- `lines` are the lines that were read so far, `taken` the requests that the worker has got and not
-- served, `served` those that it has.
pub record System : Type 0 where
  pub lines : List Bytes
  pub received : Received
  pub provider : Provider
  pub taken : List SongRequestItem
  pub served : List SongRequestItem
  pub history : List Event

-- The bot before the first line.
abbrev pub begun : Provider → List Event → System
begun p h = record {
  lines = [];
  received = record { written = []; tasks = [] };
  provider = p;
  taken = [];
  served = [];
  history = h;
}

module _ (e : Engine) (env : Env) (same_bucket : ℕ → ℕ → Bool) (cast : LexicalCast)
    (parse : Bytes → Option ControlMessage) (apis : Apis) (garbage : ℤ) (c : ChannelContext) where
  pub data Step : System → System → Type 0 where
    -- a line is read into an object `d` of the cache
    read_line :
        {s : System} {r : Received} (line : Bytes) (d : MessageData)
        → ev_line_read e line d s.received ≡ done r
        → Step s (record s { lines = line ∷ s.lines; received = r })
    -- a thread of the pool runs one of the tasks that wait
    run_task :
        {s : System} {task : MessageData} {rest : List MessageData} {p : Provider} (n : ℕ)
        → pick n s.received.tasks ≡ some (task, rest)
        → (process_message_core env same_bucket cast
            (record c { provider = s.provider })
            task
            s.history).0
          ≡ defined p
        → Step s (record s {
          received = record s.received { tasks = rest };
          provider = p;
          history =
              (process_message_core env same_bucket cast
                (record c { provider = s.provider })
                task
                s.history).1;
        })
    -- the worker dequeues one of the requests
    take_out :
        {s : System} {item : SongRequestItem} {rest : List SongRequestItem} (n : ℕ)
        → pick n s.provider.items ≡ some (item, rest)
        → Step s
            (record s { provider = record s.provider { items = rest }; taken = item ∷ s.taken })
    -- the worker serves what it has got
    serve :
        {s : System} {item : SongRequestItem} {rest : List SongRequestItem} (n : ℕ)
        → pick n s.taken ≡ some (item, rest)
        → (serve_item env apis garbage item.action s.provider item s.history).0 ≡ done tt
        → Step s (record s {
          taken = rest;
          served = item ∷ s.served;
          history = (serve_item env apis garbage item.action s.provider item s.history).1;
        })
    -- the player reports
    report :
        {s : System} {p : Provider} (payload : Bytes)
        → (on_message env parse payload s.provider s.history).0 ≡ done p
        → Step s (record s {
          provider = p;
          history = (on_message env parse payload s.provider s.history).1;
        })

  pub data Reach (s : System) : System → Type 0 where
    here : Reach s s
    next : {t u : System} → Reach s t → Step t u → Reach s u
