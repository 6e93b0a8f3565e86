-- ===== src/System/Inserted.antt =====
-- Where the rows in the queue of the database come from.
use ash_bot.Prelude.{
  ℕ, ◌≡◌, refl, ◌≤◌, inl, inr, arith, Bool, Option, List, [], ◌∷◌, Bytes, length, All, All-map,
}
use ash_bot.Prelude.Int.{ℤ}
use ash_bot.Regex.{Engine}
use ash_bot.World.{Env, Event}
use ash_bot.Pick.{pick-All}
use ash_bot.SongRequest.Fetch.{Apis}
use ash_bot.SongRequest.Provider.{Provider, SongRequestItem}
use ash_bot.SongRequest.Provider.Config.{LexicalCast}
use ash_bot.SongRequest.Provider.Request.Rows.{inserted, IsRowOf, Inserts}
use ash_bot.SongRequest.Provider.Worker.{serve_item}
use ash_bot.SongRequest.Provider.Worker.Rows.{serve_item-Inserts}
use ash_bot.SongRequest.Provider.Status.Reported.{on_message-inserted}
use ash_bot.Commands.Factory.{CreatorMap}
use ash_bot.ChannelContext.{ChannelContext}
use ash_bot.ChannelContext.Quiet.{process_message-inserted}
use ash_bot.ControlServer.{ControlMessage}
use ash_bot.System.{
  System, begun, Step, Reach, read_line, run_task, take_out, serve, report, here, next,
}
use ash_bot.System.Traced.{IsTraced, IsTraced-later, IsAccounted, Reach-IsAccounted}

module _ (e : Engine) (same_bucket : ℕ → ℕ → Bool) (creators : CreatorMap) where
  -- A row that is for the user of a request that a message of the chat asks for.
  pub record IsRequested (lines : List Bytes) (params : List Bytes) : Type 0 where
    pub item : SongRequestItem
    pub traced : IsTraced e same_bucket creators lines item
    pub row : IsRowOf item params

  -- Every row is one of these, and there are no more rows than requests served.
  pub record IsCovered (s : System) : Type 0 where
    pub rows : All (IsRequested s.lines) (inserted s.history)
    pub few : length (inserted s.history) ≤ length s.served

  IsRequested-later :
      (line : Bytes) (lines : List Bytes) (params : List Bytes)
      → IsRequested lines params
      → IsRequested (line ∷ lines) params
  IsRequested-later line lines params r = record {
    item = r.item;
    traced = IsTraced-later e same_bucket creators line lines r.item r.traced;
    row = r.row;
  }

  -- A history with the same rows.
  same_rows :
      (s t : System)
      → t.lines ≡ s.lines
      → t.served ≡ s.served
      → inserted t.history ≡ inserted s.history
      → IsCovered s
      → IsCovered t
  same_rows s t lines served rows c = record {
    rows = rw (lines, rows) c.rows;
    few = rw (served, rows) c.few;
  }

  -- A request that is served.
  served-IsCovered :
      (s : System) (item : SongRequestItem) (rest : List SongRequestItem) (h : List Event)
      → IsTraced e same_bucket creators s.lines item
      → Inserts item s.history h
      → IsCovered s
      → IsCovered (record s { taken = rest; served = item ∷ s.served; history = h })
  served-IsCovered s item rest h traced (inl same) c = record {
    rows = rw same c.rows;
    few = rw same (omega (arith, c.few));
  }
  served-IsCovered s item rest h traced (inr (params, more, row)) c = record {
    rows = rw more (record { item = item; traced = traced; row = row }, c.rows);
    few = rw more (omega (arith, c.few));
  }

module _ (e : Engine) (env : Env) (same_bucket : ℕ → ℕ → Bool) (cast : LexicalCast)
    (parse : Bytes → Option ControlMessage) (apis : Apis) (garbage : ℤ) (c : ChannelContext) where
  Step-IsCovered :
      {s t : System}
      → Step e env same_bucket cast parse apis garbage c s t
      → IsAccounted e same_bucket c.creators s
      → IsCovered e same_bucket c.creators s
      → IsCovered e same_bucket c.creators t
  Step-IsCovered {s} (read_line {r = r} line d h) a k = record {
    rows =
        All-map (IsRequested-later e same_bucket c.creators line s.lines) (inserted s.history)
          k.rows;
    few = k.few;
  }
  Step-IsCovered {s} (run_task {task = task} n picked ran) a k =
      same_rows e same_bucket c.creators s _ refl refl
        (process_message-inserted env cast same_bucket (record c { provider = s.provider }) task
          s.history)
        k
  Step-IsCovered {s} (take_out n picked) a k =
      same_rows e same_bucket c.creators s _ refl refl refl k
  Step-IsCovered {s} (serve {item = item} {rest = rest} n picked ran) a k =
      served-IsCovered e same_bucket c.creators s item rest
        (serve_item env apis garbage item.action s.provider item s.history).1
        (pick-All (IsTraced e same_bucket c.creators s.lines) n s.taken item rest picked a.taken).0
        (serve_item-Inserts env apis garbage item.action s.provider item s.history) k
  Step-IsCovered {s} (report payload told) a k =
      same_rows e same_bucket c.creators s _ refl refl
        (on_message-inserted env parse payload s.provider s.history) k

  Reach-IsCovered :
      (p : Provider) (h : List Event) {t : System}
      → p.items ≡ []
      → inserted h ≡ []
      → Reach e env same_bucket cast parse apis garbage c (begun p h) t
      → IsCovered e same_bucket c.creators t
  Reach-IsCovered p h empty none_yet here = record {
    rows = rw none_yet tt;
    few = rw none_yet (omega arith);
  }
  Reach-IsCovered p h empty none_yet (next r step) =
      Step-IsCovered step
        (Reach-IsAccounted e env same_bucket cast parse apis garbage c p h empty r)
        (Reach-IsCovered p h empty none_yet r)

  -- In whatever order the handlers of the bot run, from a start with an empty queue and no row
  -- inserted: every row that was inserted into the queue of the database is for the user of a request
  -- that one of the lines asks for, and there are no more rows than lines.
  pub Reach-rows :
      (p : Provider) (h : List Event) {t : System}
      → p.items ≡ []
      → inserted h ≡ []
      → Reach e env same_bucket cast parse apis garbage c (begun p h) t
      → All (IsRequested e same_bucket c.creators t.lines) (inserted t.history)
        × (length (inserted t.history) ≤ length t.lines)
  Reach-rows p h empty none_yet r =
      let covered = Reach-IsCovered p h empty none_yet r in
      let accounted = Reach-IsAccounted e env same_bucket cast parse apis garbage c p h empty r in
      (covered.rows, omega (arith, covered.few, accounted.count))
