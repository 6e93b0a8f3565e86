-- ===== src/SubManager.antt =====
-- source/sub_manager.cpp: subscribers and regulars. The set of subscribers is a list without
-- repetitions; the mutex makes each of its uses one step, and the database is asked outside it.
pub mod Pages
pub mod Names
pub mod Added
use ash_bot.Prelude.{
  ℕ, zero, suc, ◌+◌, ◌-◌, ◌^◌, Bool, true, false, not, ◌||◌, ◌&&◌, Option, none, some, List, [],
  ◌∷◌, Bytes, String, codes, length, ltb, ◌==◌, if◌then◌else◌,
}
use ash_bot.Prelude.Int.{ℤ, pos, negsuc, eqb_ℤ, signed, pattern_of}
use ash_bot.Db.Results.{DbResult, is_ok, read_int, is_field_null}
use ash_bot.Db.Wire.{le_bytes}
use ash_bot.Db.Params.{fill_int, fill_chars, PgsqlArray, pgsql_array, fill_array}
use mathlib.Core.Option
use ash_bot.Outcome
use ash_bot.Outcome.{Outcome, done, aborted, threw, faulted}
use ash_bot.World.{Env, M, ◌>>=◌, ◌>>◌, pure, skip, query}
use ash_bot.TwitchApi.{SubsObject, member, insert, get_channel_subscribers}

-- rSub.row_count() > 0 && !rSub.is_field_null(0, 0)
abbrev pub has_row : DbResult → Bool
has_row r = ltb 0 r.row_count && not (is_field_null r 0 0)

abbrev sql_get_user : String
sql_get_user = "SELECT id FROM users WHERE username = $1::varchar;"

abbrev sql_set_sub : String
sql_set_sub = "UPDATE users SET subscribed = TRUE WHERE id = $1::bigint"

abbrev sql_is_sub : String
sql_is_sub = "SELECT 1 FROM users WHERE username = $1::varchar AND subscribed = TRUE"

abbrev sql_was_sub : String
sql_was_sub =
    "SELECT 1 FROM users WHERE username = $1::varchar AND subscribed = FALSE AND ever_subscribed = TRUE"

abbrev sql_is_regular : String
sql_is_regular = "SELECT 1 FROM users WHERE username = $1::varchar AND regular = TRUE"

abbrev sql_is_sub_regular : String
sql_is_sub_regular =
    "SELECT 1 FROM users WHERE username = $1::varchar AND (regular = TRUE OR subscribed = TRUE)"

abbrev sql_add_regular : String
sql_add_regular = "UPDATE users SET regular = TRUE WHERE id = $1::bigint"

abbrev sql_remove_regular : String
sql_remove_regular = "UPDATE users SET regular = FALSE WHERE username = $1::varchar"

abbrev sql_update_subs : String
sql_update_subs = "SELECT update_subs($1::varchar[])"

abbrev sql_update_nonsubs : String
sql_update_nonsubs =
    "UPDATE users SET subscribed = FALSE WHERE subscribed = TRUE AND NOT username = ANY($1::varchar[]);"

-- A 64-bit value that a read may have left alone.
abbrev read_id : Option ℕ → ℤ → ℤ
read_id none old = old
read_id (some v) old = signed 64 v

-- initialize and cleanup: whether there is a timer, and whether it waits for its end
pub initialize : Option Bool → Option Bool
initialize timer = some true

pub cleanup : Option Bool → Option Bool
cleanup timer = none

module _ (env : Env) where
  -- db::get_user; InvalidUserId is -1
  unfoldable pub get_user : Bytes → M ℤ
  get_user name = do
    result ← query env sql_get_user ((fill_chars name).0 ∷ [])
    let missing = not (is_ok result) || not (result.row_count == 1)
    if missing then pure (negsuc 0) else pure (read_id (read_int 8 result 0 0) (negsuc 0))

  -- the answer of a query for one flag of a user, false where the query fails
  asks : String → Bytes → M Bool
  asks sql name = do
    r ← query env sql ((fill_chars name).0 ∷ [])
    if not (is_ok r) then pure false else pure (has_row r)

  pub add_sub : Bytes → List Bytes → M (List Bytes)
  unfolding get_user
  add_sub name subscribers = do
    let subscribers' = insert name subscribers
    user_id ← get_user name
    query env sql_set_sub ((fill_int 8 (pattern_of 64 user_id)).0 ∷ [])
    pure subscribers'

  pub is_sub : Bytes → List Bytes → M Bool
  unfolding asks
  is_sub name [] = asks sql_is_sub name
  is_sub name (s ∷ ss) = pure (member name (s ∷ ss))

  pub was_sub : Bytes → M Bool
  unfolding asks
  was_sub name = asks sql_was_sub name

  unfoldable pub is_regular : Bytes → Bool → M Bool
  unfolding asks
  is_regular name also_sub_regular =
      asks (if also_sub_regular then sql_is_sub_regular else sql_is_regular) name

  pub add_regular : Bytes → M ℤ
  unfolding is_regular get_user
  add_regular name = do
    already ← is_regular name false
    if already then pure (pos 1) else do
      user_id ← get_user name
      if eqb_ℤ user_id (negsuc 0) then pure (negsuc 0) else do
        r ← query env sql_add_regular ((fill_int 8 (pattern_of 64 user_id)).0 ∷ [])
        if not (is_ok r) then pure (pos 0) else pure (pos 1)

  pub remove_regular : Bytes → M Bool
  unfolding is_regular
  remove_regular name = do
    regular ← is_regular name false
    if not regular then pure false else do
      r ← query env sql_remove_regular ((fill_chars name).0 ∷ [])
      if not (is_ok r) then pure false else pure true

  -- The data that an array parameter holds once it is filled in.
  abbrev array_bytes : PgsqlArray → Bytes
  array_bytes a = elim (fill_array a).db_data [ none ↦ [] | some bytes ↦ bytes ]

  -- The second query has the array that the first one filled in.
  pub update_sub_db : List Bytes → M (Unit {0})
  update_sub_db subscribers = do
    let db_array = pgsql_array subscribers
    query env sql_update_subs (array_bytes db_array ∷ [])
    query env sql_update_nonsubs (array_bytes (fill_array db_array) ∷ [])
    skip

  -- the end of get_subs: `if (!Subscribers.empty()) update_sub_db()`
  pub store_subs : List Bytes → M (List Bytes)
  unfolding update_sub_db
  store_subs [] = pure []
  store_subs (s ∷ ss) = do update_sub_db (s ∷ ss); pure (s ∷ ss)

  -- What get_subs does behind its loop, which an exception may have left.
  pub store_pages : Option (Outcome (List Bytes)) → M (Option (Outcome (List Bytes)))
  unfolding store_subs
  store_pages (some (done subs)) = do subs' ← store_subs subs; pure (some (done subs'))
  store_pages other = pure other

-- The names that a full refresh starts with, and how many it asks for at once.
abbrev pub start_names : Bool → List Bytes → List Bytes
start_names true subscribers = []
start_names false subscribers = subscribers

abbrev pub page_size : Bool → ℕ
page_size true = 100
page_size false = 10

module _ (env : Env) (parse : Bytes → Option SubsObject) (client_id user : Bytes) where
  -- the loop of get_subs on fuel, `none` where that runs out; an exception leaves the loop, and
  -- the names of the pages before it are not told then
  pub get_pages : ℕ → ℕ → ℕ → Bool → List Bytes → M (Option (Outcome (List Bytes)))
  get_pages zero count offset full subs h = (none, h)
  get_pages (suc fuel) count offset full subs h =
      if not (ltb offset 10000)
      then (some (done subs), h)
      else let page =
          get_channel_subscribers env parse client_id user (codes "ashwinitv") count offset subs
            h in
        elim page.0 [
          | done (result, subs') ↦
              let more = get_pages fuel count (offset + 100) full subs' page.1 in
              if result == 0 || not full || ltb (length subs') 100
              then (some (done subs'), page.1)
              else more
          | aborted ↦ (some aborted, page.1)
          | threw ↦ (some threw, page.1)
          | faulted ↦ (some faulted, page.1)
        ]

  pub get_subs : ℕ → Bool → List Bytes → M (Option (Outcome (List Bytes)))
  unfolding get_pages store_pages
  get_subs fuel full subscribers = do
    pages ← get_pages fuel (page_size full) 0 full (start_names full subscribers)
    store_pages env pages

  -- refresh_timer_elapsed with no error, an aborted operation, or another error: whether the timer
  -- is started again, and the names
  pub refresh_timer_elapsed :
      ℕ → Option Bool → List Bytes → M (Option (Outcome (Bool × List Bytes)))
  unfolding get_subs
  refresh_timer_elapsed fuel (some true) subscribers = pure (some (done (false, subscribers)))
  refresh_timer_elapsed fuel _ subscribers = do
    refreshed ← get_subs fuel true subscribers
    pure (Option.map (λ result. Outcome.◌>>=◌ result λ subs. done (true, subs)) refreshed)
