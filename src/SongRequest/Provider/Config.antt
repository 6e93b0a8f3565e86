-- ===== src/SongRequest/Provider/Config.antt =====
-- songrequest_provider::load_config and set_enabled: the configuration in the database.
use ash_bot.Prelude.{
  ℕ, zero, suc, ◌+◌, Bool, true, false, not, Option, none, some, List, [], ◌∷◌, Bytes, String,
  length, leb, ◌==◌, if◌then◌else◌,
}
use ash_bot.Prelude.Int.{ℤ, pos, eqb_ℤ, signed}
use ash_bot.Db.Results.{DbResult, read_int, read_chars, c_str}
use ash_bot.Db.Params.{fill_int, fill_chars}
use ash_bot.World.{Env, M, ◌>>=◌, ◌>>◌, pure, query}
use ash_bot.SongRequest.Fetch.{read_or}
use ash_bot.SongRequest.Provider.{Provider}

-- boost::lexical_cast; `none` is a bad_lexical_cast
pub record LexicalCast : Type 0 where
  pub to_bool : Bytes → Option Bool
  pub to_int : Bytes → Option ℤ
  pub of_bool : Bool → Bytes

abbrev pub sql_update_value : String
sql_update_value = "UPDATE sr_data SET value = $1::varchar WHERE id = $2::smallint"

abbrev pub sql_load_config : String
sql_load_config = "SELECT value FROM sr_data ORDER BY id ASC;"

abbrev pub sql_load_limits : String
sql_load_limits = "SELECT userid, \"limit\" FROM sr_limits;"

-- SR_OPT_ENABLED, and how many options there are
abbrev pub sr_opt_enabled : ℕ
sr_opt_enabled = 0

abbrev pub sr_opt_count : ℕ
sr_opt_count = 8

abbrev pub set_config_value : Env → ℕ → Bytes → M DbResult
set_config_value env config value =
    query env sql_update_value ((fill_chars value).0 ∷ (fill_int 2 config).0 ∷ [])

-- `customLimits_[userid] = count`
pub set_limit : ℤ → ℤ → List (ℤ × ℤ) → List (ℤ × ℤ)
set_limit user n [] = (user, n) ∷ []
set_limit user n ((u, m) ∷ limits) =
    if eqb_ℤ u user then (user, n) ∷ limits else (u, m) ∷ set_limit user n limits

-- A row that the loop over the limits reads; where a read fails it keeps a value of its own.
pub load_limits : DbResult → ℕ → ℕ → List (ℤ × ℤ) → List (ℤ × ℤ)
unfolding set_limit
load_limits r zero row limits = limits
load_limits r (suc rows) row limits = load_limits r rows (row + 1) (
    set_limit (read_or (signed 64) (read_int 8 r row 0) (pos 0))
      (read_or (signed 16) (read_int 2 r row 1) (pos 0)) limits)

-- How load_config ends: it returns, an exception leaves it, or it writes past an option's buffer.
pub data Loaded : Type 0 where
  returned : Bool → Provider → Loaded
  bad_lexical_cast buffer_overflow : Loaded

-- `char options[SR_OPT_COUNT__][32]`: `none` where a value does not fit in its buffer.
unfoldable pub read_options : DbResult → ℕ → ℕ → Option (List Bytes)
read_options r zero row = some []
read_options r (suc rows) row =
    let later = read_options r rows (row + 1) in
    elim (read_chars r row 0) [
      | none ↦ Option.none
      | some written ↦
          if leb (length written) 32
          then elim later [ none ↦ Option.none | some options ↦ some (c_str written ∷ options) ]
          else Option.none
    ]

-- A lexical_cast that throws ends the whole.
abbrev pub chain : {A : Type 0} → Option A → (A → Option Provider) → Option Provider
chain none f = none
chain (some a) f = f a

module _ (cast : LexicalCast) where
  -- The eight options, in the order of SR_OPT_ENABLED to SR_OPT_MODSONGS.
  unfoldable pub apply_options : Provider → List Bytes → Option Provider
  apply_options p (o0 ∷ o1 ∷ o2 ∷ o3 ∷ o4 ∷ o5 ∷ o6 ∷ o7 ∷ []) = chain (cast.to_bool o0) λ enabled.
      chain (cast.to_bool o1) λ sub_only. chain (cast.to_int o2) λ max_length.
        chain (cast.to_int o3) λ capacity. chain (cast.to_int o4) λ plebs.
          chain (cast.to_int o5) λ regulars. chain (cast.to_int o6) λ subs.
            chain (cast.to_int o7) λ mods. some (record p {
              enabled = enabled;
              sub_only = sub_only;
              max_song_length = max_length;
              queue_capacity = capacity;
              songs_per_pleb = plebs;
              songs_per_regular = regulars;
              songs_per_sub = subs;
              songs_per_mod = mods;
            })
  apply_options p _ = none

  unfoldable pub load_config : Env → Provider → M Loaded
  unfolding read_options apply_options load_limits
  load_config env p = do
    config ← query env sql_load_config []
    if not (config.row_count == sr_opt_count)
        then pure (returned false p)
        else elim (read_options config sr_opt_count 0) [
          | none ↦ pure buffer_overflow
          | some options ↦ elim (apply_options p options) [
            | none ↦ pure bad_lexical_cast
            | some p' ↦ (do
              limits ← query env sql_load_limits []
              pure (
                  returned true (record p' {
                    custom_limits = load_limits limits limits.row_count 0 p'.custom_limits;
                  })))
          ]
        ]

  unfoldable pub set_enabled : Env → Bool → Provider → M Provider
  set_enabled env enabled p = do
    set_config_value env sr_opt_enabled (cast.of_bool enabled)
    pure (record p { enabled = enabled })

  -- whether load_config returned true
  abbrev is_loaded : Loaded → Bool
  is_loaded (returned b p) = b
  is_loaded _ = false

  -- initialize: how load_config ends, and whether the thread of request_worker is started
  unfoldable pub initialize : Env → Provider → M (Loaded × Bool)
  unfolding load_config
  initialize env p = do loaded ← load_config env p; pure (loaded, is_loaded loaded)

-- the destructor, which then waits for the thread
pub close : Provider → Provider
close p = record p { enabled = false }
