-- ===== src/Db/Query.antt =====
-- include/db/db.h: detail::query, which gives libpq the parameters of a command in their binary form.
pub mod Lengths
use ash_bot.Prelude.{ℕ, Bool, Option, none, some, List, [], ◌∷◌, Bytes, String, map}
use ash_bot.CcQueue.{CcQueue}
use ash_bot.Db.Params.{PgsqlArray, int_of_size, fill_int, fill_chars, fill_array}
use ash_bot.Prelude.Int.{ℤ}
use ash_bot.Db.Results.{PgResult, DbResult, db_result}
use ash_bot.Db.Connections.{Connections, with_connection}

-- The types of arguments that a query is called with; an integer has a size of that many bytes.
pub data Param : Type 0 where
  integer : ℕ → ℕ → Param
  text : Bytes → Param
  names : PgsqlArray → Param

abbrev pub filled_array : PgsqlArray → Bytes × ℤ
filled_array a = elim a.db_data [
  | none ↦ ([], int_of_size a.db_data_length)
  | some bytes ↦ (bytes, int_of_size a.db_data_length)
]

-- fill_params_core: the memory that a value points to, and its length
unfoldable pub fill_param : Param → Bytes × ℤ
fill_param (integer size v) = fill_int size v
fill_param (text s) = fill_chars s
fill_param (names a) = filled_array (fill_array a)

-- the loop of fill_params over the vector of parameters
unfoldable pub fill_params : List Param → List (Bytes × ℤ)
unfolding fill_param
fill_params [] = []
fill_params (p ∷ params) = fill_param p ∷ fill_params params

-- What PQexecParams is called with: every format is 1, for binary, as is that of the result.
pub record Execution : Type 0 where
  pub command : String
  pub values : List (Bytes × ℤ)
  pub formats : List ℕ

pub execution : String → List Param → Execution
unfolding fill_params
execution command params = record {
  command = command;
  values = fill_params params;
  formats = map (λ _. 1) params;
}

-- `execute` is PQexecParams on a connection.
module _ (queue : CcQueue (Option ℕ)) (status : Option ℕ → Bool)
    (execute : Option ℕ → Execution → PgResult) where
  -- detail::query
  pub query_on : Option ℕ → String → List Param → DbResult
  unfolding execution
  query_on pc command params = db_result (execute pc (execution command params))

  -- detail::query without parameters
  pub query_plain : Option ℕ → String → DbResult
  query_plain pc command =
      db_result (execute pc (record { command = command; values = []; formats = [] }))

  -- db::query
  pub query : String → List Param → Connections → DbResult × Connections
  unfolding query_on
  query command params = with_connection queue status (λ pc. query_on pc command params)
