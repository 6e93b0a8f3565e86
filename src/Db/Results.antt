-- ===== src/Db/Results.antt =====
-- include/db/db.h: class db_result. A PGresult is what libpq's accessors answer about it.
pub mod Counts
use ash_bot.Prelude.{
  ℕ, ◌-◌, Bool, false, true, ◌||◌, Option, none, some, [], ◌∷◌, ◌++◌, Bytes, min, take, ◌==◌,
  if◌then◌else◌,
}
use ash_bot.Db.Wire.{from_le, byte_swap}

pub data ExecStatus : Type 0 where
  tuples_ok command_ok fatal_error : ExecStatus

-- `getvalue` is PQgetvalue: `none` is the null pointer, else the memory from the pointer on.
pub record PgResult : Type 0 where
  pub status : ExecStatus
  pub ntuples : ℕ
  pub getvalue : ℕ → ℕ → Option Bytes
  pub getlength : ℕ → ℕ → ℕ
  pub getisnull : ℕ → ℕ → Bool

-- db_result: the result and the row count read off it
pub record DbResult : Type 0 where
  pub result : PgResult
  pub row_count : ℕ

abbrev pub db_result : PgResult → DbResult
db_result p = record { result = p; row_count = p.ntuples }

abbrev pub status_ok : ExecStatus → Bool
status_ok tuples_ok = true
status_ok command_ok = true
status_ok fatal_error = false

-- is_ok, operator bool
abbrev pub is_ok : DbResult → Bool
is_ok r = status_ok r.result.status

-- ASHBOT_STRING_BUFFER_SIZE
abbrev pub string_buffer_size : ℕ
string_buffer_size = 2048

abbrev copy_text : Option Bytes → ℕ → Option Bytes
copy_text none size = none
copy_text (some memory) size = some (take (min size (string_buffer_size - 1)) memory ++ 0 ∷ [])

-- read_column(char*): the bytes that are written to the buffer, or `none` where it returns false.
unfoldable pub read_chars : DbResult → ℕ → ℕ → Option Bytes
read_chars r row column = copy_text (r.result.getvalue row column) (r.result.getlength row column)

-- the text of a buffer: up to its terminator
unfoldable pub c_str : Bytes → Bytes
c_str [] = []
c_str (b ∷ bs) = if b == 0 then [] else b ∷ c_str bs

-- read_column(std::string&)
unfoldable pub read_string : DbResult → ℕ → ℕ → Option Bytes
unfolding read_chars c_str
read_string r row column = elim (read_chars r row column) [
  | none ↦ none
  | some buffer ↦ some (c_str buffer)
]

-- the value of type _T that stands at the pointer, in host order
abbrev from_wire : ℕ → ℕ → ℕ
from_wire size v =
    if size == 8
    then byte_swap 8 v
    else if size == 4
    then byte_swap 4 v
    else if size == 2
    then byte_swap 2 v
    else v

-- read_column(_T&) at an integral type of `size` bytes; the pattern of the value's bits
unfoldable pub read_int : ℕ → DbResult → ℕ → ℕ → Option ℕ
read_int size r row column = elim (r.result.getvalue row column) [
  | none ↦ none
  | some memory ↦ some (from_wire size (from_le (take size memory)))
]

unfoldable pub is_field_null : DbResult → ℕ → ℕ → Bool
is_field_null r row column = r.result.getisnull row column
