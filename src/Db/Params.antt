-- ===== src/Db/Params.antt =====
-- include/db/db.h: fill_params, the binary form of the parameters of a query.
pub mod ArrayCodec
use ash_bot.Prelude.{
  ℕ, ◌+◌, ◌%◌, ◌^◌, Option, none, some, List, [], ◌∷◌, ◌++◌, Bytes, length, ◌==◌, if◌then◌else◌,
}
use ash_bot.Prelude.Int.{ℤ, signed}
use ash_bot.Db.Wire.{le_bytes, byte_swap}

-- pgsql_array<const std::string*>: `data` is `dbData_` once `dbDataInit_` is set
pub record PgsqlArray : Type 0 where
  pub items : List Bytes
  pub db_data : Option Bytes
  pub db_data_length : ℕ

unfoldable pub pgsql_array : List Bytes → PgsqlArray
pgsql_array items = record { items = items; db_data = none; db_data_length = 0 }

-- include/db_types.h
abbrev pub oid_varchar : ℕ
oid_varchar = 1043

-- *p = htonl(static_cast<uint32_t>(v))
abbrev pub store_htonl : ℕ → Bytes
store_htonl v = le_bytes 4 (byte_swap 4 (v % 2 ^ 32))

-- the first loop: `binSize`
bin_size_from : ℕ → List Bytes → ℕ
bin_size_from acc [] = acc
bin_size_from acc (x ∷ xs) = bin_size_from (acc + 4 + length x) xs

unfoldable pub bin_size : List Bytes → ℕ
unfolding bin_size_from
bin_size = bin_size_from (4 + 4 + 4 + 4 + 4)

-- the second loop: what is written from `pArrayData` on
pub array_elements : List Bytes → Bytes
array_elements [] = []
array_elements (x ∷ xs) = store_htonl (length x) ++ (x ++ array_elements xs)

unfoldable pub array_data : List Bytes → Bytes
unfolding array_elements
array_data items =
    store_htonl 1
    ++ (le_bytes 4 0
        ++ (store_htonl oid_varchar
            ++ (store_htonl (length items) ++ (store_htonl 1 ++ array_elements items))))

-- fill_params_core<pgsql_array<...>>: the array with its data, which is built once
unfoldable pub fill_array : PgsqlArray → PgsqlArray
unfolding array_data bin_size
fill_array a = elim a.db_data [
  | some bytes ↦ a
  | none ↦ record a { db_data = some (array_data a.items); db_data_length = bin_size a.items }
]

-- static_cast<int>(n) of a std::size_t
abbrev pub int_of_size : ℕ → ℤ
int_of_size n = signed 32 (n % 2 ^ 32)

-- fill_params_core of an integer of `size` bytes: its memory after the swap, and the length
unfoldable pub fill_int : ℕ → ℕ → Bytes × ℤ
fill_int size v =
    let obj =
      if size == 8
      then byte_swap 8 v
      else if size == 4
      then byte_swap 4 v
      else if size == 2
      then byte_swap 2 v
      else v in
    (le_bytes size obj, int_of_size size)

-- fill_params_core<const char*>
unfoldable pub fill_chars : Bytes → Bytes × ℤ
fill_chars s = (s, int_of_size (length s))
