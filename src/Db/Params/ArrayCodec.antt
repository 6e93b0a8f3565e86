-- ===== src/Db/Params/ArrayCodec.antt =====
-- The bytes of an array parameter, read back as the binary format of an array documents it.
use mathlib.Core.List.{reverse}
use ash_bot.Prelude.{
  ℕ, zero, suc, ◌+◌, ◌*◌, ◌/◌, ◌%◌, ◌^◌, ◌<◌, ◌≡◌, refl, sym, ap, true, Option, none, some, List,
  [], ◌∷◌, ◌++◌, Bytes, length, take, drop, length-append, take-append_length, drop-append_length,
  leb, ◌==◌, ◌&&◌, if◌then◌else◌, All, arith,
}
use ash_bot.Db.Wire.{le_bytes, byte_swap}
use ash_bot.Db.Wire.RoundTrip.{le_bytes-byte_swap, length-le_bytes}
use ash_bot.Db.Params.{
  pgsql_array, store_htonl, oid_varchar, bin_size_from, bin_size, array_elements, array_data,
  fill_array,
}

-- A big-endian 32-bit integer at the front.
recv_int32 : Bytes → Option (ℕ × Bytes)
recv_int32 (a ∷ b ∷ c ∷ d ∷ rest) = some (((a * 256 + b) * 256 + c) * 256 + d, rest)
recv_int32 _ = none

-- The elements, each behind its size.
recv_elements : ℕ → Bytes → Option (List Bytes)
recv_elements zero [] = some []
recv_elements zero (b ∷ bs) = none
recv_elements (suc count) bs = elim (recv_int32 bs) [
  | none ↦ none
  | some (size, rest) ↦
      (let later = recv_elements count (drop size rest) in
        if leb size (length rest)
        then elim later [ none ↦ none | some xs ↦ some (take size rest ∷ xs) ]
        else none)
]

-- One dimension, no NULLs, elements of type varchar, the first of index 1.
pub recv_array : Bytes → Option (List Bytes)
unfolding recv_int32 recv_elements
recv_array bytes = elim (recv_int32 bytes) [
  | none ↦ none
  | some (dimensions, b1) ↦ elim (recv_int32 b1) [
    | none ↦ none
    | some (has_null, b2) ↦ elim (recv_int32 b2) [
      | none ↦ none
      | some (oid, b3) ↦ elim (recv_int32 b3) [
        | none ↦ none
        | some (count, b4) ↦ elim (recv_int32 b4) [
          | none ↦ none
          | some (first, b5) ↦
              if dimensions == 1 && has_null == 0 && oid == oid_varchar && first == 1
              then recv_elements count b5
              else none
        ]
      ]
    ]
  ]
]

recv_int32-big_endian :
    (v : ℕ) (rest : Bytes)
    → v < 2 ^ 32
    → recv_int32 (reverse (le_bytes 4 v) ++ rest) ≡ some (v, rest)
unfolding recv_int32 le_bytes
recv_int32-big_endian v rest h =
    let value : ((v / 256 / 256 / 256 % 256 * 256 + v / 256 / 256 % 256) * 256 + v / 256 % 256)
            * 256
          + v % 256
        ≡ v =
      omega arith in
    ap (λ w. some (w, rest)) value

recv_int32-store_htonl :
    (v : ℕ) (rest : Bytes) → v < 2 ^ 32 → recv_int32 (store_htonl v ++ rest) ≡ some (v, rest)
recv_int32-store_htonl v rest h =
    let small : v % 2 ^ 32 ≡ v = omega arith in
    rw (small, le_bytes-byte_swap 4 v) (recv_int32-big_endian v rest h)

recv_int32-zero : (rest : Bytes) → recv_int32 (le_bytes 4 0 ++ rest) ≡ some (0, rest)
unfolding recv_int32 le_bytes
recv_int32-zero rest = refl

abbrev pub IsShort : Bytes → Type 0
IsShort x = length x < 2 ^ 32

recv_elements-array_elements :
    (xs : List Bytes) → All IsShort xs → recv_elements (length xs) (array_elements xs) ≡ some xs
unfolding recv_elements array_elements
recv_elements-array_elements [] h = refl
recv_elements-array_elements (x ∷ xs) h = rw (
  recv_int32-store_htonl (length x) (x ++ array_elements xs) h.0,
  recv_elements,
  drop-append_length x (array_elements xs),
  room,
  recv_elements-array_elements xs h.1,
  take-append_length x (array_elements xs),
)
  where
    room : leb (length x) (length (x ++ array_elements xs)) ≡ true
    room = ground (arith, length-append x (array_elements xs))

-- A server that reads the parameter gets the names that were given, in their order.
pub recv_array-array_data :
    (xs : List Bytes) → length xs < 2 ^ 32 → All IsShort xs → recv_array (array_data xs) ≡ some xs
unfolding recv_array array_data
recv_array-array_data xs h short = rw (
  recv_int32-store_htonl 1 _ (omega arith),
  recv_array,
  recv_int32-zero,
  recv_int32-store_htonl oid_varchar _ (omega arith),
  recv_int32-store_htonl (length xs) _ h,
  recv_int32-store_htonl 1 _ (omega arith),
  recv_elements-array_elements xs short,
)

length-store_htonl : (v : ℕ) → length (store_htonl v) ≡ 4
length-store_htonl v = length-le_bytes 4 (byte_swap 4 (v % 2 ^ 32))

bin_size_from_lem :
    (acc : ℕ) (xs : List Bytes) → bin_size_from acc xs ≡ acc + length (array_elements xs)
unfolding bin_size_from array_elements
bin_size_from_lem acc [] = omega arith
bin_size_from_lem acc (x ∷ xs) = omega (
  arith,
  bin_size_from_lem (acc + 4 + length x) xs,
  length-append (store_htonl (length x)) (x ++ array_elements xs),
  length-append x (array_elements xs),
  length-store_htonl (length x),
)

-- The buffer that is allocated for an array holds the data that is written to it exactly.
pub length-array_data : (xs : List Bytes) → length (array_data xs) ≡ bin_size xs
unfolding array_data bin_size
length-array_data xs = omega (
  arith,
  bin_size_from_lem 20 xs,
  length-append (store_htonl 1) (le_bytes 4 0 ++ rest),
  length-append (le_bytes 4 0) rest,
  length-append (store_htonl oid_varchar) (store_htonl (length xs) ++ tail),
  length-append (store_htonl (length xs)) tail,
  length-append (store_htonl 1) (array_elements xs),
  length-store_htonl 1,
  length-le_bytes 4 0,
  length-store_htonl oid_varchar,
  length-store_htonl (length xs),
)
  where
    tail : Bytes
    tail = store_htonl 1 ++ array_elements xs

    rest : Bytes
    rest = store_htonl oid_varchar ++ (store_htonl (length xs) ++ tail)

-- An array of fewer than 2 ^ 32 names, each shorter than 2 ^ 32 bytes, is filled in with bytes that
-- a reader of the binary format turns back into the names, and with their length; filling it in
-- again changes nothing.
pub fill_array_lem :
    (xs : List Bytes)
    → length xs < 2 ^ 32
    → All IsShort xs
    → let filled = fill_array (pgsql_array xs) in
      (bytes : Bytes) × (filled.db_data ≡ some bytes)
      × (filled.db_data_length ≡ length bytes)
      × (recv_array bytes ≡ some xs)
      × (fill_array filled ≡ filled)
unfolding fill_array pgsql_array
fill_array_lem xs h short =
    (array_data xs, refl, sym (length-array_data xs), recv_array-array_data xs h short, refl)
