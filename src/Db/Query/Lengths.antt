-- ===== src/Db/Query/Lengths.antt =====
-- The lengths that libpq is given.
use ash_bot.Prelude.{
  ℕ, ◌%◌, ◌*◌, ◌^◌, ◌<◌, lt→ltb, ◌≡◌, refl, sym, ap, ◌∙◌, Option, none, some, List, [], ◌∷◌, Bytes,
  length, All, arith,
}
use ash_bot.Prelude.Int.{ℤ, pos}
use ash_bot.Db.Wire.RoundTrip.{length-le_bytes}
use ash_bot.Db.Params.{PgsqlArray, int_of_size, fill_int, fill_chars, fill_array}
use ash_bot.Db.Params.ArrayCodec.{length-array_data}
use ash_bot.Db.Query.{Param, integer, text, names, fill_param, fill_params}

-- An array that was not filled in yet, or was filled in with as many bytes as it says.
abbrev pub IsSized : Param → Type 0
IsSized (integer size v) = Unit {0}
IsSized (text s) = Unit {0}
IsSized (names a) = elim a.db_data [
  | none ↦ Unit {0}
  | some bytes ↦ length bytes ≡ a.db_data_length
]

-- The length that a value has, as libpq is given it.
abbrev pub HasLength : Bytes × ℤ → Type 0
HasLength v = v.1 ≡ int_of_size (length v.0)

filled-length :
    (items : List Bytes) (bytes : Option Bytes) (size : ℕ)
    → IsSized (names (record { items = items; db_data = bytes; db_data_length = size }))
    → let a : PgsqlArray = record { items = items; db_data = bytes; db_data_length = size } in
      HasLength (fill_param (names a))
unfolding fill_param fill_array
filled-length items none size h = ap int_of_size (sym (length-array_data items))
filled-length items (some bytes) size h = ap int_of_size (sym h)

fill_param-length : (p : Param) → IsSized p → HasLength (fill_param p)
unfolding fill_param fill_int fill_chars fill_array
fill_param-length (integer size v) h = ap int_of_size (sym (length-le_bytes size _))
fill_param-length (text s) h = refl
fill_param-length (names a) h = filled-length a.items a.db_data a.db_data_length h

-- An `int` holds a length below 2 ^ 31.
int_of_size-small : (n : ℕ) → n < 2 ^ 31 → int_of_size n ≡ pos n
int_of_size-small n small =
    let same : n % 2 ^ 32 ≡ n = omega (arith, small) in
    rw (same, lt→ltb (2 * n) (2 ^ 32) (omega (arith, small))) refl

exact_lengths :
    (values : List (Bytes × ℤ))
    → All HasLength values
    → All (λ v. length v.0 < 2 ^ 31) values
    → All (λ v. v.1 ≡ pos (length v.0)) values
exact_lengths [] sized small = tt
exact_lengths (v ∷ values) sized small =
    (sized.0 ∙ int_of_size-small (length v.0) small.0, exact_lengths values sized.1 small.1)

fill_params-HasLength :
    (params : List Param) → All IsSized params → All HasLength (fill_params params)
unfolding fill_params
fill_params-HasLength [] h = tt
fill_params-HasLength (p ∷ params) h = (fill_param-length p h.0, fill_params-HasLength params h.1)

-- Every value that PQexecParams is given has the length that it is given for it, so that libpq reads all
-- of it and nothing behind it, if each has fewer than 2 ^ 31 bytes, since the length is cast to an
-- `int`, and if no array was filled in with another length before.
pub fill_params-length :
    (params : List Param)
    → All IsSized params
    → All (λ v. length v.0 < 2 ^ 31) (fill_params params)
    → All (λ v. v.1 ≡ pos (length v.0)) (fill_params params)
fill_params-length params sized small =
    exact_lengths (fill_params params) (fill_params-HasLength params sized) small
