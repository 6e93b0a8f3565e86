-- ===== src/Db/Results/Counts.antt =====
-- read_column at the width of the column, and at half of it: `SELECT COUNT(*)` is a bigint.
use mathlib.Core.List.{reverse}
use ash_bot.Prelude.{ℕ, ◌^◌, ◌<◌, ◌≡◌, refl, ap, [], ◌∷◌, ◌++◌, some, arith, Bytes, take}
use ash_bot.Db.Wire.{le_bytes, from_le, byte_swap}
use ash_bot.Db.Wire.RoundTrip.{Fits, byte_swap_involutive}
use ash_bot.Db.Results.{DbResult, read_int}

-- PostgreSQL's binary format of an integer: `size` bytes, the most significant first.
abbrev pub sent : ℕ → ℕ → Bytes
sent size v = reverse (le_bytes size v)

-- The four bytes at the front of a small bigint are the high ones.
take-sent : (n : ℕ) → n < 2 ^ 32 → take 4 (sent 8 n) ≡ 0 ∷ 0 ∷ 0 ∷ 0 ∷ []
unfolding le_bytes
take-sent n h = ground arith

-- A column that is read at its own width gives the value that the server sent.
pub read_int-sent :
    (r : DbResult) (v : ℕ) (rest : Bytes) (row column : ℕ)
    → Fits 8 v
    → r.result.getvalue row column ≡ some (sent 8 v ++ rest)
    → read_int 8 r row column ≡ some v
unfolding read_int
read_int-sent r v rest row column f e =
    rw (e, read_int, taken) (ap some (unfold byte_swap in byte_swap_involutive 8 v f))
  where
    taken : take 8 (sent 8 v ++ rest) ≡ sent 8 v
    taken = unfold le_bytes in refl

-- An `int` read from a bigint column below 2 ^ 32 is 0, whatever the column holds.
pub read_int-half :
    (r : DbResult) (n : ℕ) (rest : Bytes) (row column : ℕ)
    → n < 2 ^ 32
    → r.result.getvalue row column ≡ some (sent 8 n ++ rest)
    → read_int 4 r row column ≡ some 0
unfolding read_int
read_int-half r n rest row column h e =
    rw (e, read_int, taken, take-sent n h) (unfold byte_swap from_le le_bytes in refl)
  where
    taken : take 4 (sent 8 n ++ rest) ≡ take 4 (sent 8 n)
    taken = unfold le_bytes in refl
