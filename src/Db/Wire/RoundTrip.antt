-- ===== src/Db/Wire/RoundTrip.antt =====
-- The byte swaps of include/db/db.h: what a value is after it has been sent and read back.
use mathlib.Core.List.{reverse, reverse-reverse}
use ash_bot.Prelude.{
  ℕ, zero, suc, ◌+◌, ◌*◌, ◌/◌, ◌%◌, ◌<◌, ◌≡◌, refl, ap, [], ◌∷◌, arith, Bytes, length, All,
  All-reverse, length-reverse, sym,
}
use ash_bot.Db.Wire.{le_bytes, from_le, byte_swap}

abbrev pub IsByte : ℕ → Type 0
IsByte b = b < 256

pub length-le_bytes : (k v : ℕ) → length (le_bytes k v) ≡ k
unfolding le_bytes
length-le_bytes zero v = refl
length-le_bytes (suc k) v = ap suc (length-le_bytes k (v / 256))

pub le_bytes-IsByte : (k v : ℕ) → All IsByte (le_bytes k v)
unfolding le_bytes
le_bytes-IsByte zero v = tt
le_bytes-IsByte (suc k) v = (omega arith, le_bytes-IsByte k (v / 256))

pub le_bytes-from_le : (bs : Bytes) → All IsByte bs → le_bytes (length bs) (from_le bs) ≡ bs
unfolding le_bytes from_le
le_bytes-from_le [] h = refl
le_bytes-from_le (b ∷ bs) h =
    let small : (b + 256 * from_le bs) % 256 ≡ b = omega (arith, h.0) in
    let rest : (b + 256 * from_le bs) / 256 ≡ from_le bs = omega (arith, h.0) in
    rw (small, rest, le_bytes-from_le bs h.1)

-- The numbers below 256 ^ k, by recursion on `k`.
abbrev pub Fits : ℕ → ℕ → Type 0
Fits zero v = v ≡ 0
Fits (suc k) v = Fits k (v / 256)

pub from_le-le_bytes : (k v : ℕ) → Fits k v → from_le (le_bytes k v) ≡ v
unfolding le_bytes from_le
from_le-le_bytes zero v h = sym h
from_le-le_bytes (suc k) v h = omega (arith, from_le-le_bytes k (v / 256) h)

-- A swap puts the most significant byte first.
pub le_bytes-byte_swap : (k v : ℕ) → le_bytes k (byte_swap k v) ≡ reverse (le_bytes k v)
unfolding byte_swap
le_bytes-byte_swap k v =
    let bs = reverse (le_bytes k v) in
    let len : length bs ≡ k = omega (arith, length-reverse (le_bytes k v), length-le_bytes k v) in
    rw len at (le_bytes-from_le bs (All-reverse IsByte (le_bytes k v) (le_bytes-IsByte k v)))

-- Swapping twice, as a value that is sent and read back is, gives every value of the width back.
pub byte_swap_involutive : (k v : ℕ) → Fits k v → byte_swap k (byte_swap k v) ≡ v
byte_swap_involutive k v h =
    unfold byte_swap in rw (le_bytes-byte_swap k v, reverse-reverse) (from_le-le_bytes k v h)
