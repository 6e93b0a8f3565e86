-- ===== src/Db/Wire.antt =====
-- include/db/db.h: the bytes of an integer in memory and on the wire. The host is little-endian,
-- so `htons`, `htonl` and `htonll` of include/byteorder.h swap the bytes, and so do their inverses.
pub mod RoundTrip
use mathlib.Core.List.{reverse}
use ash_bot.Prelude.{ℕ, zero, suc, ◌+◌, ◌*◌, ◌/◌, ◌%◌, [], ◌∷◌, Bytes}

-- The `k` bytes that hold a value in memory, and the value that bytes in memory hold.
unfoldable pub le_bytes : ℕ → ℕ → Bytes
le_bytes zero v = []
le_bytes (suc k) v = v % 256 ∷ le_bytes k (v / 256)

unfoldable pub from_le : Bytes → ℕ
from_le [] = 0
from_le (b ∷ bs) = b + 256 * from_le bs

-- htons, htonl and htonll at 2, 4 and 8 bytes; ntohs, ntohl and ntohll are the same functions.
unfoldable pub byte_swap : ℕ → ℕ → ℕ
unfolding le_bytes from_le
byte_swap k v = from_le (reverse (le_bytes k v))
