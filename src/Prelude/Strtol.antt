-- ===== src/Prelude/Strtol.antt =====
-- strtol and strtoll of <cstdlib> in base 10, and printing in base 10.
use Prim.Native.Nat.{ℕ, zero, suc, ◌+◌, ◌-◌, ◌*◌, ◌/◌, ◌%◌, ◌^◌}
use mathlib.Core.Bool.{Bool, true, false, ◌&&◌, ◌||◌}
use mathlib.Core.List.{[], ◌∷◌, ◌++◌}
use ash_bot.Prelude.Tests.{ltb, leb, ◌==◌, if◌then◌else◌}
use mathlib.Core.Option.{Option, none, some}
use ash_bot.Prelude.Lists.{length}
use ash_bot.Prelude.Int.{ℤ, pos, negsuc, eqb_ℤ}
use ash_bot.Prelude.Text.{Bytes}

abbrev pub is_digit : ℕ → Bool
is_digit c = leb b'0' c && leb c b'9'

-- isspace
abbrev pub is_space : ℕ → Bool
is_space c = c == 32 || (leb 9 c && leb c 13)

-- What strtol returns: the value, the text from the end pointer on, and whether there were
-- digits. Without digits the end pointer is the start.
pub record Parsed : Type 0 where
  pub value : ℤ
  pub end : Bytes
  pub converted : Bool

-- The digits at the front, read onto `acc`.
unfoldable pub read_digits : ℕ → Bytes → ℕ × Bytes
read_digits acc [] = (acc, [])
read_digits acc (c ∷ cs) =
    let rest = read_digits (acc * 10 + (c - b'0')) cs in if is_digit c then rest else (acc, c ∷ cs)

-- A negative number of the given magnitude.
abbrev pub negate : ℕ → ℤ
negate zero = pos 0
negate (suc n) = negsuc n

-- Values past the ends of a signed type of `width` bits are its ends.
abbrev clamp : ℕ → Bool → ℕ → ℤ
clamp width true v = if leb v (2 ^ (width - 1)) then negate v else negate (2 ^ (width - 1))
clamp width false v = if ltb v (2 ^ (width - 1)) then pos v else pos (2 ^ (width - 1) - 1)

abbrev starts_digit : Bytes → Bool
starts_digit [] = false
starts_digit (c ∷ cs) = is_digit c

abbrev read_magnitude : ℕ → Bytes → Bool → Bytes → Parsed
read_magnitude width start negative s =
    if starts_digit s
    then record {
      value = clamp width negative (read_digits 0 s).0;
      end = (read_digits 0 s).1;
      converted = true;
    }
    else record { value = pos 0; end = start; converted = false }

-- After the white space: a sign, then the digits.
abbrev read_sign : ℕ → Bytes → Bytes → Parsed
read_sign width start [] = read_magnitude width start false []
read_sign width start (c ∷ cs) =
    if c == b'-'
    then read_magnitude width start true cs
    else if c == b'+'
    then read_magnitude width start false cs
    else read_magnitude width start false (c ∷ cs)

unfoldable pub skip_space : Bytes → Bytes
skip_space [] = []
skip_space (c ∷ cs) = let rest = skip_space cs in if is_space c then rest else c ∷ cs

-- strtol at a `long` of `width` bits; strtoll at 64
unfoldable pub strtol : ℕ → Bytes → Parsed
unfolding read_digits skip_space
strtol width s = read_sign width s (skip_space s)

-- std::stoll: `none` where it throws, without digits or out of range
unfoldable pub stoll : Bytes → Option ℤ
unfolding strtol
stoll s =
    let exact = (strtol (65 + 4 * length s) s).value in
    if (strtol 64 s).converted && eqb_ℤ (strtol 64 s).value exact then some exact else none

-- The decimal digits of a number; `fuel` of the number itself is enough.
decimal_from : ℕ → ℕ → Bytes
decimal_from zero n = []
decimal_from (suc fuel) n =
    let more = decimal_from fuel (n / 10) in
    let digit = b'0' + n % 10 in if ltb n 10 then digit ∷ [] else more ++ digit ∷ []

unfoldable pub decimal : ℕ → Bytes
unfolding decimal_from
decimal n = decimal_from (suc n) n

unfoldable pub decimal_ℤ : ℤ → Bytes
unfolding decimal
decimal_ℤ (pos n) = decimal n
decimal_ℤ (negsuc n) = b'-' ∷ decimal (suc n)
