-- ===== src/Prelude/Text.antt =====
-- Bytes of a C string without its terminator, and the <cstring> functions that the source calls.
-- A pointer into a string is the suffix that starts there.
use Prim.Native.Char.{code}
use Prim.Native.String.{String}
use Prim.Native.Nat.{ℕ, ◌+◌}
use mathlib.Core.Path.{◌≡◌, refl}
use mathlib.Core.Logic.{◌↔◌}
use mathlib.Core.Bool.{Bool, true, false, ◌&&◌, ◌||◌}
use mathlib.Core.Option.{Option, none, some}
use mathlib.Core.List.{List, [], ◌∷◌, ◌++◌}
use native.Mathlib.Omega.{arith}
use ash_bot.Prelude.Tests.{◌==◌, leb, if◌then◌else◌}

abbrev pub Bytes : Type 0
Bytes = List ℕ

-- The bytes of an ASCII literal.
abbrev pub codes : String → Bytes
codes String.[] = []
codes (String.◌∷◌ c s) = code c ∷ codes s

-- strcmp(a, b) == 0, and == of std::string
unfoldable pub str_eq : Bytes → Bytes → Bool
str_eq [] [] = true
str_eq [] (y ∷ ys) = false
str_eq (x ∷ xs) [] = false
str_eq (x ∷ xs) (y ∷ ys) = x == y && str_eq xs ys

-- strncmp(s, prefix, strlen(prefix)) == 0
unfoldable pub starts_with : Bytes → Bytes → Bool
starts_with [] s = true
starts_with (p ∷ ps) [] = false
starts_with (p ∷ ps) (c ∷ cs) = p == c && starts_with ps cs

-- strstr(s, needle) != nullptr
unfoldable pub contains : Bytes → Bytes → Bool
unfolding starts_with
contains needle [] = starts_with needle []
contains needle (c ∷ cs) = starts_with needle (c ∷ cs) || contains needle cs

-- The text before the first byte that passes the test, and the suffix that starts there: `none`
-- is the null pointer of `strchr` and `strpbrk`.
unfoldable pub break_at : (ℕ → Bool) → Bytes → Option (Bytes × Bytes)
break_at p [] = none
break_at p (c ∷ cs) =
    if p c
    then some ([], c ∷ cs)
    else elim (break_at p cs) [ none ↦ none | some (before, here) ↦ some (c ∷ before, here) ]

abbrev pub lower : ℕ → ℕ
lower c = if leb b'A' c && leb c b'Z' then c + 32 else c

-- _stricmp(a, b) == 0
unfoldable pub stricmp_eq : Bytes → Bytes → Bool
stricmp_eq [] [] = true
stricmp_eq [] (y ∷ ys) = false
stricmp_eq (x ∷ xs) [] = false
stricmp_eq (x ∷ xs) (y ∷ ys) = lower x == lower y && stricmp_eq xs ys

pub str_eq_iff : (a b : Bytes) → (str_eq a b ≡ true) ↔ (a ≡ b)
unfolding str_eq
str_eq_iff [] [] = (λ _. refl, λ _. refl)
str_eq_iff [] (y ∷ ys) = (λ h. cc, λ h. cc)
str_eq_iff (x ∷ xs) [] = (λ h. cc, λ h. cc)
str_eq_iff (x ∷ xs) (y ∷ ys) = let ih = str_eq_iff xs ys in ground (arith, ih)

-- Every byte fails the test.
abbrev pub Avoids : (ℕ → Bool) → Bytes → Type 0
Avoids p [] = Unit {0}
Avoids p (c ∷ cs) = (p c ≡ false) × Avoids p cs

pub break_at-append :
    (p : ℕ → Bool) (before : Bytes) (c : ℕ) (rest : Bytes)
    → Avoids p before
    → p c ≡ true
    → break_at p (before ++ c ∷ rest) ≡ some (before, c ∷ rest)
unfolding break_at
break_at-append p [] c rest h hit = rw hit
break_at-append p (b ∷ bs) c rest h hit = rw (h.0, break_at-append p bs c rest h.1 hit)

pub break_at-none : (p : ℕ → Bool) (s : Bytes) → Avoids p s → break_at p s ≡ none
unfolding break_at
break_at-none p [] h = refl
break_at-none p (c ∷ cs) h = rw (h.0, break_at-none p cs h.1)

pub break_at-skip :
    (p : ℕ → Bool) (a b before here : Bytes)
    → Avoids p a
    → break_at p b ≡ some (before, here)
    → break_at p (a ++ b) ≡ some (a ++ before, here)
unfolding break_at
break_at-skip p [] b before here h e = e
break_at-skip p (c ∷ a) b before here h e = rw (h.0, break_at-skip p a b before here h.1 e)
