-- ===== src/Printf.antt =====
-- snprintf and vsnprintf of <cstdio>, for the directives that the source uses: `%s`, `%i`, `%llu`
-- and `%lld`.
use ash_bot.Prelude.{
  ℕ, ◌-◌, Bool, true, false, List, [], ◌∷◌, ◌++◌, Bytes, String, codes, take, ◌==◌, if◌then◌else◌,
}
use ash_bot.Prelude.Strtol.{decimal_ℤ}
use ash_bot.World.{Arg, str, int, object}

-- `garbage` is what `%s` prints of an argument that is no string.
render_arg : Bytes → List Arg → Bytes
render_arg garbage [] = garbage
render_arg garbage (str s ∷ args) = s
render_arg garbage (int v ∷ args) = decimal_ℤ v
render_arg garbage (object ∷ args) = garbage

next_args : List Arg → List Arg
next_args [] = []
next_args (a ∷ args) = args

-- One byte of a format, in a directive or not: what it prints, and whether a directive goes on.
printed : Bytes → Bool → ℕ → List Arg → Bytes
unfolding render_arg
printed garbage false c args = if c == b'%' then [] else c ∷ []
printed garbage true c args = if c == b'l' then [] else render_arg garbage args

in_directive : Bool → ℕ → Bool
in_directive false c = c == b'%'
in_directive true c = c == b'l'

left_args : Bool → ℕ → List Arg → List Arg
unfolding next_args
left_args false c args = args
left_args true c args = if c == b'l' then args else next_args args

print_from : Bytes → Bool → Bytes → List Arg → Bytes
print_from garbage directive [] args = []
print_from garbage directive (c ∷ cs) args =
    printed garbage directive c args
    ++ print_from garbage (in_directive directive c) cs (left_args directive c args)

-- The whole text: its length is what snprintf returns.
unfoldable pub printf : Bytes → String → List Arg → Bytes
unfolding print_from printed in_directive left_args decimal_ℤ
printf garbage format args = print_from garbage false (codes format) args

-- What snprintf leaves in a buffer of `size` bytes, up to the terminator.
unfoldable pub snprintf : Bytes → ℕ → String → List Arg → Bytes
unfolding printf
snprintf garbage size format args = take (size - 1) (printf garbage format args)
