-- ===== src/Commands.antt =====
-- include/commands/bot_command.h: the arguments of a command, as they are split off its message.
pub mod Arguments
pub mod Traits
pub mod Factory
pub mod Execute
pub mod WithMessage
use ash_bot.Prelude.{
  ℕ, zero, suc, ◌==◌, Bool, true, false, Option, none, some, List, [], ◌∷◌, Bytes, length, drop,
  break_at, str_eq, get_elem?, if◌then◌else◌,
}
use ash_bot.Prelude.Int.{ℤ}
use ash_bot.Prelude.Strtol.{strtol}
use ash_bot.Partial.{Partial, defined, undefined}

abbrev pub is_blank : ℕ → Bool
is_blank c = c == b' '

-- The loop of set_message_core: each round but the last ends an argument at a blank, so that the
-- length of the message is enough fuel.
unfoldable pub split_loop : ℕ → Bytes → List Bytes
split_loop zero message = message ∷ []
split_loop (suc fuel) message = elim (break_at is_blank message) [
  | none ↦ message ∷ []
  | some (before, here) ↦ before ∷ split_loop fuel (drop 1 here)
]

unfoldable pub set_message_core : Bytes → List Bytes
unfolding split_loop
set_message_core message = split_loop (length message) message

-- set_message: the arguments behind the name of the command
unfoldable pub set_message : Bytes → List Bytes
unfolding set_message_core
set_message message = elim (break_at is_blank message) [
  | none ↦ []
  | some (name, here) ↦ set_message_core (drop 1 here)
]

-- arg(_TArg&): the value before it is cast to the type of the argument
pub integer_arg : List Bytes → ℕ → Option ℤ
integer_arg args index = elim (get_elem? args index) [
  | none ↦ none
  | some text ↦
      (let parsed = strtol 64 text in if parsed.converted then some parsed.value else none)
]

-- arg(const char*&)
unfoldable pub text_arg : List Bytes → ℕ → Option Bytes
text_arg args index = get_elem? args index

-- arg_streq, which does not check the index
unfoldable pub arg_streq : List Bytes → Bytes → ℕ → Partial Bool
arg_streq args value index = elim (get_elem? args index) [
  | none ↦ undefined
  | some text ↦ defined (str_eq text value)
]
