-- ===== src/Commands/WithMessage.antt =====
-- include/commands/bot_command.h: bot_command_with_args_and_message, a command that means to keep the
-- text behind its name as well. No command of the repository is one.
use ash_bot.Prelude.{
  ℕ, suc, ap, ltb, ◌≡◌, refl, none, some, List, [], ◌∷◌, ◌++◌, Bytes, length, drop, break_at,
  break_at-append, leb, if◌then◌else◌, arith,
}
use ash_bot.Partial.{Partial, defined, undefined}
use ash_bot.CcQueue.{CcQueue}
use ash_bot.ObjectCache.{Cache, get_block, release_block}
use ash_bot.Commands.{is_blank, set_message_core, set_message}
use ash_bot.Commands.Arguments.{IsWord}

-- `buffer` is the member pMessage.
pub record MessageCommand : Type 0 where
  pub buffer : ℕ
  pub args : List Bytes

module _ (queue : CcQueue ℕ) where
  -- the constructor, with a string of the pool
  unfoldable pub new_message_command : Cache → MessageCommand × Cache
  new_message_command pool =
      let (block, pool') = get_block queue pool in (record { buffer = block; args = [] }, pool')

  -- the destructor
  unfoldable pub delete_message_command : MessageCommand → Cache → Cache
  delete_message_command c pool = release_block queue c.buffer pool

-- set_message: strcpy moves the text behind the first blank to the front of the buffer that it stands
-- in, which is undefined where both places overlap.
unfoldable pub set_message_text : Bytes → MessageCommand → Partial MessageCommand
set_message_text message c = elim (break_at is_blank message) [
  | none ↦ defined c
  | some (before, here) ↦
      (let text = drop 1 here in
        if leb (suc (length before)) (length text)
        then undefined
        else defined (record c { args = c.args ++ set_message_core text }))
]

leb-suc : (m n : ℕ) → leb (suc m) n ≡ ltb m n
leb-suc m n = ground arith

-- On a message of a name, a blank and a text, set_message is undefined behaviour if the text is longer
-- than the name; if it is not, the arguments are those of a command that does not keep the text, and the
-- buffer for the text stays as it was.
pub set_message_text_lem :
    (name text : Bytes) (c : MessageCommand)
    → IsWord name
    → set_message_text (name ++ b' ' ∷ text) c ≡ (
        if ltb (length name) (length text)
        then undefined
        else defined (record c { args = c.args ++ set_message (name ++ b' ' ∷ text) }))
unfolding set_message_text set_message
set_message_text_lem name text c word =
    rw (break_at-append is_blank name b' ' text word refl, set_message_text, set_message)
      (ap
        (λ b.
          if b then undefined else defined (record c { args = c.args ++ set_message_core text }))
        (leb-suc (length name) (length text)))
