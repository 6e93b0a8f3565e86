-- ===== src/Irc/Rfc2812.antt =====
-- include/irc/rfc2812.h: the lines of the protocol. A formatter leaves a text in the line buffer and
-- returns the length of the whole, which may not have fit.
use ash_bot.Prelude.{ℕ, [], ◌∷◌, List, Bytes, String, length}
use ash_bot.Prelude.Int.{ℤ}
use ash_bot.Printf.{printf, snprintf}
use ash_bot.World.{Arg, str, int}
use ash_bot.Db.Results.{string_buffer_size}

-- rfc_format
abbrev pub rfc_format : String → List Arg → Bytes × ℕ
rfc_format format args =
    (snprintf [] string_buffer_size format args, length (printf [] format args))

unfoldable pub pass : Bytes → Bytes × ℕ
pass password = rfc_format "PASS %s" (str password ∷ [])

unfoldable pub nick : Bytes → Bytes × ℕ
nick nickname = rfc_format "NICK %s" (str nickname ∷ [])

unfoldable pub join : Bytes → Bytes × ℕ
join channel = rfc_format "JOIN %s" (str channel ∷ [])

pub part : Bytes → Bytes × ℕ
part channel = rfc_format "PART %s" (str channel ∷ [])

pub oper : Bytes → Bytes → Bytes × ℕ
oper name password = rfc_format "OPER %s %s" (str name ∷ str password ∷ [])

unfoldable pub privmsg : Bytes → Bytes → Bytes × ℕ
privmsg destination message = rfc_format "PRIVMSG %s :%s" (str destination ∷ str message ∷ [])

unfoldable pub notice : Bytes → Bytes → Bytes × ℕ
notice destination message = rfc_format "NOTICE %s :%s" (str destination ∷ str message ∷ [])

unfoldable pub user : Bytes → ℤ → Bytes → Bytes × ℕ
user username mode realname =
    rfc_format "USER %s %i * :%s" (str username ∷ int mode ∷ str realname ∷ [])

-- ext::action
unfoldable pub action : Bytes → Bytes → Bytes × ℕ
action destination message =
    rfc_format "PRIVMSG %s :\u{1}ACTION %s\u{1}" (str destination ∷ str message ∷ [])
