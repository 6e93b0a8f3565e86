-- ===== src/Bot/Run.antt =====
-- What the bot sends when it starts.
use mathlib.Core.List.{append-nil}
use ash_bot.Prelude.{
  ℕ, suc, ◌<◌, ◌≤◌, ◌≡◌, refl, ap, Bool, true, false, some, List, [], ◌∷◌, ◌++◌, Bytes, codes,
  length, map, All,
}
use ash_bot.Prelude.Int.{pos}
use ash_bot.Prelude.Strtol.{decimal_ℤ, decimal}
use ash_bot.Partial.{defined}
use ash_bot.CcQueue.{CcQueue}
use ash_bot.World.{str, int}
use ash_bot.Printf.{printf, snprintf}
use ash_bot.Irc.Rfc2812
use ash_bot.Irc.Connection.{Connection}
use ash_bot.Irc.Connection.Attempts.{connect-first}
use ash_bot.Irc.Client.{login, join}
use ash_bot.Irc.Client.Sending.{ended, after_lines, formatted_line, send_lines_lem}
use ash_bot.Bot.{log_in, run}

abbrev pub pass_line : Bytes → Bytes
pass_line token = codes "PASS " ++ token

abbrev pub nick_line : Bytes → Bytes
nick_line nickname = codes "NICK " ++ nickname

abbrev pub user_line : Bytes → Bytes
user_line nickname = codes "USER " ++ (nickname ++ (codes " 0 * :" ++ nickname))

abbrev pub join_line : Bytes → Bytes
join_line channel = codes "JOIN " ++ channel

-- The lines that log in and join, in their order.
abbrev pub start_lines : Bytes → Bytes → Bytes → List Bytes
start_lines nickname token channel =
    pass_line token ∷ nick_line nickname ∷ user_line nickname ∷ join_line channel ∷ []

pass-printed : (s : Bytes) → printf [] "PASS %s" (str s ∷ []) ≡ pass_line s
unfolding printf
pass-printed s = ap (λ u. codes "PASS " ++ u) (append-nil s)

pass_lem : (s : Bytes) → Rfc2812.pass s ≡ formatted_line (pass_line s)
unfolding Rfc2812.pass snprintf
pass_lem s = ap formatted_line (pass-printed s)

nick-printed : (s : Bytes) → printf [] "NICK %s" (str s ∷ []) ≡ nick_line s
unfolding printf
nick-printed s = ap (λ u. codes "NICK " ++ u) (append-nil s)

nick_lem : (s : Bytes) → Rfc2812.nick s ≡ formatted_line (nick_line s)
unfolding Rfc2812.nick snprintf
nick_lem s = ap formatted_line (nick-printed s)

join-printed : (s : Bytes) → printf [] "JOIN %s" (str s ∷ []) ≡ join_line s
unfolding printf
join-printed s = ap (λ u. codes "JOIN " ++ u) (append-nil s)

join_lem : (s : Bytes) → Rfc2812.join s ≡ formatted_line (join_line s)
unfolding Rfc2812.join snprintf
join_lem s = ap formatted_line (join-printed s)

user-printed :
    (s : Bytes) → printf [] "USER %s %i * :%s" (str s ∷ int (pos 0) ∷ str s ∷ []) ≡ user_line s
unfolding printf decimal_ℤ decimal
user-printed s = ap (λ u. codes "USER " ++ (s ++ (codes " 0 * :" ++ u))) (append-nil s)

user_lem : (s : Bytes) → Rfc2812.user s (pos 0) s ≡ formatted_line (user_line s)
unfolding Rfc2812.user snprintf
user_lem s = ap formatted_line (user-printed s)

module _ (queue : CcQueue ℕ) where
  log_in_lem :
      (nickname token channel : Bytes) (c : Connection)
      → c.connected ≡ true
      → All (λ line. length line ≤ 2046) (start_lines nickname token channel)
      → log_in queue nickname token channel c
        ≡ defined (
          map ended (start_lines nickname token channel),
          after_lines queue (start_lines nickname token channel) c,
        )
  unfolding log_in login join
  log_in_lem nickname token channel c up (pass_fits, (nick_fits, (user_fits, (join_fits, tt)))) =
      let first = pass_line token ∷ nick_line nickname ∷ user_line nickname ∷ [] in
      let c1 = after_lines queue first c in
      rw
        (
          pass_lem token,
          log_in,
          login,
          join,
          nick_lem nickname,
          user_lem nickname,
          join_lem channel,
          send_lines_lem queue first c up (pass_fits, (nick_fits, (user_fits, tt))),
          send_lines_lem queue (join_line channel ∷ []) c1 up (join_fits, tt),
        )
        refl

  -- run on a resolved name returns after the first attempt to connect that succeeds, and has then sent
  -- exactly the password, the name, the user and the channel to join, each in a line of its own and
  -- in this order, if each line fits with its end in 2048 bytes.
  pub run_lem :
      (nickname token channel : Bytes) (endpoints k : ℕ) (connects : ℕ → Bool) (c : Connection)
      → c.connected ≡ false
      → ((j : ℕ) → j < k → connects j ≡ false)
      → connects k ≡ true
      → All (λ line. length line ≤ 2046) (start_lines nickname token channel)
      → run queue nickname token channel (suc k) (some (suc endpoints)) connects c
        ≡ some (
            defined (
              map ended (start_lines nickname token channel),
              after_lines queue
                  (start_lines nickname token channel)
                  (record c { connected = true }),
            ))
  unfolding run
  run_lem nickname token channel endpoints k connects c down fails ok fit =
      rw (connect-first endpoints connects c k down fails ok, run)
        (ap some (log_in_lem nickname token channel (record c { connected = true }) refl fit))
