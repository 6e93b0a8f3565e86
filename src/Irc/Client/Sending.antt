-- ===== src/Irc/Client/Sending.antt =====
-- What send_message writes to the socket.
use mathlib.Core.List.{append-nil}
use ash_bot.Prelude.{
  ℕ, zero, suc, ◌+◌, ◌≤◌, ◌≡◌, refl, ap, ◌∙◌, true, false, List, All, map, [], ◌∷◌, ◌++◌, Bytes,
  String, codes, length, take, leb, ltb, Bool-cases, inl, inr, if◌then◌else◌, arith,
}
use ash_bot.Partial.{defined, undefined}
use ash_bot.CcQueue.{CcQueue}
use ash_bot.ObjectCache.{get_block, release_block}
use ash_bot.World.{str}
use ash_bot.Printf.{printf, snprintf}
use ash_bot.Db.Results.{string_buffer_size}
use ash_bot.Irc.Enums.{SendType}
use ash_bot.Irc.Rfc2812.{privmsg, notice, action}
use ash_bot.Irc.Connection.{Connection, write_line}
use ash_bot.Irc.Client.{send_line, send_lines, send_message}

-- The line of a chat message, as the protocol has it.
abbrev pub chat_line : SendType → Bytes → Bytes → Bytes
chat_line SendType.message destination text =
    codes "PRIVMSG " ++ (destination ++ (codes " :" ++ text))
chat_line SendType.action destination text =
    codes "PRIVMSG " ++ (destination ++ (codes " :\u{1}ACTION " ++ (text ++ 1 ∷ [])))
chat_line SendType.notice destination text =
    codes "NOTICE " ++ (destination ++ (codes " :" ++ text))

-- A line and its end.
abbrev pub ended : Bytes → Bytes
ended line = line ++ 13 ∷ 10 ∷ []

take-all : (n : ℕ) (s : Bytes) → length s ≤ n → take n s ≡ s
take-all zero [] h = refl
take-all zero (c ∷ s) h = absurd (omega arith)
take-all (suc n) [] h = refl
take-all (suc n) (c ∷ s) h = ap (◌∷◌ c) (take-all n s (omega arith))

-- A line as a formatter gives it to send_line.
abbrev pub formatted_line : Bytes → Bytes × ℕ
formatted_line line = (take 2047 line, length line)

format_of : SendType → String
format_of SendType.message = "PRIVMSG %s :%s"
format_of SendType.action = "PRIVMSG %s :\u{1}ACTION %s\u{1}"
format_of SendType.notice = "NOTICE %s :%s"

printf_lem :
    (type : SendType) (d t : Bytes)
    → printf [] (format_of type) (str d ∷ str t ∷ []) ≡ chat_line type d t
unfolding printf format_of
printf_lem SendType.message d t =
    ap (λ u. codes "PRIVMSG " ++ (d ++ (codes " :" ++ u))) (append-nil t)
printf_lem SendType.action d t = refl
printf_lem SendType.notice d t =
    ap (λ u. codes "NOTICE " ++ (d ++ (codes " :" ++ u))) (append-nil t)

formatted : SendType → Bytes → Bytes → Bytes × ℕ
formatted SendType.message = privmsg
formatted SendType.action = action
formatted SendType.notice = notice

formatted_lem :
    (type : SendType) (d t : Bytes) → formatted type d t ≡ formatted_line (chat_line type d t)
unfolding formatted privmsg notice action snprintf format_of
formatted_lem SendType.message d t = ap formatted_line (printf_lem SendType.message d t)
formatted_lem SendType.action d t = ap formatted_line (printf_lem SendType.action d t)
formatted_lem SendType.notice d t = ap formatted_line (printf_lem SendType.notice d t)

module _ (queue : CcQueue ℕ) where
  -- The state behind a line that was written: its buffer is taken and given back.
  abbrev pub after_line : Connection → Connection
  after_line c =
      let (block, pool) = get_block queue c.line_pool in
      record c { line_pool = release_block queue block pool }

  send_line_lem :
      (line : Bytes) (c : Connection)
      → c.connected ≡ true
      → send_line queue (take 2047 line, length line) c
        ≡ (if leb (length line) 2046 then defined (ended line ∷ [], after_line c) else undefined)
  unfolding send_line write_line
  send_line_lem line c up = elim (Bool-cases (leb (length line) 2046)) [
    | inl fits ↦
        (let room : ltb string_buffer_size (length line + 2) ≡ false = ground arith in
          let whole : take (length line) (take 2047 line) ≡ line =
            rw (take-all 2047 line (ground arith)) (take-all (length line) line (omega arith)) in
          rw (fits, send_line, write_line, up, room, whole) refl)
    | inr long ↦
        (let no_room : ltb string_buffer_size (length line + 2) ≡ true = ground arith in
          rw (long, send_line, write_line, up, no_room) refl)
  ]

  -- The line of a chat message whose length and end fit in 2048 bytes is written whole, and its
  -- buffer is given back; a longer one is written past its buffer.
  pub send_message_lem :
      (type : SendType) (destination text : Bytes) (c : Connection)
      → c.connected ≡ true
      → send_message queue type destination text c ≡ (
          if leb (length (chat_line type destination text)) 2046
          then defined (ended (chat_line type destination text) ∷ [], after_line c)
          else undefined)
  unfolding send_message formatted
  send_message_lem SendType.message destination text c up =
      ap (λ l. send_line queue l c) (formatted_lem SendType.message destination text)
      ∙ send_line_lem (chat_line SendType.message destination text) c up
  send_message_lem SendType.action destination text c up =
      ap (λ l. send_line queue l c) (formatted_lem SendType.action destination text)
      ∙ send_line_lem (chat_line SendType.action destination text) c up
  send_message_lem SendType.notice destination text c up =
      ap (λ l. send_line queue l c) (formatted_lem SendType.notice destination text)
      ∙ send_line_lem (chat_line SendType.notice destination text) c up

  abbrev pub after_lines : List Bytes → Connection → Connection
  after_lines [] c = c
  after_lines (line ∷ ls) c = after_lines ls (after_line c)

  pub send_lines_lem :
      (ls : List Bytes) (c : Connection)
      → c.connected ≡ true
      → All (λ line. length line ≤ 2046) ls
      → send_lines queue (map formatted_line ls) c ≡ defined (map ended ls, after_lines ls c)
  unfolding send_lines
  send_lines_lem [] c up fit = refl
  send_lines_lem (line ∷ ls) c up fit =
      let fits : leb (length line) 2046 ≡ true = ground (arith, fit.0) in
      rw (send_line_lem line c up, send_lines, fits, send_lines_lem ls (after_line c) up fit.1) refl
