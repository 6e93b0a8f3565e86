-- ===== src/Tests/Start.antt =====
-- The start of the bot, and what it sends.
use ash_bot.Prelude.{
  ℕ, ◌≡◌, refl, false, true, none, some, List, [], ◌∷◌, Bytes, codes, All, leb, length, map, arith,
}
use ash_bot.Prelude.Int.{pos}
use ash_bot.Partial.{defined}
use ash_bot.CcQueue.{CcQueue, newest_first}
use ash_bot.Irc.Connection.{Connection, new_connection}
use ash_bot.Irc.Connection.Recovery.{read_failed, read_failed_lem}
use ash_bot.Irc.Client.Sending.{ended, after_lines}
use ash_bot.Bot.{run}
use ash_bot.Bot.Run.{start_lines, run_lem}
use ash_bot.HttpClient.{CurlOptions, Transfer}
use ash_bot.Db.Params.{pgsql_array, fill_int, fill_array, array_data}
use ash_bot.Db.Wire.{le_bytes}
use ash_bot.Db.Query.{Param, integer, text, names, fill_params}
use ash_bot.Db.Query.Lengths.{fill_params-length}

abbrev buffers : CcQueue ℕ
buffers = newest_first

abbrev lines : List Bytes
lines = start_lines (codes "bot") (codes "oauth:1") (codes "#c")

run_example :
    run buffers (codes "bot") (codes "oauth:1") (codes "#c") 3 (some 1) (leb 2) (new_connection 0)
    ≡ some (
        defined (
          map ended lines,
          after_lines buffers lines (record (new_connection 0) { connected = true }),
        ))
unfolding new_connection
run_example =
    run_lem buffers (codes "bot") (codes "oauth:1") (codes "#c") 0 2 (leb 2) (new_connection 0) refl
      (λ j h. ground arith) refl (omega arith, (omega arith, (omega arith, (omega arith, tt))))

abbrev logged_in : Connection
logged_in = record (new_connection 0) { connected = true; registered = true }

read_failed_example :
    read_failed false 2 (some 1) (leb 1) logged_in
    ≡ some (record logged_in { connected = true; registered = false })
read_failed_example = read_failed_lem 0 1 (leb 1) logged_in refl (λ j h. ground arith) refl

abbrev site : CurlOptions → Transfer
site options = record {
  ok = true;
  pieces = codes "a" ∷ codes "b" ∷ [];
  status_code = pos 200;
  redirect_url = none;
}

abbrev params : List Param
params = integer 8 77 ∷ text (codes "ann") ∷ names (pgsql_array (codes "bo" ∷ [])) ∷ []

fill_params-length_example : All (λ v. v.1 ≡ pos (length v.0)) (fill_params params)
unfolding pgsql_array fill_params fill_int le_bytes ash_bot.Db.Params.fill_chars fill_array
fill_params-length_example =
    fill_params-length params (tt, (tt, (tt, tt))) (omega arith, (omega arith, (omega arith, tt)))
