-- ===== src/Tests/Timers.antt =====
-- Timers and tokens.
use ash_bot.Prelude.{
  ◌≡◌, refl, false, true, none, some, List, Bytes, ◌==◌, if◌then◌else◌, [], ◌∷◌, codes, All, arith,
}
use ash_bot.Prelude.Int.{pos}
use ash_bot.Partial.{defined, ◌>>=◌}
use ash_bot.Db.Wire.{le_bytes}
use ash_bot.Db.Results.{DbResult, db_result, tuples_ok}
use ash_bot.TimedModule.{new_module, seconds_elapsed}
use ash_bot.TimedModule.Counts.{IsCounted, seconds_elapsed-IsCounted}
use ash_bot.Tokens.{youtube, get_token, token_index, read_rows}
use ash_bot.Tokens.Loaded.{AreRows, read_rows_lem}

seconds_elapsed-IsCounted_example :
    All (IsCounted 95) (seconds_elapsed 95 ((0, new_module (pos 30) true) ∷ []))
unfolding new_module
seconds_elapsed-IsCounted_example =
    seconds_elapsed-IsCounted 95 ((0, new_module (pos 30) true) ∷ [])
      ((30, refl, omega arith, omega arith), tt)

-- A result of two rows for the same token.
abbrev two_rows : DbResult
two_rows = db_result (record {
  status = tuples_ok;
  ntuples = 2;
  getvalue = λ row column.
      some (if column == 0 then 0 ∷ 2 ∷ [] else if row == 0 then codes "old" else codes "new");
  getlength = λ row column. if column == 0 then 2 else 3;
  getisnull = λ row column. false;
})

two_rows-AreRows : AreRows two_rows 0 ((2, codes "old") ∷ (2, codes "new") ∷ [])
unfolding le_bytes
two_rows-AreRows = (
  record {
    type_known = omega arith;
    text_ends = (refl, (refl, (refl, tt)));
    text_fits = omega arith;
    type_rest = [];
    text_rest = [];
    type_sent = refl;
    text_sent = refl;
    text_length = refl;
  },
  (
    record {
      type_known = omega arith;
      text_ends = (refl, (refl, (refl, tt)));
      text_fits = omega arith;
      type_rest = [];
      text_rest = [];
      type_sent = refl;
      text_sent = refl;
      text_length = refl;
    },
    tt,
  ),
)

abbrev no_tokens : List Bytes
no_tokens = [] ∷ [] ∷ [] ∷ [] ∷ [] ∷ [] ∷ [] ∷ [] ∷ [] ∷ [] ∷ [] ∷ [] ∷ []

read_rows_example :
    (read_rows two_rows 2 0 none no_tokens >>= λ tokens. get_token tokens youtube)
    ≡ (get_token no_tokens youtube >>= λ old. defined (codes "new"))
unfolding token_index
read_rows_example =
    read_rows_lem two_rows ((2, codes "old") ∷ (2, codes "new") ∷ []) no_tokens youtube
      two_rows-AreRows refl
