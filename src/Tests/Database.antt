-- ===== src/Tests/Database.antt =====
-- Parameters and results of queries.
use ash_bot.Prelude.{◌≡◌, refl, some, List, [], ◌∷◌, Bytes, codes, length, arith}
use ash_bot.Db.Wire.{le_bytes}
use ash_bot.Db.Params.{pgsql_array, fill_array}
use ash_bot.Db.Params.ArrayCodec.{recv_array, fill_array_lem}
use ash_bot.Db.Results.{db_result, read_int}
use ash_bot.Db.Results.Counts.{sent, read_int-sent}
use ash_bot.Tests.Setting.{table}

abbrev names : List Bytes
names = codes "ann" ∷ codes "robert" ∷ []

fill_array_example :
    let filled = fill_array (pgsql_array names) in
    (bytes : Bytes) × (filled.db_data ≡ some bytes)
    × (filled.db_data_length ≡ length bytes)
    × (recv_array bytes ≡ some names)
    × (fill_array filled ≡ filled)
fill_array_example = fill_array_lem names (omega arith) (omega arith, (omega arith, tt))

read_int-sent_example : read_int 8 (db_result (table 1 (sent 8 50))) 0 0 ≡ some 50
unfolding le_bytes
read_int-sent_example = read_int-sent (db_result (table 1 (sent 8 50))) 50 [] 0 0 refl refl
