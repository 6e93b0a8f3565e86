-- ===== src/Tests/Requests.antt =====
-- What it costs to serve a request, and who is a subscriber.
use ash_bot.Prelude.{
  length, ◌≡◌, false, str_eq, ◌+◌, ◌≤◌, Option, some, List, [], ◌∷◌, Bytes, codes, if◌then◌else◌,
  arith,
}
use ash_bot.Prelude.Int.{pos}
use ash_bot.TwitchApi.{member, add_names}
use ash_bot.SubManager.{is_sub, add_sub}
use ash_bot.SubManager.Added.{add_sub-is_sub}
use ash_bot.SubManager.Names.{add_names-is_sub}
use ash_bot.SongRequest.Provider.Check.{request_song_check}
use ash_bot.SongRequest.Provider.Request.{request_song}
use ash_bot.SongRequest.Fetch.{get_song}
use ash_bot.SongRequest.Song.{new_song}
use ash_bot.SongRequest.Provider.Request.Requests.{
  is_stored, urls, urls_with, request_song-requests,
}
use ash_bot.Tests.Setting.{answers, wish, open_provider}
use ash_bot.Tests.Songs.{some_apis}

request_song-requests_example :
    let env = answers 1 [] in
    let checked = request_song_check env open_provider wish [] in
    let got = get_song env some_apis (codes "dQw4w9WgXcQ") (new_song (pos 0) (pos 0)) checked.1 in
    let stored = is_stored env some_apis (pos 0) (codes "dQw4w9WgXcQ") checked.1 in
    (length (urls got.1) ≤ 0 + (if stored then 0 else 2))
    × (urls (request_song env some_apis (pos 0) open_provider wish []).1
        ≡ (if checked.0 then urls_with env open_provider wish got.0 got.1 else []))
request_song-requests_example =
    request_song-requests (answers 1 []) some_apis (pos 0) open_provider wish []

abbrev page : List (Option Bytes)
page = some (codes "ann") ∷ some (codes "bob") ∷ []

add_names-is_sub_example :
    (is_sub (answers 0 []) (codes "eve") (add_names page 0 []).1 [] ≡ (false, []))
    × ((add_names page 0 []).0 ≡ 2)
unfolding member str_eq mathlib.Core.List.filter_map
add_names-is_sub_example = add_names-is_sub (answers 0 []) page [] (codes "eve") [] (omega arith)

-- The set was empty, and then it has one name.
add_sub-is_sub_example :
    is_sub (answers 1 []) (codes "bob") (add_sub (answers 1 []) (codes "ann") [] []).0 []
    ≡ (false, [])
unfolding member str_eq
add_sub-is_sub_example = add_sub-is_sub (answers 1 []) (codes "ann") (codes "bob") [] [] []
