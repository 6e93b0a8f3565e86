-- ===== src/Tests/Songs.antt =====
-- Song requests and subscribers.
use ash_bot.Prelude.{
  ℕ, zero, suc, ◌≡◌, ◌≢◌, refl, sym, ap, Bool, true, false, Option, none, some, List, [], ◌∷◌, ◌++◌,
  Bytes, codes, arith, if◌then◌else◌,
}
use ash_bot.Prelude.Int.{pos}
use text.Mathlib.Text.{◌==◌ as same_text}
use ash_bot.World.{Event, queried, Env}
use ash_bot.Db.Results.{PgResult}
use ash_bot.Partial.{Holds}
use ash_bot.Regex.{Regex, seq, times, some_of, Match, Engine, IsGrouped}
use ash_bot.Db.Results.Counts.{sent}
use ash_bot.Db.Wire.{le_bytes}
use ash_bot.TwitchApi.{SubsObject}
use ash_bot.Outcome.{done}
use ash_bot.SongRequest.Song.{Song, new_song, parse_link, vimeo, vimeo_id, youtube_id_v}
use ash_bot.SongRequest.Song.Links.{parse_link-ne-vimeo}
use ash_bot.SongRequest.Fetch.{Apis}
use ash_bot.SongRequest.Provider.Check.{sql_queue_count, request_song_check}
use ash_bot.SongRequest.Provider.Check.Limits.{Counts, ban_asked, request_song_check-unlimited}
use ash_bot.SongRequest.Provider.Worker.{timed_out, dequeued, serving, returned, request_worker}
use ash_bot.SongRequest.Provider.Worker.Lifetime.{request_worker-enabled}
use ash_bot.Tests.Setting.{answers, table, wish, open_provider}

abbrev pub tune : Song
tune = record (new_song (pos 180) (pos 0)) { name = codes "Tune" }

-- A database that bans nobody and counts fifty songs in the queue.
abbrev full_rows : List Event → PgResult
full_rows (queried sql params ∷ h) =
    if same_text sql sql_queue_count then table 1 (sent 8 50) else table 0 []
full_rows _ = table 0 []

abbrev full_queue : Env
full_queue = record (answers 0 []) { result = full_rows }

fifty_songs : Counts full_queue (queried sql_queue_count [] ∷ ban_asked wish []) 50
unfolding le_bytes
fifty_songs = record { succeeds = refl; small = omega arith; rest = []; bigint = refl }

-- The queue has room for 40 songs.
request_song_check-unlimited_example :
    (request_song_check full_queue (record open_provider { queue_capacity = pos 40 }) wish []).0
    ≡ true
unfolding ash_bot.SongRequest.Provider.new_provider
request_song_check-unlimited_example =
    request_song_check-unlimited full_queue (record open_provider { queue_capacity = pos 40 }) wish
      [] 50 39 refl fifty_songs

-- An engine that finds nothing, and one that finds the identifier after `v=`.
abbrev pub blind : Engine
blind = record { regex_match = λ r s. none; regex_search = λ r s. none; regex_erase = λ r s. s }

-- The patterns of `v=` and of the number of a video are found, as they start with a repetition.
abbrev repeats : Regex → Bool
repeats (seq (times n a) b) = true
repeats (seq (some_of lazy a) b) = true
repeats _ = false

-- A match that starts with the text, and has no groups.
abbrev whole : Bytes → ℕ → Option Bytes
whole s zero = some s
whole s (suc n) = none

abbrev without_groups : Bytes → Match
without_groups s = record { first = whole s }

abbrev match_v : Regex → Bytes → Option Match
match_v r s = if repeats r then some (without_groups s) else none

abbrev finds_v : Engine
finds_v = record { regex_match = λ r s. none; regex_search = match_v; regex_erase = λ r s. s }

abbrev v_link : Bytes
v_link = codes "v=dQw4w9WgXcQ"

finds_v-IsGrouped : (r : Regex) (s : Bytes) → IsGrouped finds_v r s
finds_v-IsGrouped r s = record { search_group = λ m n h e. no_groups (repeats r) e n }
  where
    no_groups :
        {m : Match} (b : Bool)
        → (if b then some (without_groups s) else none) ≡ some m
        → (n : ℕ) → m.first (suc n) ≡ none
    no_groups {m} true e n =
        (let same : without_groups s ≡ m = cc in ap (λ k. k.first (suc n)) (sym same))
    no_groups {m} false e n = absurd cc

-- The link of a video at Vimeo, whose number the engine finds.
parse_link-ne-vimeo_example :
    Holds (λ (s' : Song). s'.source ≢ vimeo) (parse_link finds_v (codes "https://vimeo.com/7") tune)
parse_link-ne-vimeo_example =
    parse_link-ne-vimeo finds_v (codes "https://vimeo.com/7") (finds_v-IsGrouped vimeo_id _)
      (finds_v-IsGrouped youtube_id_v _) tune (unfold new_song in λ e. cc)

abbrev last_byte : Bytes → ℕ
last_byte (a ∷ b ∷ c ∷ d ∷ []) = d
last_byte _ = 0

last_eq : {a b c : ℕ} → codes "PT1H" ≡ a ∷ b ∷ c ∷ b'S' ∷ [] → ◌≡◌ {A = ℕ} b'H' b'S'
last_eq e = ap last_byte e

no_seconds : (before : Bytes) → codes "PT1H" ≢ before ++ b'S' ∷ []
no_seconds [] e = cc
no_seconds (a ∷ []) e = cc
no_seconds (a ∷ b ∷ []) e = cc
no_seconds (a ∷ b ∷ c ∷ []) e =
    (let last : ◌≡◌ {A = ℕ} b'H' b'S' = last_eq e in omega (arith, last))
no_seconds (a ∷ b ∷ c ∷ d ∷ []) e = cc
no_seconds (a ∷ b ∷ c ∷ d ∷ x ∷ rest) e = cc

abbrev pub some_apis : Apis
some_apis = record {
  engine = blind;
  get_time = λ s. pos 0;
  youtube_data = λ s. some record {
    total_results = done (some (pos 1));
    published_at = done [];
    title = done (codes "Tune");
    duration = done (codes "PT3M0S");
    region_restriction = done none;
    embeddable = done (some true);
  };
  soundcloud_data = λ s. some record {
    embeddable_by = done (codes "all");
    title = done [];
    permalink_url = done [];
    duration = done (pos 180);
  };
  vimeo_data =
      λ s. some record { name = done []; duration = done (pos 180); created_time = done [] };
  youtube_key = [];
  soundcloud_id = [];
  vimeo_token = [];
}

request_worker-enabled_example :
    (request_worker
      (answers 0 [])
      some_apis
      (pos 0)
      (serving open_provider)
      (timed_out ∷ dequeued wish ∷ timed_out ∷ [])
      []).0
    ≢ returned
request_worker-enabled_example =
    request_worker-enabled (answers 0 []) some_apis (pos 0) open_provider
      (timed_out ∷ dequeued wish ∷ timed_out ∷ []) [] refl tt

-- Every page has the same two users.
abbrev one_page : Bytes → Option SubsObject
one_page reply = some record {
  total = some (done (pos 2));
  subscriptions = done (some (some (codes "ann") ∷ some (codes "bob") ∷ []));
}
