-- ===== src/SongRequest/Youtube.antt =====
-- source/modules/songrequest/youtube_api.cpp. The parser of JSON is a parameter, as what the source
-- looks up in its result.
pub mod Duration
pub mod Playable
use ash_bot.Prelude.{
  ℕ, ◌+◌, ◌*◌, Bool, true, false, not, ◌||◌, Option, none, some, List, [], ◌∷◌, ◌++◌, Bytes, String,
  codes, stricmp_eq, take, ◌==◌, if◌then◌else◌,
}
use ash_bot.Prelude.Int.{ℤ, pos, negsuc, eqb_ℤ, pos_part}
use ash_bot.Prelude.Strtol.{is_digit, strtol}
use ash_bot.Partial.{Partial, defined, undefined}
use ash_bot.Regex.{Regex, byte_in, opt, some_of, group, ◌>>>◌, text, Match, Engine}
use ash_bot.Printf.{snprintf}
use ash_bot.World.{str, Env, M, pure, send_request, ◌>>=◌ as bind}
use ash_bot.Outcome.{Outcome, done, threw, faulted, ◌>>=◌}
use ash_bot.SongRequest.Song.{
  Song, parse_iso8601_created_date, no_error, does_not_exist, region_restricted, not_embeddable,
}

-- the values of an array, whose as_string may throw
unfoldable pub contains_value : List (Outcome Bytes) → Bytes → Outcome Bool
contains_value [] value = done false
contains_value (reading ∷ vs) value =
    let rest = contains_value vs value in
    reading >>= λ v. if stricmp_eq v value then done true else rest

abbrev digits_of : Regex
digits_of = some_of false (byte_in is_digit)

-- VideoLength
abbrev pub video_length : Regex
video_length =
    text "PT"
    >>> opt (group 1 digits_of >>> text "H")
    >>> opt (group 2 digits_of >>> text "M")
    >>> group 3 digits_of
    >>> text "S"

-- strtol at a group; an `int` of 32 bits
abbrev group_value : Option Bytes → ℕ
group_value none = 0
group_value (some s) = pos_part (strtol 32 s).value

-- A group that took no part points to the start of the input, which is a P.
abbrev took_part : Option Bytes → Bool
took_part none = false
took_part (some []) = true
took_part (some (c ∷ cs)) = not (c == b'P')

-- The seconds of a duration such as PT1H2M3S, and 0 where the pattern does not match.
pub parse_duration : Engine → Bytes → ℕ
parse_duration e duration = elim (e.regex_match video_length duration) [
  | none ↦ 0
  | some m ↦
      group_value (m.first 3)
      + ((if took_part (m.first 2) then 60 * group_value (m.first 2) else 0)
          + (if took_part (m.first 1) then 3600 * group_value (m.first 1) else 0))
]

-- find and array_value may throw; `none` where the key is missing.
pub record RegionRestriction : Type 0 where
  pub allowed : Outcome (Option (List (Outcome Bytes)))
  pub blocked : Outcome (Option (List (Outcome Bytes)))

-- What the source looks up in a reply: each of these may throw.
pub record VideoData : Type 0 where
  pub total_results : Outcome (Option ℤ)
  pub published_at : Outcome Bytes
  pub title : Outcome Bytes
  pub duration : Outcome Bytes
  pub region_restriction : Outcome (Option RegionRestriction)
  pub embeddable : Outcome (Option Bool)

-- What rr.find gives is compared with the end of contentDetails, another object, which C++ leaves
-- undefined for the end of rr, where the key is missing.
unfoldable pub found_key : Outcome (Option (List (Outcome Bytes))) → Outcome (List (Outcome Bytes))
found_key finding = finding >>= λ found. elim found [ none ↦ faulted | some values ↦ done values ]

-- rr.find("allowed") and rr.find("blocked")
unfoldable pub is_region_restricted : Option RegionRestriction → Bytes → Outcome Bool
unfolding contains_value found_key
is_region_restricted none country = done false
is_region_restricted (some rr) country = found_key rr.allowed >>= λ allowed.
    contains_value allowed country >>= λ inside.
    if not inside
    then done true
    else found_key rr.blocked >>= λ blocked. contains_value blocked country

abbrev is_embeddable : Option Bool → Bool
is_embeddable none = false
is_embeddable (some b) = b

abbrev no_results : Option ℤ → Bool
no_results none = true
no_results (some n) = eqb_ℤ n (pos 0)

unfoldable pub parse_json : Engine → (Bytes → ℤ) → VideoData → Song → Bytes → Outcome (Bool × Song)
unfolding parse_duration is_region_restricted
parse_json e get_time d s country = d.total_results >>= λ total.
    if no_results total
    then done (false, record s { error = does_not_exist })
    else d.published_at >>= λ published_at. d.title >>= λ title. d.duration >>= λ duration.
        let filled = record (parse_iso8601_created_date get_time published_at s) {
          name = title;
          length = pos (parse_duration e duration);
        } in
        d.region_restriction >>= λ region_restriction.
        is_region_restricted region_restriction country >>= λ restricted.
        if restricted
        then done (false, record filled { error = region_restricted })
        else d.embeddable >>= λ embeddable.
            if not (is_embeddable embeddable)
            then done (false, record filled { error = not_embeddable })
            else done (true, record filled { link = []; error = no_error })

-- parse_json of a reply, where json::parse throws if `data` is `none`
pub parse_reply : Engine → (Bytes → ℤ) → Option VideoData → Song → Bytes → Outcome (Bool × Song)
unfolding parse_json
parse_reply e get_time none s country = threw
parse_reply e get_time (some d) s country = parse_json e get_time d s country

abbrev url_format : String
url_format =
    "https://www.googleapis.com/youtube/v3/videos?id=%s&key=%s&prettyPrint=false&part=snippet,contentDetails,status&fields=pageInfo/totalResults,items/snippet(title,publishedAt),items/contentDetails(duration,regionRestriction),items/status/embeddable"

module _ (env : Env) (e : Engine) (get_time : Bytes → ℤ) (parse : Bytes → Option VideoData)
    (key : Bytes) where
  -- A request that fails leaves the song as it is, and counts as a success.
  unfoldable pub retrieve_video_data : Song → Bytes → M (Outcome (Bool × Song))
  unfolding parse_reply
  retrieve_video_data s country =
      bind (send_request env (snprintf [] 512 url_format (str s.track_id ∷ str key ∷ [])) [] true)
        λ response.
          if not response.error
          then pure (parse_reply e get_time (parse response.data_) s country)
          else pure (done (true, s))
