-- ===== src/SongRequest/Youtube/Duration.antt =====
-- Which durations parse_duration can read.
use ash_bot.Prelude.{◌≡◌, ◌≢◌, [], ◌∷◌, ◌++◌, Bytes, Option-cases, inl, inr}
use mathlib.Core.List.{append_assoc}
use ash_bot.Regex.{Engine, IsSound, Matches}
use ash_bot.SongRequest.Youtube.{video_length, parse_duration}

Matches-seconds :
    (s : Bytes) → Matches video_length s → (before : Bytes) × (s ≡ before ++ b'S' ∷ [])
Matches-seconds s
      (pt, v1, e1, h1, (hours, v2, e2, h2, (minutes, v3, e3, h3, (seconds, v4, e4, h4, end)))) =
    (pt ++ (hours ++ (minutes ++ seconds)), rw (e1, e2, e3, e4, end) (simp append_assoc))

-- A duration that does not end in seconds, such as PT1H or PT45M, is read as 0 seconds.
pub parse_duration_whole :
    (e : Engine) (s : Bytes)
    → IsSound e video_length s
    → ((before : Bytes) → s ≢ before ++ b'S' ∷ [])
    → parse_duration e s ≡ 0
unfolding parse_duration
parse_duration_whole e s lawful unit = elim (Option-cases (e.regex_match video_length s)) [
  | inl failed ↦ rw (failed, parse_duration)
  | inr (m, found) ↦
      (let (before, ends) = Matches-seconds s (lawful.match_sound m found) in
        absurd (unit before ends))
]
