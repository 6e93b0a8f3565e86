-- ===== src/SongRequest/Vimeo.antt =====
-- source/modules/songrequest/vimeo_api.cpp
use ash_bot.Prelude.{
  Bool, true, false, Option, none, some, [], ◌∷◌, ◌++◌, Bytes, codes, if◌then◌else◌,
}
use ash_bot.Prelude.Int.{ℤ, pos, eqb_ℤ}
use ash_bot.World.{Env, M, pure, send_request, ◌>>=◌ as bind}
use ash_bot.Outcome.{Outcome, done, threw, ◌>>=◌}
use ash_bot.SongRequest.Song.{
  Song, parse_iso8601_created_date, no_error, host_error, does_not_exist,
}

-- What the source looks up in a reply: each of these may throw.
pub record VideoData : Type 0 where
  pub name : Outcome Bytes
  pub duration : Outcome ℤ
  pub created_time : Outcome Bytes

pub parse_json : (Bytes → ℤ) → VideoData → Song → Outcome (Bool × Song)
parse_json get_time d s = d.name >>= λ name. d.duration >>= λ duration.
    d.created_time >>= λ created_time. done (
      true,
      record (parse_iso8601_created_date get_time created_time s) {
        name = name;
        length = duration;
        link = [];
        error = no_error;
      },
    )

-- parse_json of a reply, where json::parse throws if `data` is `none`
pub parse_reply : (Bytes → ℤ) → Option VideoData → Song → Outcome (Bool × Song)
unfolding parse_json
parse_reply get_time none s = threw
parse_reply get_time (some d) s = parse_json get_time d s

module _ (env : Env) (get_time : Bytes → ℤ) (parse : Bytes → Option VideoData) (token : Bytes) where
  unfoldable pub retrieve_video_data : Song → M (Outcome (Bool × Song))
  unfolding parse_reply
  retrieve_video_data s =
      let headers =
        (codes "Referer: " ++ codes "Ashwini.tv/WiniBot v3")
        ∷ (codes "Authorization: " ++ (codes "bearer " ++ token))
        ∷ [] in
      let url = codes "https://api.vimeo.com/videos/" ++ s.track_id in
      bind (send_request env url headers true) λ response.
        if response.error
        then pure (
            done (
              false,
              record s {
                error = if eqb_ℤ response.status_code (pos 404) then does_not_exist else host_error;
              },
            ))
        else pure (parse_reply get_time (parse response.data_) s)
