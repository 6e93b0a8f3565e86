-- ===== src/SongRequest/Soundcloud.antt =====
-- source/modules/songrequest/soundcloud_api.cpp
use ash_bot.Prelude.{
  Bool, true, false, not, Option, none, some, [], ◌∷◌, ◌++◌, Bytes, String, codes, contains, str_eq,
  if◌then◌else◌,
}
use ash_bot.Prelude.Int.{ℤ, pos, eqb_ℤ}
use ash_bot.Regex.{Regex, many, ◌>>>◌, text, Engine}
use ash_bot.Printf.{snprintf}
use ash_bot.World.{str, Env, M, pure, send_request, ◌>>=◌ as bind}
use ash_bot.Outcome.{Outcome, done, threw, ◌>>=◌}
use ash_bot.SongRequest.Song.{
  Song, no_error, host_error, does_not_exist, not_embeddable, not_a_track,
}

-- What the source looks up in a reply: each of these may throw.
pub record TrackData : Type 0 where
  pub embeddable_by : Outcome Bytes
  pub title : Outcome Bytes
  pub permalink_url : Outcome Bytes
  pub duration : Outcome ℤ

abbrev soundcloud_prefix : Regex
soundcloud_prefix = text "http" >>> many true (text "s") >>> text "://soundcloud.com/"

pub strip_soundcloud_link : Engine → Bytes → Bytes
strip_soundcloud_link e link = e.regex_erase soundcloud_prefix link

pub parse_json : Engine → TrackData → Song → Outcome (Bool × Song)
unfolding strip_soundcloud_link
parse_json e d s = d.embeddable_by >>= λ embeddable_by.
    if not (str_eq embeddable_by (codes "all"))
    then done (false, record s { error = not_embeddable })
    else d.title >>= λ title. d.permalink_url >>= λ permalink_url. d.duration >>= λ duration. done (
      true,
      record s {
        name = title;
        link = strip_soundcloud_link e permalink_url;
        length = duration;
        error = no_error;
      },
    )

-- parse_json of a reply, where json::parse throws if `data` is `none`
pub parse_reply : Engine → Option TrackData → Song → Outcome (Bool × Song)
unfolding parse_json
parse_reply e none s = threw
parse_reply e (some d) s = parse_json e d s

abbrev url_format : String
url_format = "https://api.soundcloud.com/resolve.json?url=%s&client_id=%s"

module _ (env : Env) (e : Engine) (parse : Bytes → Option TrackData) (client_id : Bytes) where
  -- The first request does not follow the redirect, whose target tells what the link is.
  unfoldable pub retrieve_song_data : Song → M (Outcome (Bool × Song))
  unfolding parse_reply
  retrieve_song_data s =
      let headers = (codes "Referer: " ++ codes "https://www.ashwini.tv") ∷ [] in
      let url = snprintf [] 512 url_format (str s.link ∷ str client_id ∷ []) in
      bind (send_request env url headers false) λ resolved.
        if resolved.error
        then pure (
            done (
              false,
              record s {
                error = if eqb_ℤ resolved.status_code (pos 404) then does_not_exist else host_error;
              },
            ))
        else if not (contains (codes "/tracks/") resolved.redirect_url)
        then pure (done (false, record s { error = not_a_track }))
        else bind (send_request env resolved.redirect_url headers true) λ response.
          if response.error
          then pure (done (false, record s { error = host_error }))
          else pure (parse_reply e (parse response.data_) s)
