-- ===== src/Tests/Sites.antt =====
-- A video of YouTube that may be played in one country.
use ash_bot.Prelude.{ℕ, true, none, some, [], ◌∷◌, Bytes, codes, str_eq}
use ash_bot.Prelude.Int.{pos}
use ash_bot.Outcome.{done}
use ash_bot.SongRequest.Song.{Song, parse_iso8601_created_date, no_error}
use ash_bot.SongRequest.Youtube.{VideoData, parse_duration}
use ash_bot.Tests.Songs.{tune, blind}

abbrev video : VideoData
video = record {
  total_results = done (some (pos 1));
  published_at = done [];
  title = done (codes "Song");
  duration = done (codes "PT3M0S");
  region_restriction = done (
      some record {
        allowed = done (some (done (codes "DE") ∷ done (codes "cz") ∷ []));
        blocked = done (some (done (codes "US") ∷ []));
      });
  embeddable = done (some true);
}

abbrev accepted : Song
accepted = record (parse_iso8601_created_date (λ date. pos 0) [] tune) {
  name = codes "Song";
  length = pos (parse_duration blind (codes "PT3M0S"));
  link = [];
  error = no_error;
}
