-- ===== src/SongRequest/Youtube/Playable.antt =====
-- Which videos youtube::parse_json accepts.
use ash_bot.Prelude.{◌≡◌, true, false, Option, none, some, List, Bytes}
use ash_bot.Outcome.{Outcome, done}
use ash_bot.SongRequest.Song.{Song}
use ash_bot.SongRequest.Youtube.{RegionRestriction, contains_value}

-- The restriction has both lists, and the country is in that of the allowed and not in that of the
-- blocked countries.
pub record Allows (rr : RegionRestriction) (country : Bytes) : Type 0 where
  pub allowed : List (Outcome Bytes)
  pub blocked : List (Outcome Bytes)
  pub allowed_found : rr.allowed ≡ done (some allowed)
  pub blocked_found : rr.blocked ≡ done (some blocked)
  pub inside : contains_value allowed country ≡ done true
  pub outside : contains_value blocked country ≡ done false

abbrev pub IsUnrestricted : Option RegionRestriction → Bytes → Type 0
IsUnrestricted none country = Unit {0}
IsUnrestricted (some rr) country = Allows rr country
