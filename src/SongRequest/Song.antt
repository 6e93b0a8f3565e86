-- ===== src/SongRequest/Song.antt =====
-- source/modules/songrequest/song.cpp and include/modules/songrequest/song.h. The engine of regular
-- expressions is a parameter. A duration is its count of seconds: all are whole.
pub mod Links
use ash_bot.Prelude.{
  ℕ, zero, suc, Bool, true, false, ◌||◌, ◌&&◌, Option, none, some, List, [], ◌∷◌, ◌++◌, Bytes,
  String, codes, take, contains, leb, ◌==◌, if◌then◌else◌,
}
use ash_bot.Prelude.Int.{ℤ, pos, negsuc}
use ash_bot.Prelude.Strtol.{is_digit}
use ash_bot.Partial.{Partial, defined, undefined, ◌>>=◌}
use ash_bot.Regex.{
  Regex, lit, any, byte_in, seq, alt, opt, many, some_of, times, group, bos, eos, ◌>>>◌, text,
  Match, Engine,
}

pub data Error : Type 0 where
  no_error host_error does_not_exist region_restricted not_embeddable not_a_track : Error

-- static_cast<int>
abbrev pub error_index : Error → ℕ
error_index no_error = 0
error_index host_error = 1
error_index does_not_exist = 2
error_index region_restricted = 3
error_index not_embeddable = 4
error_index not_a_track = 5

pub data Source : Type 0 where
  youtube soundcloud vimeo : Source

abbrev pub source_index : Source → ℕ
source_index youtube = 0
source_index soundcloud = 1
source_index vimeo = 2

pub record Song : Type 0 where
  pub id : ℤ
  pub name : Bytes
  pub link : Bytes
  pub track_id : Bytes
  pub source : Source
  pub length : ℤ
  pub banned : Bool
  pub ban_on_request : Bool
  pub ban_length : ℤ
  pub error : Error
  pub created_at : ℤ

-- The constructor; it leaves `Length` and `CreatedAt` with whatever values they have.
unfoldable pub new_song : ℤ → ℤ → Song
new_song length created_at = record {
  id = negsuc 0;
  name = [];
  link = [];
  track_id = [];
  source = youtube;
  length = length;
  banned = false;
  ban_on_request = false;
  ban_length = pos 0;
  error = no_error;
  created_at = created_at;
}

abbrev is_letter : ℕ → Bool
is_letter c = (leb b'a' c && leb c b'z') || (leb b'A' c && leb c b'Z')

abbrev is_id_byte : ℕ → Bool
is_id_byte c = is_letter c || is_digit c || c == b'-' || c == b'_'

abbrev yt_id_length : ℕ
yt_id_length = 11

-- regex::YouTubeIdV
abbrev pub youtube_id_v : Regex
youtube_id_v = times 1 (text "v=") >>> some_of false (byte_in is_id_byte)

-- regex::YouTubeId
abbrev pub youtube_id : Regex
youtube_id =
    bos
    >>> opt (text "http" >>> opt (text "s") >>> text "://")
    >>> opt (alt (text "www.") (text "m."))
    >>> alt (text "youtu.be") (
        text "youtube.com"
        >>> alt (text "/embed/") (
            alt (text "/v/")
              (alt (text "/watch?v=") (text "/watch?" >>> some_of false any >>> text "&v="))))
    >>> group 1 (times yt_id_length (byte_in is_id_byte))
    >>> opt (some_of false any)
    >>> eos

-- regex::VimeoId
abbrev pub vimeo_id : Regex
vimeo_id = some_of false (byte_in is_digit) >>> eos

-- A text that is assigned from a pointer.
abbrev assigned : Option Bytes → Partial Bytes
assigned none = undefined
assigned (some s) = defined s

module _ (e : Engine) where
  unfoldable pub try_process_youtube_link : Bytes → Song → Partial (Bool × Song)
  try_process_youtube_link link s = elim (e.regex_match youtube_id link) [
    | some m ↦ do
      id ← assigned (m.first 1)
      defined (true, record s { track_id = take yt_id_length id; source = youtube })
    | none ↦ elim (e.regex_search youtube_id_v link) [
      | none ↦ defined (false, s)
      | some m ↦ do
        id ← assigned (m.first 1)
        defined (true, record s { track_id = take yt_id_length (after_v id); source = youtube })
    ]
  ]
    where
      -- match[1].first + 2
      after_v : Bytes → Bytes
      after_v (v ∷ q ∷ id) = id
      after_v _ = []

  unfoldable pub try_process_soundcloud_link : Bytes → Song → Bool × Song
  try_process_soundcloud_link link s =
      if contains (codes "soundcloud") link
      then (true, record s { link = link; source = soundcloud })
      else (false, s)

  unfoldable pub try_process_vimeo_link : Bytes → Song → Partial (Bool × Song)
  try_process_vimeo_link link s =
      if contains (codes "vimeo") link
      then elim (e.regex_search vimeo_id link) [
        | none ↦ defined (false, s)
        | some m ↦ do
          id ← assigned (m.first 1)
          defined (true, record s { track_id = id; source = vimeo })
      ]
      else defined (false, s)

  unfoldable pub process_youtube_id : Bytes → Song → Song
  process_youtube_id link s = record s { track_id = link; source = youtube }

  unfoldable pub parse_link : Bytes → Song → Partial Song
  unfolding try_process_youtube_link try_process_soundcloud_link try_process_vimeo_link
      process_youtube_id
  parse_link link s = do
    (is_youtube, s1) ← try_process_youtube_link link s
    let (is_soundcloud, s2) = try_process_soundcloud_link link s1
    if is_youtube then defined s1 else if is_soundcloud then defined s2 else do
      (is_vimeo, s3) ← try_process_vimeo_link link s1
      if is_vimeo then defined s3 else defined (process_youtube_id link s3)

-- parse_iso8601_created_date; `get_time` is std::get_time with mktime and from_time_t
abbrev pub parse_iso8601_created_date : (Bytes → ℤ) → Bytes → Song → Song
parse_iso8601_created_date get_time text s = record s { created_at = get_time text }

pub get_standardized_link : Song → Bytes
get_standardized_link s = elim s.source [
  | youtube ↦ codes "https://www.youtube.com/watch?v=" ++ s.track_id
  | soundcloud ↦ codes "https://www.soundcloud.com/" ++ s.track_id
  | vimeo ↦ codes "https://vimeo.com/" ++ s.track_id
]
