-- ===== src/SongRequest/Provider.antt =====
-- source/modules/songrequest/songrequest_provider.cpp and its header: the state of the provider
-- and its queue of requests. The other parts are in the modules below.
pub mod Check
pub mod Config
pub mod Status
pub mod Request
pub mod Worker
pub mod Queue
use ash_bot.Prelude.{
  ℕ, zero, suc, ◌+◌, ◌^◌, ◌-◌, Bool, true, false, not, Option, none, some, List, [], ◌∷◌, ◌++◌,
  Bytes, String, codes, length, leb, ltb, ◌==◌, if◌then◌else◌,
}
use ash_bot.Prelude.Int.{ℤ, pos, negsuc, eqb_ℤ, signed, pattern_of}
use ash_bot.Db.Results.{DbResult, is_ok, read_int, read_chars, read_string, c_str}
use ash_bot.Db.Params.{fill_int, fill_chars}
use ash_bot.World.{Env, M, ◌>>=◌, ◌>>◌, pure, skip, query}
use ash_bot.TwitchUser.{TwitchUser}
use ash_bot.SongRequest.Song.{
  Song, Source, youtube, soundcloud, vimeo, new_song, get_standardized_link,
}
use ash_bot.SongRequest.Fetch.{read_or}

pub data SongRequestAction : Type 0 where
  new_song_action current_song_action skip_song_action reset_songs_action : SongRequestAction
  add_current_to_list add_new_to_list request_song_from_list promote_song : SongRequestAction
  ban_song prioritize_song ban_playlist : SongRequestAction

pub data ExtraDataItem : Type 0 where
  text : Bytes → ExtraDataItem
  number : ℤ → ExtraDataItem
  flag : Bool → ExtraDataItem

pub record SongRequestItem : Type 0 where
  pub link : Bytes
  pub requested_by : TwitchUser
  pub id : ℤ
  pub action : SongRequestAction
  pub extra_data : List ExtraDataItem

pub record SongRequestStatus : Type 0 where
  pub request_id : ℤ
  pub song : Song
  pub requested_by : Bytes
  pub std_link : Bytes
  pub is_playing : Bool

pub record Provider : Type 0 where
  pub enabled : Bool
  pub sub_only : Bool
  pub queue_capacity : ℤ
  pub songs_per_pleb : ℤ
  pub songs_per_regular : ℤ
  pub songs_per_sub : ℤ
  pub songs_per_mod : ℤ
  pub max_song_length : ℤ
  pub custom_limits : List (ℤ × ℤ)
  pub items : List SongRequestItem
  pub status : SongRequestStatus
  pub local_id : ℤ

-- The constructor; it leaves `maxSongLength_` with whatever value it has.
unfoldable pub new_provider : ℤ → Provider
new_provider max_length = record {
  enabled = false;
  sub_only = false;
  queue_capacity = pos 40;
  songs_per_pleb = pos 2;
  songs_per_regular = pos 3;
  songs_per_sub = pos 5;
  songs_per_mod = pos 5;
  max_song_length = max_length;
  custom_limits = [];
  items = [];
  status = record {
    request_id = pos 0;
    song = new_song (pos 0) (pos 0);
    requested_by = [];
    std_link = [];
    is_playing = false;
  };
  local_id = pos 0;
}

-- `localId_++` on 64 bits
abbrev pub next_id : ℤ → ℤ
next_id (pos n) = if suc n == 2 ^ 63 then negsuc (2 ^ 63 - 1) else pos (suc n)
next_id (negsuc zero) = pos 0
next_id (negsuc (suc n)) = negsuc n

-- the item that request_song(pUser, pLink) makes, and what that leaves
unfoldable pub make_item : TwitchUser → Bytes → Provider → SongRequestItem × Provider
make_item user link p = (
  record {
    link = link;
    requested_by = user;
    id = p.local_id;
    action = new_song_action;
    extra_data = [];
  },
  record p { local_id = next_id p.local_id },
)

-- `items_.enqueue(move(item))`
unfoldable pub put_item : SongRequestItem → Provider → Provider
put_item item p = record p { items = p.items ++ item ∷ [] }

-- request_song(pUser, pLink): the request waits for the worker.
unfoldable pub enqueue_request : TwitchUser → Bytes → Provider → Provider
unfolding make_item put_item
enqueue_request user link p = let (item, p') = make_item user link p in put_item item p'
