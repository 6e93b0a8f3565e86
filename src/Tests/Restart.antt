-- ===== src/Tests/Restart.antt =====
-- A bot that is started again.
use ash_bot.Prelude.{
  ◌≡◌, refl, ◌==◌, Bool, true, false, Option, none, some, [], ◌∷◌, Bytes, codes, str_eq,
  if◌then◌else◌, arith,
}
use ash_bot.Prelude.Int.{pos}
use ash_bot.Outcome.{done}
use ash_bot.Db.Params.{fill_int, fill_chars}
use ash_bot.Db.Results.{read_chars, c_str}
use ash_bot.World.{Event, queried}
use ash_bot.SongRequest.Provider.{Provider, new_provider}
use ash_bot.SongRequest.Provider.Config.{
  LexicalCast, sql_update_value, read_options, apply_options, set_enabled,
}
use ash_bot.ChannelContext.Lifetime.{BotState, new_bot}
use ash_bot.ChannelContext.Lifetime.Restart.{set_enabled-restart}
use ash_bot.Tests.Setting.{answers, open_provider}

abbrev as_flag : Bytes → Option Bool
as_flag s =
    if str_eq s (codes "1") then some true else if str_eq s (codes "0") then some false else none

abbrev of_flag : Bool → Bytes
of_flag true = codes "1"
of_flag false = codes "0"

-- Texts of one digit.
abbrev digits : LexicalCast
digits = record {
  to_bool = as_flag;
  to_int = λ s. if str_eq s (codes "1") then some (pos 1) else none;
  of_bool = of_flag;
}

-- The provider that eight options of 1 make.
abbrev all_ones : Provider
all_ones = record (new_provider (pos 600)) {
  enabled = true;
  sub_only = true;
  max_song_length = pos 1;
  queue_capacity = pos 1;
  songs_per_pleb = pos 1;
  songs_per_regular = pos 1;
  songs_per_sub = pos 1;
  songs_per_mod = pos 1;
}

abbrev stored : Event
stored = queried sql_update_value ((fill_chars (codes "1")).0 ∷ (fill_int 2 0).0 ∷ [])

set_enabled-restart_example :
    ((set_enabled digits (answers 8 (codes "1")) true open_provider []).1 ≡ stored ∷ [])
    × ((s : BotState) × ((new_bot ◌==◌ 0
            (answers 8 (codes "1"))
            digits
            (pos 600)
            (codes "ash")
            (stored ∷ [])).0
          ≡ done s)
        × (s.live.context.provider.enabled ≡ true)
        × (s.live.worker ≡ true))
unfolding new_provider read_options apply_options read_chars c_str str_eq
set_enabled-restart_example =
    set_enabled-restart digits (answers 8 (codes "1")) ◌==◌ 0 (pos 600) (codes "ash") true
      open_provider all_ones [] (codes "1") (codes "1") (codes "1") (codes "1") (codes "1")
      (codes "1") (codes "1") refl (omega arith) refl refl refl
