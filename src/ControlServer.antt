-- ===== src/ControlServer.antt =====
-- source/remote/control_server.cpp: what the player tells the bot. The parser of JSON is a parameter, as
-- what the source looks up in its result.
use ash_bot.Prelude.{Bool, Option, none, some, Bytes, codes, str_eq, if◌then◌else◌}
use ash_bot.Prelude.Int.{ℤ}
use ash_bot.Outcome.{Outcome, done, threw}
use ash_bot.World.{Env, M, ◌>>=◌, pure}
use ash_bot.SongRequest.Provider.{Provider}
use ash_bot.SongRequest.Provider.Status.{song_state_change}

-- A message, by its members; a member is `none` where reading it throws.
pub record ControlMessage : Type 0 where
  pub command : Option Bytes
  pub songid : Option ℤ
  pub playing : Option Bool

-- on_message once the payload is parsed, over the members in the order in which they are read
unfoldable pub obey : Env → Option Bytes → Option ℤ → Option Bool → Provider → M (Outcome Provider)
obey env none id playing p = pure threw
obey env (some command) id playing p =
    if str_eq command (codes "srstate")
    then elim id [
      | none ↦ pure threw
      | some request_id ↦ elim playing [
        | none ↦ pure threw
        | some b ↦ (do p' ← song_state_change env request_id b p; pure (done p'))
      ]
    ]
    else pure (done p)

-- on_message; `parse` is `none` where the payload is no JSON, which throws
unfoldable pub on_message :
    Env → (Bytes → Option ControlMessage) → Bytes → Provider → M (Outcome Provider)
unfolding obey
on_message env parse payload p = elim (parse payload) [
  | none ↦ pure threw
  | some m ↦ obey env m.command m.songid m.playing p
]
