-- ===== src/SongRequest/Provider/Status/Reported.antt =====
-- What is known of the song that the player reports, and what a report leaves alone.
use ash_bot.Prelude.{
  ◌≡◌, refl, ap, Bool, true, false, Option, none, some, List, [], ◌∷◌, Bytes, String, codes, str_eq,
  arith, Bool-cases, Option-cases, inl, inr,
}
use ash_bot.Prelude.Int.{ℤ, negsuc, eqb_ℤ, pattern_of}
use ash_bot.Outcome.{done, Ends}
use ash_bot.Db.Params.{fill_int}
use ash_bot.Db.Results.{DbResult, db_result, is_ok}
use ash_bot.World.{Env, Event, Arg, queried, said, str, int}
use ash_bot.SongRequest.Provider.{Provider, SongRequestItem, SongRequestStatus}
use ash_bot.SongRequest.Provider.Status.{sql_get_song, song_state_change}
use ash_bot.SongRequest.Provider.Request.{current_song}
use ash_bot.SongRequest.Provider.Request.Rows.{inserted}
use ash_bot.ControlServer.{ControlMessage, obey, on_message}

-- The query for the song of a request.
abbrev pub song_query : ℤ → Event
song_query id = queried sql_get_song ((fill_int 8 (pattern_of 64 id)).0 ∷ [])

-- The message that the player sends.
abbrev pub player_message : ℤ → Bool → ControlMessage
player_message id playing = record {
  command = some (codes "srstate");
  songid = some id;
  playing = some playing;
}

-- The answer to a user who asks for the current song, and its arguments.
abbrev pub answer : Bool → String
answer true = "%s, current song is '%s'. It was requested by %s and its link is %s (RID %lld)"
answer false = "Song requests are not playing right now."

abbrev pub told : Bool → Bytes → SongRequestStatus → ℤ → List Arg
told true asker status id =
    str asker ∷ str status.song.name ∷ str status.requested_by ∷ str status.std_link ∷ int id ∷ []
told false asker status id = []

module _ (env : Env) where
  -- The answer to it.
  abbrev pub song_row : ℤ → List Event → DbResult
  song_row id h = db_result (env.result (song_query id ∷ h))

  song_state_change-items :
      (id : ℤ) (playing : Bool) (p : Provider) (h : List Event)
      → (song_state_change env id playing p h).0.items ≡ p.items
  unfolding song_state_change
  song_state_change-items id playing p h = elim (Bool-cases (eqb_ℤ id (negsuc 0))) [
    | inl e ↦ rw (e, song_state_change) refl
    | inr e ↦ elim (Bool-cases (is_ok (song_row id h))) [
      | inl e' ↦ rw (e, song_state_change, e') refl
      | inr e' ↦ rw (e, song_state_change, e') refl
    ]
  ]

  obey-items :
      (command : Option Bytes) (id : Option ℤ) (playing : Option Bool) (p : Provider)
      (h : List Event)
      → Ends (λ p'. p'.items ≡ p.items) (obey env command id playing p h).0
  unfolding obey str_eq
  obey-items none id playing p h = tt
  obey-items (some command) id playing p h = elim (Bool-cases (str_eq command (codes "srstate"))) [
    | inr e ↦ rw (e, Ends, obey) refl
    | inl e ↦ rw (e, Ends, obey) (obeyed id playing)
  ]
    where
      obeyed :
          (id : Option ℤ) (playing : Option Bool)
          → Ends (λ p'. p'.items ≡ p.items) (obey env (some (codes "srstate")) id playing p h).0
      obeyed none playing = tt
      obeyed (some request_id) none = tt
      obeyed (some request_id) (some b) = song_state_change-items request_id b p h

  -- A report leaves the queue of requests as it is.
  pub on_message-items :
      (parse : Bytes → Option ControlMessage) (payload : Bytes) (p : Provider) (h : List Event)
      → Ends (λ p'. p'.items ≡ p.items) (on_message env parse payload p h).0
  unfolding on_message
  on_message-items parse payload p h = elim (Option-cases (parse payload)) [
    | inl e ↦ rw (e, Ends, on_message) tt
    | inr (m, e) ↦ rw (e, Ends, on_message) (obey-items m.command m.songid m.playing p h)
  ]

  song_state_change-inserted :
      (id : ℤ) (playing : Bool) (p : Provider) (h : List Event)
      → inserted (song_state_change env id playing p h).1 ≡ inserted h
  unfolding song_state_change
  song_state_change-inserted id playing p h = ground arith

  obey-inserted :
      (command : Option Bytes) (id : Option ℤ) (playing : Option Bool) (p : Provider)
      (h : List Event)
      → inserted (obey env command id playing p h).1 ≡ inserted h
  unfolding obey str_eq
  obey-inserted none id playing p h = refl
  obey-inserted (some command) none playing p h = ground arith
  obey-inserted (some command) (some request_id) none p h = ground arith
  obey-inserted (some command) (some request_id) (some b) p h =
      ground (arith, song_state_change-inserted request_id b p h)

  -- A report inserts no row.
  pub on_message-inserted :
      (parse : Bytes → Option ControlMessage) (payload : Bytes) (p : Provider) (h : List Event)
      → inserted (on_message env parse payload p h).1 ≡ inserted h
  unfolding on_message
  on_message-inserted parse payload p h = elim (Option-cases (parse payload)) [
    | inl e ↦ rw (e, on_message) refl
    | inr (m, e) ↦ rw (e, on_message) (obey-inserted m.command m.songid m.playing p h)
  ]

  -- The status with the song of the request before.
  reported : ℤ → Bool → Provider → Provider
  reported id playing p = record p {
    status = record p.status { is_playing = playing; request_id = id };
  }

  on_message-player :
      (parse : Bytes → Option ControlMessage) (payload : Bytes) (id : ℤ) (playing : Bool)
      (p : Provider) (h : List Event)
      → parse payload ≡ some (player_message id playing)
      → eqb_ℤ id (negsuc 0) ≡ false
      → is_ok (song_row id h) ≡ false
      → on_message env parse payload p h ≡ (done (reported id playing p), song_query id ∷ h)
  unfolding on_message obey song_state_change reported str_eq
  on_message-player parse payload id playing p h e known failed =
      rw (e, on_message, known, song_state_change, failed) refl

  current_song-reported :
      (id : ℤ) (playing : Bool) (p : Provider) (item : SongRequestItem) (k : List Event)
      → current_song env (reported id playing p) item k ≡ (
        tt,
        said false (answer playing) (told playing item.requested_by.username p.status id) ∷ k,
      )
  unfolding current_song reported
  current_song-reported id true p item k = refl
  current_song-reported id false p item k = refl

  -- When the player tells that it plays the song of a request, and the query for that song fails, a
  -- user who asks for the current song is told the name, the requester and the link of the song that
  -- was known before, under the number of the new request; when the player tells that it has stopped,
  -- that no song is played.
  pub on_message-failed :
      (parse : Bytes → Option ControlMessage) (payload : Bytes) (id : ℤ) (playing : Bool)
      (p : Provider) (item : SongRequestItem) (h k : List Event)
      → parse payload ≡ some (player_message id playing)
      → eqb_ℤ id (negsuc 0) ≡ false
      → is_ok (song_row id h) ≡ false
      → (p' : Provider) × ((on_message env parse payload p h).0 ≡ done p')
        × (current_song env p' item k ≡ (
          tt,
          said false (answer playing) (told playing item.requested_by.username p.status id) ∷ k,
        ))
  on_message-failed parse payload id playing p item h k e known failed = (
    reported id playing p,
    ap (λ r. r.0) (on_message-player parse payload id playing p h e known failed),
    current_song-reported id playing p item k,
  )
