-- ===== src/Irc/Classify/Shadowed.antt =====
-- Which lines an earlier pattern takes from a later one, under an engine that finds what a pattern describes.
use mathlib.Core.List.{append-nil}
use ash_bot.Prelude.{
  ℕ, Bool, true, false, ◌≡◌, ◌≢◌, refl, sym, ap, none, some, List, [], ◌∷◌, Bytes, codes, contains,
  ◌==◌, leb, ◌&&◌, if◌then◌else◌, Option-cases, Bool-cases, inl, inr,
}
use ash_bot.Regex.{Regex, any, Matches, Pieces, Match, Engine, IsSound, IsComplete}
use ash_bot.Irc.Enums.{ReceiveType}
use ash_bot.Irc.ReplyCode.{ReplyCode}
use ash_bot.Irc.ReplyCode.Values.{reply_code_value}
use ash_bot.Irc.Tables.{receive_type_map, find_receive_type, irc_reply_codes, binary_search}
use ash_bot.Prelude.Int.{pos_part}
use ash_bot.Prelude.Strtol.{strtol}
use ash_bot.Irc.Classify.{
  last_lines, message_line, action_line, join_line, part_line, notice_line, reply_code_line,
  command_type, get_message_type, twitch_message_type, at_group, is_channel, by_destination,
  first_of_lines, reply_type,
}

pub any_text : (s : Bytes) → Pieces (Matches any) s
any_text [] = ([], refl, tt)
any_text (c ∷ s) = let (ws, e, all) = any_text s in ((c ∷ []) ∷ ws, ap (◌∷◌ c) e, ((c, refl), all))

-- Every action is a message too.
action-message : (s : Bytes) → Matches action_line s → Matches message_line s
action-message s
      (
        u0,
        v0,
        e0,
        h0,
        (
          u1,
          v1,
          e1,
          h1,
          (
            u2,
            v2,
            e2,
            h2,
            (u3, v3, e3, h3, (u4, v4, e4, h4, (u5, v5, e5, h5, (u6, v6, e6, h6, later)))),
          ),
        ),
      ) =
    (
      u0,
      v0,
      e0,
      h0,
      (
        u1,
        v1,
        e1,
        h1,
        (
          u2,
          v2,
          e2,
          h2,
          (
            u3,
            v3,
            e3,
            h3,
            (
              u4,
              v4,
              e4,
              h4,
              (
                u5,
                v5,
                e5,
                h5,
                (
                  codes " :",
                  1 ∷ v6,
                  rw h6 at e6,
                  refl,
                  (1 ∷ v6, [], sym (append-nil (1 ∷ v6)), any_text (1 ∷ v6), refl),
                ),
              ),
            ),
          ),
        ),
      ),
    )

abbrev other : ReceiveType → Bool
other ReceiveType.channel_action = false
other ReceiveType.query_action = false
other _ = true

abbrev NotAction : ReceiveType → Type 0
NotAction type = other type ≡ true

abbrev all_other : {A : Type 0} → List (A × ReceiveType) → Bool
all_other [] = true
all_other ((a, type) ∷ rows) = if other type then all_other rows else false

all_first :
    {A : Type 0} (type : ReceiveType) (rows : List (A × ReceiveType))
    → (if other type then all_other rows else false) ≡ true
    → (other type ≡ true) × (all_other rows ≡ true)
all_first type rows h = elim (Bool-cases (other type)) [
  | inl t ↦ (t, rw t at h)
  | inr f ↦ (let bad : false ≡ true = rw f at h in absurd cc)
]

the_type : (a b : ReceiveType) → some a ≡ some b → a ≡ b
the_type a b h = cc

other_if :
    {A : Type 0} (b : Bool) (x y : ReceiveType × A)
    → other x.0 ≡ true
    → other y.0 ≡ true
    → other (if b then x else y).0 ≡ true
other_if true x y hx hy = hx
other_if false x y hx hy = hy

find_receive_type-NotAction :
    (rows : List (ReplyCode × ReceiveType)) (code : ℕ) (type : ReceiveType)
    → all_other rows ≡ true
    → find_receive_type rows code ≡ some type
    → other type ≡ true
unfolding find_receive_type
find_receive_type-NotAction [] code type h found = cc
find_receive_type-NotAction ((rc, t) ∷ rows) code type h found =
    elim (Bool-cases (reply_code_value rc == code)) [
      | inl here ↦ rw (sym (the_type t type (rw here at found))) (all_first t rows h).0
      | inr there ↦
          find_receive_type-NotAction rows code type (all_first t rows h).1 (rw there at found)
    ]

receive_type_map-NotAction : all_other receive_type_map ≡ true
unfolding receive_type_map
receive_type_map-NotAction = refl

reply_type-NotAction : (m : Match) (rc : ℕ) → NotAction (reply_type m rc).0
unfolding reply_type
reply_type-NotAction m rc =
    (let code = pos_part (strtol 32 (at_group m)).value in
      other_if (binary_search irc_reply_codes code) _ _
        (other_if (leb 400 code && leb code 599) _ _ refl
          (elim (Option-cases (find_receive_type receive_type_map code)) [
            | inl nothing ↦ rw nothing refl
            | inr (type, found) ↦ rw found (
                find_receive_type-NotAction receive_type_map code type receive_type_map-NotAction
                  found)
          ]))
        refl)

module _ (e : Engine) (line : Bytes) (action : IsSound e action_line line)
    (message : IsComplete e message_line line) where
  action_none : e.regex_match message_line line ≡ none → e.regex_match action_line line ≡ none
  action_none other = elim (Option-cases (e.regex_match action_line line)) [
    | inl nothing ↦ nothing
    | inr (m, found) ↦
        absurd (message.match_complete (action-message line (action.match_sound m found)) other)
  ]

  by_message :
      (m : Match)
      → NotAction (by_destination m ReceiveType.channel_message ReceiveType.query_message)
  by_message m = elim (Bool-cases (is_channel (at_group m))) [
    | inl h ↦ rw h refl
    | inr h ↦ rw h refl
  ]

  by_notice :
      (m : Match) → NotAction (by_destination m ReceiveType.channel_notice ReceiveType.query_notice)
  by_notice m = elim (Bool-cases (is_channel (at_group m))) [
    | inl h ↦ rw h refl
    | inr h ↦ rw h refl
  ]

  first_of_lines-NotAction :
      (rows : List (Regex × ReceiveType))
      → all_other rows ≡ true
      → NotAction (first_of_lines e rows line)
  first_of_lines-NotAction [] _ = refl
  first_of_lines-NotAction ((r, type) ∷ rows) h = elim (Option-cases (e.regex_match r line)) [
    | inr (m, found) ↦ rw (found, first_of_lines) (all_first type rows h).0
    | inl other ↦
        rw (other, first_of_lines) (first_of_lines-NotAction rows (all_first type rows h).1)
  ]

  last_lines-NotAction : NotAction (first_of_lines e last_lines line)
  last_lines-NotAction = first_of_lines-NotAction last_lines refl

  command_type-NotAction : NotAction (command_type e line)
  unfolding command_type
  command_type-NotAction = elim (Option-cases (e.regex_match message_line line)) [
    | inr (m, found) ↦ rw (found, command_type) (by_message m)
    | inl other ↦ elim (Option-cases (e.regex_match join_line line)) [
      | inr (m, found) ↦ rw (other, command_type, action_none other, found) refl
      | inl join ↦ elim (Option-cases (e.regex_match part_line line)) [
        | inr (m, found) ↦ rw (other, command_type, action_none other, join, found) refl
        | inl part ↦ elim (Option-cases (e.regex_match notice_line line)) [
          | inr (m, found) ↦
              rw (other, command_type, action_none other, join, part, found) (by_notice m)
          | inl notice ↦
              rw (other, command_type, action_none other, join, part, notice) last_lines-NotAction
        ]
      ]
    ]
  ]

  get_message_type-NotAction : (rc : ℕ) → NotAction (get_message_type e line rc).0
  unfolding get_message_type
  get_message_type-NotAction rc = elim (Option-cases (e.regex_match reply_code_line line)) [
    | inr (m, found) ↦ rw (found, get_message_type) (reply_type-NotAction m rc)
    | inl other ↦ rw (other, get_message_type) command_type-NotAction
  ]

  twitch_message_type-NotAction : NotAction (twitch_message_type e line).0
  unfolding twitch_message_type
  twitch_message_type-NotAction = other_if (contains (codes "HOSTTARGET") line) _ _ refl (
      other_if (contains (codes "CLEARCHAT") line) _ _ refl (
        other_if (contains (codes "USERSTATE") line) _ _ refl (
          other_if (contains (codes "RECONNECT") line) _ _ refl (
            other_if (contains (codes "ROOMSTATE") line) _ _ refl (
              other_if (contains (codes "USERNOTICE") line) _ _ refl
                (get_message_type-NotAction 0))))))

  -- A line is never classified as an action, if the engine matches it with the pattern of actions
  -- only where that describes it, and with the pattern of messages wherever that one does.
  pub twitch_message_type-ne-action :
      ((twitch_message_type e line).0 ≢ ReceiveType.channel_action)
      × ((twitch_message_type e line).0 ≢ ReceiveType.query_action)
  unfolding twitch_message_type
  twitch_message_type-ne-action = (
    λ h. (let bad : false ≡ true = rw h at twitch_message_type-NotAction in cc),
    λ h. (let bad : false ≡ true = rw h at twitch_message_type-NotAction in cc),
  )
