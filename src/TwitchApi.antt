-- ===== src/TwitchApi.antt =====
-- source/twitch_api.cpp: one page of the channel's subscribers. The parser of JSON is a parameter,
-- as what the source looks up in its result.
pub mod Names
use ash_bot.Prelude.{
  ℕ, zero, suc, ◌+◌, Bool, true, false, not, ◌||◌, Option, none, some, List, [], ◌∷◌, ◌++◌, Bytes,
  String, codes, length, take, str_eq, leb, if◌then◌else◌,
}
use ash_bot.Prelude.Int.{ℤ, pos, eqb_ℤ}
use ash_bot.Outcome.{Outcome, done, threw, ◌>>=◌}
use ash_bot.Printf.{printf}
use ash_bot.World.{Arg, str, int, Env, HttpResponse, M, pure, send_request, ◌>>=◌ as bind}

-- A reply that is an object: `_total`, if it is there, whose as_integer may throw; and
-- `subscriptions`, whose lookup may throw, if it is an array. An element is `none` where reading its
-- user's name throws.
pub record SubsObject : Type 0 where
  pub total : Option (Outcome ℤ)
  pub subscriptions : Outcome (Option (List (Option Bytes)))

-- std::unordered_set<std::string>::insert
unfoldable pub member : Bytes → List Bytes → Bool
member x [] = false
member x (y ∷ ys) = str_eq x y || member x ys

unfoldable pub insert : Bytes → List Bytes → List Bytes
unfolding member
insert x xs = if member x xs then xs else x ∷ xs

abbrev subs_url : String
subs_url =
    "https://api.twitch.tv/kraken/channels/%s/subscriptions?limit=%i&offset=%i&direction=desc"

-- add_twitch_auth_headers, whose buffer cuts the token off; the tokens are those of source/tokens.cpp
pub auth_headers : Bytes → Bytes → List Bytes
auth_headers client_id user =
    (codes "Accept: " ++ codes "application/vnd.twitchtv.v3+json")
    ∷ (codes "Client-ID: " ++ client_id)
    ∷ (codes "Authorization: " ++ (codes "OAuth " ++ take 121 user))
    ∷ []

-- the loop over the array
unfoldable pub add_names : List (Option Bytes) → ℕ → List Bytes → ℕ × List Bytes
unfolding insert
add_names [] added subs = (added, subs)
add_names (none ∷ xs) added subs = add_names xs added subs
add_names (some name ∷ xs) added subs = add_names xs (added + 1) (insert name subs)

-- What is done with the parsed reply; `return true` is 1.
pub read_subs : SubsObject → List Bytes → Outcome (ℕ × List Bytes)
unfolding add_names
read_subs o subs = elim o.total [
  | none ↦ done (1, subs)
  | some reading ↦
      (reading >>= λ n.
      if eqb_ℤ n (pos 0)
      then done (1, subs)
      else (o.subscriptions >>= λ found. elim found [
        | none ↦ done (0, subs)
        | some xs ↦ done (add_names xs 0 subs)
      ]))
]

-- json::parse throws where `parse` is `none`.
pub read_reply : Option SubsObject → List Bytes → Outcome (ℕ × List Bytes)
unfolding read_subs
read_reply none subs = threw
read_reply (some o) subs = read_subs o subs

module _ (env : Env) (parse : Bytes → Option SubsObject) (client_id user : Bytes) where
  pub get_channel_subscribers : Bytes → ℕ → ℕ → List Bytes → M (Outcome (ℕ × List Bytes))
  unfolding auth_headers read_reply
  get_channel_subscribers channel limit offset subs =
      let url = printf [] subs_url (str channel ∷ int (pos limit) ∷ int (pos offset) ∷ []) in
      if leb 128 (length url)
      then pure (done (0, subs))
      else bind (send_request env url (auth_headers client_id user) true) λ response.
        if response.error
        then pure (done (0, subs))
        else pure (read_reply (parse response.data_) subs)

-- What get_channel_chatters looks up in a reply: the names by category, or `none` where that throws.
pub record ChattersObject : Type 0 where
  pub chatter_count : Option ℤ
  pub chatters : Option (List (List Bytes))

-- the loops over the categories
pub push_names : List (List Bytes) → List Bytes → List Bytes
push_names [] names = names
push_names (category ∷ categories) names = push_names categories (names ++ category)

abbrev chatters_url : String
chatters_url = "https://tmi.twitch.tv/group/user/%s/chatters"

-- get_channel_chatters, which adds to `names`; that room is made for them first is left out
pub get_channel_chatters :
    Env → (Bytes → Option ChattersObject) → Bytes → List Bytes → M (Outcome (List Bytes))
unfolding push_names
get_channel_chatters env parse channel names =
    let url = printf [] chatters_url (str channel ∷ []) in
    if leb 128 (length url)
    then pure (done names)
    else bind (send_request env url [] true) λ response.
      if response.error then pure (done names) else elim (parse response.data_) [
        | none ↦ pure threw
        | some o ↦ elim o.chatter_count [
          | none ↦ pure threw
          | some count ↦ elim o.chatters [
            | none ↦ pure threw
            | some xs ↦ pure (done (push_names xs names))
          ]
        ]
      ]
