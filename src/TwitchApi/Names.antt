-- ===== src/TwitchApi/Names.antt =====
-- The names that a page adds stay a set, and a page costs at most one request.
use ash_bot.Prelude.{
  ℕ, ◌+◌, ◌≤◌, ◌≡◌, true, false, Option, none, some, List, [], ◌∷◌, Bytes, Bool-cases, inl, inr,
  arith, leb, length,
}
use ash_bot.Prelude.Int.{ℤ, pos, eqb_ℤ}
use ash_bot.Outcome.{Outcome, done, aborted, threw, faulted, ◌>>=◌, Ends}
use ash_bot.Printf.{printf}
use ash_bot.World.{str, int, Event, requested, Env, request_count}
use ash_bot.TwitchApi.{
  SubsObject, member, insert, add_names, read_subs, read_reply, subs_url, auth_headers,
  get_channel_subscribers,
}

-- A list that represents a set.
abbrev pub IsUnique : List Bytes → Type 0
IsUnique [] = Unit {0}
IsUnique (x ∷ xs) = (member x xs ≡ false) × IsUnique xs

insert-IsUnique : (x : Bytes) (xs : List Bytes) → IsUnique xs → IsUnique (insert x xs)
unfolding insert
insert-IsUnique x xs u = elim (Bool-cases (member x xs)) [
  | inl old ↦ rw old u
  | inr new ↦ rw new (new, u)
]

add_names-IsUnique :
    (names : List (Option Bytes)) (added : ℕ) (subs : List Bytes)
    → IsUnique subs
    → IsUnique (add_names names added subs).1
unfolding add_names
add_names-IsUnique [] added subs u = u
add_names-IsUnique (none ∷ names) added subs u = add_names-IsUnique names added subs u
add_names-IsUnique (some x ∷ names) added subs u =
    add_names-IsUnique names (added + 1) (insert x subs) (insert-IsUnique x subs u)

read_subs-IsUnique :
    (o : SubsObject) (subs : List Bytes)
    → IsUnique subs
    → Ends (λ page. IsUnique page.1) (read_subs o subs)
unfolding read_subs
read_subs-IsUnique o subs u = by_total o.total o.subscriptions
  where
    by_total :
        (total : Option (Outcome ℤ)) (found : Outcome (Option (List (Option Bytes))))
        → Ends
            (λ page. IsUnique page.1)
            (read_subs (record { total = total; subscriptions = found }) subs)
    by_total none found = u
    by_total (some aborted) found = tt
    by_total (some threw) found = tt
    by_total (some faulted) found = tt
    by_total (some (done n)) found = elim (Bool-cases (eqb_ℤ n (pos 0))) [
      | inl nobody ↦ rw (nobody, Ends) u
      | inr some_subs ↦ rw (some_subs, Ends) (by_found found)
    ]
      where
        by_found :
            (found : Outcome (Option (List (Option Bytes))))
            → Ends
                (λ (page : ℕ × List Bytes). IsUnique page.1)
                (found >>= λ names. elim names [
                  | none ↦ done (0, subs)
                  | some xs ↦ done (add_names xs 0 subs)
                ])
        by_found (done none) = u
        by_found (done (some xs)) = add_names-IsUnique xs 0 subs u
        by_found aborted = tt
        by_found threw = tt
        by_found faulted = tt

read_reply-IsUnique :
    (o : Option SubsObject) (subs : List Bytes)
    → IsUnique subs
    → Ends (λ page. IsUnique page.1) (read_reply o subs)
unfolding read_reply
read_reply-IsUnique none subs u = tt
read_reply-IsUnique (some o) subs u = read_subs-IsUnique o subs u

module _ (env : Env) (parse : Bytes → Option SubsObject) (client_id user : Bytes) where
  pub page_requests :
      (channel : Bytes) (limit offset : ℕ) (subs : List Bytes) (h : List Event)
      → request_count
          (get_channel_subscribers env parse client_id user channel limit offset subs h).1
        ≤ request_count h + 1
  unfolding get_channel_subscribers
  page_requests channel limit offset subs h = ground arith

  pub page-IsUnique :
      (channel : Bytes) (limit offset : ℕ) (subs : List Bytes) (h : List Event)
      → IsUnique subs
      → Ends
          (λ page. IsUnique page.1)
          (get_channel_subscribers env parse client_id user channel limit offset subs h).0
  unfolding get_channel_subscribers
  page-IsUnique channel limit offset subs h u =
      let url = printf [] subs_url (str channel ∷ int (pos limit) ∷ int (pos offset) ∷ []) in
      let response = env.response (requested url (auth_headers client_id user) true ∷ h) in
      elim (Bool-cases (leb 128 (length url))) [
        | inl long ↦ rw (long, get_channel_subscribers) u
        | inr fits ↦ elim (Bool-cases response.error) [
          | inl failed ↦ rw (fits, get_channel_subscribers, failed) u
          | inr replied ↦
              rw (fits, get_channel_subscribers, replied)
                (read_reply-IsUnique (parse response.data_) subs u)
        ]
      ]
