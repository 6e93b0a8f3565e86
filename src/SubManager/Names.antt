-- ===== src/SubManager/Names.antt =====
-- What is_sub answers once the names of a page were added.
use mathlib.Core.List.{filter_map}
use ash_bot.Prelude.{
  ℕ, ◌+◌, ◌<◌, ◌≡◌, refl, ap, ◌∙◌, Bool, true, false, ◌||◌, Option, none, some, List, [], ◌∷◌,
  Bytes, length, str_eq, str_eq_iff, Bool-cases, inl, inr, arith,
}
use ash_bot.World.{Env, Event}
use ash_bot.TwitchApi.{member, insert, add_names}
use ash_bot.SubManager.{is_sub}

member-same : (x y : Bytes) (xs : List Bytes) → str_eq x y ≡ true → member x xs ≡ member y xs
member-same x y xs e = ap (λ z. member z xs) ((str_eq_iff x y).0 e)

pub member-insert :
    (x y : Bytes) (xs : List Bytes) → member x (insert y xs) ≡ (str_eq x y || member x xs)
unfolding insert member
member-insert x y xs = elim (Bool-cases (member y xs)) [
  | inr new ↦ rw (new, insert) refl
  | inl old ↦ elim (Bool-cases (str_eq x y)) [
    | inl same ↦ rw (old, insert, same) (member-same x y xs same ∙ old)
    | inr other ↦ rw (old, insert, other) refl
  ]
]

-- The names that can be read.
abbrev pub names_of : List (Option Bytes) → List Bytes
names_of = filter_map (λ name. name)

or_swap : (a b c : Bool) → (a || (b || c)) ≡ ((b || a) || c)
or_swap true true c = refl
or_swap true false c = refl
or_swap false true c = refl
or_swap false false c = refl

-- What is in the set after the names of a page.
member-add_names :
    (x : Bytes) (names : List (Option Bytes)) (n : ℕ) (subs : List Bytes)
    → member x (add_names names n subs).1 ≡ (member x (names_of names) || member x subs)
unfolding add_names member filter_map
member-add_names x [] n subs = refl
member-add_names x (none ∷ names) n subs = member-add_names x names n subs
member-add_names x (some y ∷ names) n subs =
    member-add_names x names (n + 1) (insert y subs)
    ∙ (ap (λ b. member x (names_of names) || b) (member-insert x y subs)
        ∙ or_swap (member x (names_of names)) (str_eq x y) (member x subs))

count-add_names :
    (names : List (Option Bytes)) (n : ℕ) (subs : List Bytes)
    → (add_names names n subs).0 ≡ n + length (names_of names)
unfolding add_names filter_map
count-add_names [] n subs = omega arith
count-add_names (none ∷ names) n subs = count-add_names names n subs
count-add_names (some y ∷ names) n subs =
    omega (arith, count-add_names names (n + 1) (insert y subs))

is_sub-loaded :
    (env : Env) (name x : Bytes) (xs : List Bytes) (h : List Event)
    → member x xs ≡ true
    → is_sub env name xs h ≡ (member name xs, h)
unfolding is_sub member
is_sub-loaded env name x [] h has = absurd cc
is_sub-loaded env name x (y ∷ ys) h has = refl

-- A name of a list that has one.
a_name : (xs : List Bytes) → 0 < length xs → (x : Bytes) × (member x xs ≡ true)
unfolding member
a_name [] some_name = absurd (omega (arith, some_name))
a_name (x ∷ xs) some_name = (x, rw ((str_eq_iff x x).1 refl) refl)

-- With the names of a page, one of which can be read, is_sub answers about every user that it is a
-- subscriber exactly if the page or the set before has its name, without a query; and the number that
-- the page came to is that of the names that can be read.
pub add_names-is_sub :
    (env : Env) (names : List (Option Bytes)) (subs : List Bytes) (name : Bytes) (h : List Event)
    → 0 < length (names_of names)
    → let page = add_names names 0 subs in
      (is_sub env name page.1 h ≡ (member name (names_of names) || member name subs, h))
      × (page.0 ≡ length (names_of names))
add_names-is_sub env names subs name h some_name = (
  is_sub-loaded env name (a_name (names_of names) some_name).0 _ h
        (member-add_names _ names 0 subs ∙ rw (a_name (names_of names) some_name).1 refl)
      ∙ ap (λ b. (b, h)) (member-add_names name names 0 subs),
  omega (arith, count-add_names names 0 subs),
)
