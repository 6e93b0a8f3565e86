-- ===== src/SubManager/Added.antt =====
-- Who is a subscriber once add_sub was called.
use ash_bot.Prelude.{◌≡◌, refl, ap, ◌∙◌, ◌||◌, List, [], ◌∷◌, Bytes, str_eq, Bool-cases, inl, inr}
use ash_bot.World.{Env, Event}
use ash_bot.TwitchApi.{member, insert}
use ash_bot.SubManager.{add_sub, is_sub}
use ash_bot.SubManager.Names.{member-insert}

-- The set is not empty, so that the database is not asked.
is_sub-insert :
    (env : Env) (other name : Bytes) (subs : List Bytes) (h : List Event)
    → is_sub env other (insert name subs) h ≡ (member other (insert name subs), h)
unfolding is_sub insert member
is_sub-insert env other name [] h = refl
is_sub-insert env other name (s ∷ ss) h = elim (Bool-cases (member name (s ∷ ss))) [
  | inl old ↦ rw (old, is_sub, insert) refl
  | inr new ↦ rw (new, is_sub, insert) refl
]

-- After add_sub of a name, is_sub answers true exactly for that name and those that were in the set,
-- and asks the database about none: where the set was empty, every other name is no subscriber,
-- whatever the database has.
pub add_sub-is_sub :
    (env : Env) (name other : Bytes) (subs : List Bytes) (h k : List Event)
    → is_sub env other (add_sub env name subs h).0 k ≡ ((str_eq other name || member other subs), k)
unfolding add_sub
add_sub-is_sub env name other subs h k =
    is_sub-insert env other name subs k ∙ ap (λ b. (b, k)) (member-insert other name subs)
