-- ===== src/Db/Connections/Conserves.antt =====
-- No connection is handed to two users, or closed while one has it.
use mathlib.Core.List.{Perm, perm_middle, filter_map}
use mathlib.Core.List.Perm
use ash_bot.Prelude.{
  ℕ, zero, suc, ap, Bool, ◌≡◌, refl, Option, none, some, List, [], ◌∷◌, ◌++◌, Option-cases,
  Bool-cases, inl, inr,
}
use ash_bot.CcQueue.{CcQueue}
use ash_bot.Ownership.{Fresh, Fresh-perm, Fresh-cons, Fresh-skip}
use ash_bot.Db.Connections.{
  Connections, finish, open_connection, get_connection, release_connection, with_connection,
  close_all,
}

-- The connections of a list that may hold null pointers.
abbrev pub present : List (Option ℕ) → List ℕ
present [] = []
present (none ∷ pcs) = present pcs
present (some pc ∷ pcs) = pc ∷ present pcs

-- The connections that a user has, with the one that it was just given.
abbrev pub hold : Option ℕ → List ℕ → List ℕ
hold none held = held
hold (some pc) held = pc ∷ held

-- The connections in use, those in the pool and the closed ones are all distinct.
abbrev pub IsExclusive : List ℕ → Connections → Type 0
IsExclusive held s = Fresh s.next (held ++ (present s.pool ++ s.finished))

present-filter_map : (pcs : List (Option ℕ)) → present pcs ≡ filter_map (λ pc. pc) pcs
unfolding filter_map
present-filter_map [] = refl
present-filter_map (none ∷ pcs) = present-filter_map pcs
present-filter_map (some pc ∷ pcs) = ap (◌∷◌ pc) (present-filter_map pcs)

pub present-perm : {xs ys : List (Option ℕ)} → Perm xs ys → Perm (present xs) (present ys)
present-perm {xs} {ys} p =
    rw (present-filter_map xs, present-filter_map ys) (Perm.filter_map (λ pc. pc) p)

-- Moving a connection from the front of the pool to the user that takes it.
hold-perm :
    (pc : Option ℕ) (held : List ℕ) (rest : List (Option ℕ)) (finished : List ℕ)
    → Perm (held ++ (present (pc ∷ rest) ++ finished)) (hold pc held ++ (present rest ++ finished))
hold-perm none held rest finished = Perm.refl _
hold-perm (some pc) held rest finished = perm_middle held (present rest ++ finished)

finish-perm :
    (pc : Option ℕ) (held : List ℕ) (s : Connections)
    → Perm
        (hold pc held ++ (present s.pool ++ s.finished))
        (held ++ (present (finish pc s).pool ++ (finish pc s).finished))
unfolding finish
finish-perm none held s = Perm.refl _
finish-perm (some pc) held s = Perm.symm (
    Perm.trans (Perm.append_left held (perm_middle (present s.pool) s.finished))
      (perm_middle held (present s.pool ++ s.finished)))

next-finish : (pc : Option ℕ) (s : Connections) → (finish pc s).next ≡ s.next
unfolding finish
next-finish none s = refl
next-finish (some pc) s = refl

finish-IsExclusive :
    (pc : Option ℕ) (held : List ℕ) (s : Connections)
    → IsExclusive (hold pc held) s
    → IsExclusive held (finish pc s)
finish-IsExclusive pc held s f = rw (next-finish pc s) (Fresh-perm (finish-perm pc held s) f)

module _ (queue : CcQueue (Option ℕ)) (status : Option ℕ → Bool) where
  taken-IsExclusive :
      (held : List ℕ) (s : Connections) (pc : Option ℕ) (rest : List (Option ℕ))
      → queue.try_dequeue s.pool ≡ some (pc, rest)
      → IsExclusive held s
      → IsExclusive (hold pc held) (record s { pool = rest })
  taken-IsExclusive held s pc rest e f =
      Fresh-perm
        (Perm.trans
          (Perm.append_left held
            (Perm.append_right s.finished (present-perm (queue.dequeue-perm s.pool pc rest e))))
          (hold-perm pc held rest s.finished))
        f

  open_connection-IsExclusive :
      (held : List ℕ) (s : Connections)
      → IsExclusive held s
      → IsExclusive
          (hold (open_connection queue status s).0 held)
          (open_connection queue status s).1
  unfolding open_connection
  open_connection-IsExclusive held s f = elim (Bool-cases (status (some s.next))) [
    | inl connected ↦ rw (connected, open_connection) (Fresh-cons f)
    | inr refused ↦ rw (refused, open_connection) (Fresh-skip f)
  ]

  -- If every connection has one owner, the one that `get_connection` gives out is not closed, and
  -- nobody else has it.
  pub get_connection-IsExclusive :
      (held : List ℕ) (s : Connections)
      → IsExclusive held s
      → IsExclusive (hold (get_connection queue status s).0 held) (get_connection queue status s).1
  unfolding get_connection
  get_connection-IsExclusive held s f = elim (Option-cases (queue.try_dequeue s.pool)) [
    | inl e ↦ rw (e, get_connection) (open_connection-IsExclusive held s f)
    | inr ((pc, rest), e) ↦
        let taken = taken-IsExclusive held s pc rest e f in
        elim (Bool-cases (status pc)) [
          | inl alive ↦ rw (e, get_connection, alive) taken
          | inr dead ↦
              rw (e, get_connection, dead)
                (open_connection-IsExclusive held _ (finish-IsExclusive pc held _ taken))
        ]
  ]

  pub release_connection-IsExclusive :
      (pc : Option ℕ) (held : List ℕ) (s : Connections)
      → IsExclusive (hold pc held) s
      → IsExclusive held (release_connection queue status pc s)
  unfolding release_connection
  release_connection-IsExclusive pc held s f =
      Fresh-perm
        (Perm.symm (
          Perm.trans
            (Perm.append_left held
              (Perm.append_right s.finished (present-perm (queue.enqueue-perm pc s.pool))))
            (hold-perm pc held s.pool s.finished)))
        f

  -- If every connection has one owner, the pool, the closed ones or a user, it still has one after a
  -- query, whatever the query does with its connection.
  pub with_connection-IsExclusive {ℓ} :
      {R : Type ℓ} (run : Option ℕ → R) (held : List ℕ) (s : Connections)
      → IsExclusive held s
      → IsExclusive held (with_connection queue status run s).1
  unfolding with_connection
  with_connection-IsExclusive run held s f =
      release_connection-IsExclusive _ held _ (get_connection-IsExclusive held s f)

  pub close_all-IsExclusive :
      (fuel : ℕ) (held : List ℕ) (s : Connections)
      → IsExclusive held s
      → IsExclusive held (close_all queue status fuel s)
  unfolding close_all
  close_all-IsExclusive zero held s f = f
  close_all-IsExclusive (suc fuel) held s f = elim (Option-cases (queue.try_dequeue s.pool)) [
    | inl e ↦ rw (e, close_all) f
    | inr ((pc, rest), e) ↦
        rw (e, close_all)
          (close_all-IsExclusive fuel held _
            (finish-IsExclusive pc held _ (taken-IsExclusive held s pc rest e f)))
  ]
