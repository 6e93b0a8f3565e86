-- ===== src/Commands/Arguments.antt =====
-- What the arguments of a command are.
use ash_bot.Prelude.{
  ℕ, zero, suc, ◌≤◌, ◌≡◌, refl, ap, sym, ◌∙◌, none, some, List, [], ◌∷◌, ◌++◌, Bytes, length,
  break_at, break_at-append, length-append, ==_iff, ◌⊎◌, Avoids, All, Bool-cases, inl, inr, arith,
}
use ash_bot.Commands.{is_blank, split_loop, set_message_core, set_message}

-- Arguments with a blank between each two.
abbrev pub join : List Bytes → Bytes
join [] = []
join (w ∷ []) = w
join (w ∷ v ∷ ws) = w ++ b' ' ∷ join (v ∷ ws)

abbrev pub IsWord : Bytes → Type 0
IsWord = Avoids is_blank

-- What a text is before and from its first blank.
pub break_cases :
    (s : Bytes)
    → (break_at is_blank s ≡ none × IsWord s)
      ⊎ ((before : Bytes) × (rest : Bytes) × (break_at is_blank s ≡ some (before, b' ' ∷ rest))
          × (s ≡ before ++ b' ' ∷ rest)
          × IsWord before)
unfolding break_at
break_cases [] = inl (refl, tt)
break_cases (c ∷ s) = elim (Bool-cases (is_blank c)) [
  | inl hit ↦
      (let blank : c ≡ b' ' = (==_iff c b' ').0 hit in rw blank (inr ([], s, refl, refl, tt)))
  | inr miss ↦ elim (break_cases s) [
    | inl (e, word) ↦ inl (rw (miss, e) refl, (miss, word))
    | inr (before, rest, e, split, word) ↦
        inr (c ∷ before, rest, rw (miss, e) refl, ap (◌∷◌ c) split, (miss, word))
  ]
]

IsJoined : List Bytes → Bytes → Type 0
IsJoined args s = (join args ≡ s) × All IsWord args

join-split_loop :
    (fuel : ℕ) (w s : Bytes) → join (w ∷ split_loop fuel s) ≡ w ++ b' ' ∷ join (split_loop fuel s)
unfolding split_loop
join-split_loop zero w s = refl
join-split_loop (suc fuel) w s = elim (break_cases s) [
  | inl (e, word) ↦ rw (e, split_loop) refl
  | inr (before, rest, e, split, word) ↦ rw (e, split_loop) refl
]

split_loop-IsJoined : (fuel : ℕ) (s : Bytes) → length s ≤ fuel → IsJoined (split_loop fuel s) s
unfolding split_loop IsJoined
split_loop-IsJoined zero [] enough = (refl, (tt, tt))
split_loop-IsJoined zero (c ∷ s) enough = absurd (omega arith)
split_loop-IsJoined (suc fuel) s enough = elim (break_cases s) [
  | inl (e, word) ↦ rw (e, split_loop) (refl, (word, tt))
  | inr (before, rest, e, split, word) ↦
      (let shorter : length rest ≤ fuel =
          omega (arith, ap length split, length-append before (b' ' ∷ rest)) in
        let later = split_loop-IsJoined fuel rest shorter in
        rw (e, split_loop)
          (
            join-split_loop fuel before rest ∙ (ap (λ t. before ++ b' ' ∷ t) later.0 ∙ sym split),
            (word, later.1),
          ))
]

-- The arguments of a command hold no blank, and joined by single blanks they are what follows its
-- name: no byte of the message is lost.
pub set_message_lem :
    (name message : Bytes)
    → IsWord name
    → (join (set_message (name ++ b' ' ∷ message)) ≡ message)
      × All IsWord (set_message (name ++ b' ' ∷ message))
unfolding set_message
set_message_lem name message word =
    rw (break_at-append is_blank name b' ' message word refl, set_message)
      (unfold set_message_core IsJoined in
        split_loop-IsJoined (length message) message (omega arith))
