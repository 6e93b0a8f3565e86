-- ===== src/Irc/Tags/Escaping.antt =====
-- Escaping of tag values as IRC version 3 defines it, undone by unescape_tag_string.
use mathlib.Core.List.{append_assoc}
use ash_bot.Prelude.{
  ℕ, zero, suc, ◌≤◌, ◌<◌, ◌≡◌, refl, sym, ap, false, [], ◌∷◌, ◌++◌, Bytes, length, length-append,
  break_at, take, drop, ◌==◌, if◌then◌else◌, Bool-cases, Option-cases, inl, inr, ◌⊎◌, arith,
}
use ash_bot.Irc.Tags.{unescaped, unescape_loop, unescape_tag_string}

-- The bytes that stand for one byte of a value.
abbrev pub escape_byte : ℕ → Bytes
escape_byte c =
    if c == b';'
    then b'\\' ∷ b':' ∷ []
    else if c == b' '
    then b'\\' ∷ b's' ∷ []
    else if c == b'\\'
    then b'\\' ∷ b'\\' ∷ []
    else if c == 13
    then b'\\' ∷ b'r' ∷ []
    else if c == 10
    then b'\\' ∷ b'n' ∷ []
    else c ∷ []

unfoldable pub escape : Bytes → Bytes
escape [] = []
escape (c ∷ cs) = escape_byte c ++ escape cs

-- A byte that starts no sequence is taken over.
loop-plain :
    (fuel : ℕ) (out : Bytes) (c : ℕ) (s : Bytes)
    → (c == b'\\') ≡ false
    → unescape_loop (suc fuel) out (c ∷ s) ≡ unescape_loop (suc fuel) (out ++ c ∷ []) s
unfolding unescape_loop break_at
loop-plain fuel out c s plain = elim (Option-cases (break_at (λ c. c == b'\\') s)) [
  | inl e ↦ rw (plain, e, unescape_loop) (sym (append_assoc out (c ∷ []) s))
  | inr ((before, here), e) ↦
      rw (plain, e, unescape_loop)
        (ap (λ t. unescape_loop fuel t (drop 2 here))
          (sym (append_assoc out (c ∷ []) (before ++ unescaped (take 2 here)))))
]

loop-sequence :
    (fuel : ℕ) (out : Bytes) (c : ℕ) (s : Bytes)
    → unescape_loop (suc fuel) out (b'\\' ∷ c ∷ s)
      ≡ unescape_loop fuel (out ++ unescaped (b'\\' ∷ c ∷ [])) s
unfolding unescape_loop break_at
loop-sequence fuel out c s = refl

-- A byte either stands for itself or is one sequence, which is unescaped to it.
escape_byte_cases :
    (c : ℕ)
    → ((escape_byte c ≡ c ∷ []) × ((c == b'\\') ≡ false))
      ⊎ ((d : ℕ) × (escape_byte c ≡ b'\\' ∷ d ∷ []) × (unescaped (b'\\' ∷ d ∷ []) ≡ c ∷ []))
unfolding unescaped
escape_byte_cases c = elim (Bool-cases (c == b';')) [
  | inl e ↦ inr (b':', ground arith, ground arith)
  | inr n1 ↦ elim (Bool-cases (c == b' ')) [
    | inl e ↦ inr (b's', ground arith, ground arith)
    | inr n2 ↦ elim (Bool-cases (c == b'\\')) [
      | inl e ↦ inr (b'\\', ground arith, ground arith)
      | inr n3 ↦ elim (Bool-cases (c == 13)) [
        | inl e ↦ inr (b'r', ground arith, ground arith)
        | inr n4 ↦ elim (Bool-cases (c == 10)) [
          | inl e ↦ inr (b'n', ground arith, ground arith)
          | inr n5 ↦ inl (ground arith, n3)
        ]
      ]
    ]
  ]
]

loop-escape :
    (fuel : ℕ) (out s : Bytes) → length s < fuel → unescape_loop fuel out (escape s) ≡ out ++ s
unfolding escape
loop-escape zero out s enough = elim enough [ ]
loop-escape (suc fuel) out [] enough = unfold unescape_loop break_at in refl
loop-escape (suc fuel) out (c ∷ s) enough = elim (escape_byte_cases c) [
  | inl (e, plain) ↦
      rw
        (
          e,
          loop-plain fuel out c (escape s) plain,
          loop-escape (suc fuel) (out ++ c ∷ []) s (omega arith),
        )
        (append_assoc out (c ∷ []) s)
  | inr (d, e, back) ↦
      rw
        (
          e,
          loop-sequence fuel out d (escape s),
          back,
          loop-escape fuel (out ++ c ∷ []) s (omega arith),
        )
        (append_assoc out (c ∷ []) s)
]

length-escape : (s : Bytes) → length s ≤ length (escape s)
unfolding escape
length-escape [] = omega arith
length-escape (c ∷ s) = ground (arith, length-escape s, length-append (escape_byte c) (escape s))

-- Unescaping gives back every value from its escaped form, whatever bytes it has.
pub unescape_tag_string-escape : (s : Bytes) → unescape_tag_string (escape s) ≡ s
unfolding unescape_tag_string
unescape_tag_string-escape s =
    loop-escape (suc (length (escape s))) [] s (omega (arith, length-escape s))
