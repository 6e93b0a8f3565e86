-- ===== src/Irc/Connection/Lines.antt =====
-- How get_line splits what the server sends into lines.
use ash_bot.Prelude.{
  ℕ, suc, ◌+◌, ◌≡◌, refl, Bool, true, false, not, ◌&&◌, [], ◌∷◌, ◌++◌, Bytes, length, ltb,
  starts_with, if◌then◌else◌, arith, ◌==◌, Bool-cases, inl, inr,
}
use ash_bot.Partial.{Partial, defined, undefined, ◌>>=◌}
use ash_bot.Db.Results.{string_buffer_size}
use ash_bot.Irc.Connection.{get_line, get_line_from}

-- A text in which no line ends.
abbrev pub no_crlf : Bytes → Bool
no_crlf [] = true
no_crlf (c ∷ s) = if c == 13 && starts_with (10 ∷ []) s then false else no_crlf s

no_line_feed :
    (s rest : Bytes)
    → starts_with (10 ∷ []) s ≡ false
    → starts_with (10 ∷ []) (s ++ 13 ∷ 10 ∷ rest) ≡ false
unfolding starts_with
no_line_feed [] rest h = refl
no_line_feed (c ∷ s) rest h = h

-- A line that is read into `size` bytes of the buffer.
abbrev pub read_into : ℕ → Bytes → Bytes → Partial (Bytes × Bytes)
read_into size line rest = if ltb size string_buffer_size then defined (line, rest) else undefined

abbrev put_byte : ℕ → Partial (Bytes × Bytes) → Partial (Bytes × Bytes)
put_byte c later = later >>= λ r. defined (c ∷ r.0, r.1)

abbrev checked : Bool → Partial (Bytes × Bytes) → Partial (Bytes × Bytes)
checked b later = if b then undefined else later

stored :
    (index c : ℕ) (s rest : Bytes)
    → checked
        (not (ltb index string_buffer_size))
        (put_byte c (read_into (suc index + length s) s rest))
      ≡ read_into (index + suc (length s)) (c ∷ s) rest
stored index c s rest = elim (Bool-cases (ltb (index + suc (length s)) string_buffer_size)) [
  | inl fits ↦
      (let here : ltb index string_buffer_size ≡ true = ground arith in
        let after : ltb (suc index + length s) string_buffer_size ≡ true = ground arith in
        rw (fits, here, after) refl)
  | inr over ↦
      (let after : ltb (suc index + length s) string_buffer_size ≡ false = ground arith in
        rw (over, after) (both (not (ltb index string_buffer_size))))
]
  where
    both : (b : Bool) → checked b undefined ≡ undefined
    both true = refl
    both false = refl

get_line_from-line :
    (index : ℕ) (line rest : Bytes)
    → no_crlf line ≡ true
    → get_line_from index (line ++ 13 ∷ 10 ∷ rest) ≡ read_into (index + length line) line rest
unfolding get_line_from starts_with
get_line_from-line index [] rest h = ground arith
get_line_from-line index (c ∷ s) rest h = elim (Bool-cases (c == 13)) [
  | inl cr ↦ elim (Bool-cases (starts_with (10 ∷ []) s)) [
    | inl lf ↦ (let bad : false ≡ true = rw (cr, lf) at h in absurd cc)
    | inr other ↦
        (let h' : no_crlf s ≡ true = rw (cr, other) at h in
          rw
            (cr, get_line_from, no_line_feed s rest other, get_line_from-line (suc index) s rest h')
            (stored index c s rest))
  ]
  | inr other ↦
      (let h' : no_crlf s ≡ true = rw other at h in
        rw (other, get_line_from, get_line_from-line (suc index) s rest h') (stored index c s rest))
]

-- A line is read as it was sent, without its end, if it and a terminator fit in the buffer; a longer
-- one is written past the end of the buffer.
pub get_line_lem :
    (line rest : Bytes)
    → no_crlf line ≡ true
    → get_line (line ++ 13 ∷ 10 ∷ rest) ≡ read_into (length line) line rest
unfolding get_line
get_line_lem line rest h =
    (let none_read : 0 + length line ≡ length line = omega arith in
      rw none_read at (get_line_from-line 0 line rest h))
