-- ===== src/Irc/Tags/Printing.antt =====
-- The tags of a line, printed as IRC version 3 defines it and parsed by parse_tags.
use mathlib.Core.List.{append_assoc}
use ash_bot.Prelude.{
  ℕ, zero, suc, ◌≤◌, ◌<◌, ◌≡◌, refl, Bool, true, false, some, List, [], ◌∷◌, ◌++◌, Bytes, length,
  length-append, break_at, break_at-append, break_at-none, break_at-skip, Avoids, ◌==◌, Bool-cases,
  inl, inr, arith, ==_refl,
}
use ash_bot.Partial.{defined}
use ash_bot.Irc.Tags.{
  TagMap, set_tag, ends_key, ends_value, unescape_loop, unescape_tag_string, tag_with_key,
  tag_with_value, parse_tag, parse_tags_loop, parse_tags,
}
use ash_bot.Irc.Tags.Escaping.{escape, escape_byte, unescape_tag_string-escape}

abbrev is_blank : ℕ → Bool
is_blank c = c == b' '

-- A key that is printed as it is.
pub record IsKey (key : Bytes) : Type 0 where
  pub unended : Avoids ends_key key
  pub unescaped : Avoids (λ c. c == b'\\') key

-- Tags with their values escaped, behind one another, before a message.
unfoldable pub print_tags : Bytes × Bytes → List (Bytes × Bytes) → Bytes → Bytes
print_tags (k, v) [] message = k ++ (b'=' ∷ (escape v ++ b' ' ∷ message))
print_tags (k, v) (t ∷ ts) message = k ++ (b'=' ∷ (escape v ++ b';' ∷ print_tags t ts message))

abbrev pub set_tags : Bytes × Bytes → List (Bytes × Bytes) → TagMap → TagMap
set_tags (k, v) [] acc = set_tag k v acc
set_tags (k, v) (t ∷ ts) acc = set_tags t ts (set_tag k v acc)

abbrev pub AllKeys : Bytes × Bytes → List (Bytes × Bytes) → Type 0
AllKeys (k, v) [] = IsKey k
AllKeys (k, v) (t ∷ ts) = IsKey k × AllKeys t ts

Avoids-append : (p : ℕ → Bool) (a b : Bytes) → Avoids p a → Avoids p b → Avoids p (a ++ b)
Avoids-append p [] b h k = k
Avoids-append p (c ∷ a) b h k = (h.0, Avoids-append p a b h.1 k)

Avoids-weaken :
    (p q : ℕ → Bool) (s : Bytes) → ((c : ℕ) → p c ≡ false → q c ≡ false) → Avoids p s → Avoids q s
Avoids-weaken p q [] h a = tt
Avoids-weaken p q (c ∷ s) h a = (h c a.0, Avoids-weaken p q s h a.1)

escape_byte-Avoids : (c : ℕ) → Avoids ends_value (escape_byte c)
escape_byte-Avoids c = elim (Bool-cases (c == b';')) [
  | inl e ↦ rw e (refl, (refl, tt))
  | inr n1 ↦ elim (Bool-cases (c == b' ')) [
    | inl e ↦ rw (n1, e) (refl, (refl, tt))
    | inr n2 ↦ elim (Bool-cases (c == b'\\')) [
      | inl e ↦ rw (n1, n2, e) (refl, (refl, tt))
      | inr n3 ↦ elim (Bool-cases (c == 13)) [
        | inl e ↦ rw (n1, n2, n3, e) (refl, (refl, tt))
        | inr n4 ↦ elim (Bool-cases (c == 10)) [
          | inl e ↦ rw (n1, n2, n3, n4, e) (refl, (refl, tt))
          | inr n5 ↦ rw (n1, n2, n3, n4, n5) (rw (n1, n2) refl, tt)
        ]
      ]
    ]
  ]
]

escape-Avoids : (v : Bytes) → Avoids ends_value (escape v)
unfolding escape
escape-Avoids [] = tt
escape-Avoids (c ∷ v) =
    Avoids-append ends_value (escape_byte c) (escape v) (escape_byte-Avoids c) (escape-Avoids v)

unescape_key : (k : Bytes) → Avoids (λ c. c == b'\\') k → unescape_tag_string k ≡ k
unfolding unescape_tag_string unescape_loop
unescape_key k h = rw (break_at-none (λ c. c == b'\\') k h, unescape_tag_string, unescape_loop)

-- One round reads one tag.
parse_tag-print :
    (k v : Bytes) (sep : ℕ) (tail : Bytes) (acc : TagMap)
    → IsKey k
    → ends_value sep ≡ true
    → parse_tag (k ++ (b'=' ∷ (escape v ++ sep ∷ tail))) acc ≡ defined (tail, set_tag k v acc)
unfolding parse_tag tag_with_key tag_with_value
parse_tag-print k v sep tail acc key ends = rw (
  break_at-append ends_key k b'=' (escape v ++ sep ∷ tail) key.unended refl,
  parse_tag,
  tag_with_key,
  break_at-append ends_value (escape v) sep tail (escape-Avoids v) ends,
  tag_with_value,
  unescape_key k key.unescaped,
  unescape_tag_string-escape v,
)

longer :
    (k : Bytes) (v : Bytes) (sep : ℕ) (tail : Bytes) (n : ℕ)
    → n ≤ length tail
    → (length (k ++ (b'=' ∷ (escape v ++ sep ∷ tail))) == n) ≡ false
longer k v sep tail n h = ground (
  arith,
  length-append k (b'=' ∷ (escape v ++ sep ∷ tail)),
  length-append (escape v) (sep ∷ tail),
)

length-print_tags :
    (t : Bytes × Bytes) (ts : List (Bytes × Bytes)) (message : Bytes)
    → length message ≤ length (print_tags t ts message)
unfolding print_tags
length-print_tags (k, v) [] message = omega (
  arith,
  length-append k (b'=' ∷ (escape v ++ b' ' ∷ message)),
  length-append (escape v) (b' ' ∷ message),
)
length-print_tags (k, v) (t ∷ ts) message = omega (
  arith,
  length-print_tags t ts message,
  length-append k (b'=' ∷ (escape v ++ b';' ∷ print_tags t ts message)),
  length-append (escape v) (b';' ∷ print_tags t ts message),
)

loop-print :
    (fuel : ℕ) (t : Bytes × Bytes) (ts : List (Bytes × Bytes)) (message : Bytes) (acc : TagMap)
    → AllKeys t ts
    → suc (length ts) < fuel
    → parse_tags_loop fuel message (print_tags t ts message) acc ≡ defined (set_tags t ts acc)
unfolding parse_tags_loop print_tags
loop-print (suc zero) (k, v) [] message acc keys enough = absurd (omega arith)
loop-print (suc (suc fuel)) (k, v) [] message acc keys enough = rw (
  longer k v b' ' message (length message) (omega arith),
  parse_tags_loop,
  parse_tag-print k v b' ' message acc keys refl,
  ==_refl (length message),
)
loop-print (suc fuel) (k, v) (t ∷ ts) message acc keys enough = rw (
  longer k v b';' (print_tags t ts message) (length message) (length-print_tags t ts message),
  parse_tags_loop,
  parse_tag-print k v b';' (print_tags t ts message) acc keys.0 refl,
  loop-print fuel t ts message (set_tag k v acc) keys.1 (omega arith),
)
loop-print zero t ts message acc keys enough = elim enough [ ]

key-blank : (c : ℕ) → ends_key c ≡ false → is_blank c ≡ false
key-blank c h = ground arith

value-blank : (c : ℕ) → ends_value c ≡ false → is_blank c ≡ false
value-blank c h = ground arith

tag-blank : (k v : Bytes) → IsKey k → Avoids is_blank (k ++ (b'=' ∷ escape v))
tag-blank k v key =
    Avoids-append is_blank k (b'=' ∷ escape v)
      (Avoids-weaken ends_key is_blank k key-blank key.unended)
      (refl, Avoids-weaken ends_value is_blank (escape v) value-blank (escape-Avoids v))

-- The first blank of the line is the one before the message.
blank-print :
    (t : Bytes × Bytes) (ts : List (Bytes × Bytes)) (message : Bytes)
    → AllKeys t ts
    → (before : Bytes) × (break_at is_blank (print_tags t ts message)
        ≡ some (before, b' ' ∷ message))
unfolding print_tags
blank-print (k, v) [] message keys = (
  k ++ (b'=' ∷ escape v),
  rw (← append_assoc k (b'=' ∷ escape v) (b' ' ∷ message))
      (break_at-append is_blank (k ++ (b'=' ∷ escape v)) b' ' message (tag-blank k v keys) refl),
)
blank-print (k, v) (t ∷ ts) message keys =
    let (before, e) = blank-print t ts message keys.1 in
    (
      (k ++ (b'=' ∷ escape v)) ++ b';' ∷ before,
      rw (← append_assoc k (b'=' ∷ escape v) (b';' ∷ print_tags t ts message)) (
          break_at-skip is_blank (k ++ (b'=' ∷ escape v)) (b';' ∷ print_tags t ts message)
            (b';' ∷ before) (b' ' ∷ message) (tag-blank k v keys.0)
            (break_at-skip is_blank (b';' ∷ []) (print_tags t ts message) before (b' ' ∷ message)
              (refl, tt) e)),
    )

count-print :
    (t : Bytes × Bytes) (ts : List (Bytes × Bytes)) (message : Bytes)
    → suc (length ts) < length (print_tags t ts message)
unfolding print_tags
count-print (k, v) [] message = omega (
  arith,
  length-append k (b'=' ∷ (escape v ++ b' ' ∷ message)),
  length-append (escape v) (b' ' ∷ message),
)
count-print (k, v) (t ∷ ts) message = omega (
  arith,
  count-print t ts message,
  length-append k (b'=' ∷ (escape v ++ b';' ∷ print_tags t ts message)),
  length-append (escape v) (b';' ∷ print_tags t ts message),
)

-- Tags that are printed before a message are parsed to the map that they set, with every value as
-- it was before it was escaped, and the message is what is left of the line.
pub parse_tags-print :
    (t : Bytes × Bytes) (ts : List (Bytes × Bytes)) (message : Bytes) (acc : TagMap)
    → AllKeys t ts
    → parse_tags (b'@' ∷ print_tags t ts message) acc ≡ defined (set_tags t ts acc, message)
unfolding parse_tags
parse_tags-print t ts message acc keys =
    let (before, e) = blank-print t ts message keys in
    rw (
      break_at-skip is_blank (b'@' ∷ []) (print_tags t ts message) before (b' ' ∷ message)
          (refl, tt) e,
      parse_tags,
      loop-print (suc (suc (length (print_tags t ts message)))) t ts message acc keys
          (omega (arith, count-print t ts message)),
    )
