-- ===== src/Irc/Tags.antt =====
-- source/irc/irc_client.cpp: parse_tags and unescape_tag_string, over the tags of IRC version 3.
pub mod Escaping
pub mod Printing
use ash_bot.Prelude.{
  ℕ, zero, suc, Bool, true, false, not, ◌||◌, Option, none, some, List, [], ◌∷◌, ◌++◌, Bytes,
  length, str_eq, starts_with, break_at, take, drop, codes, ◌==◌, if◌then◌else◌,
}
use ash_bot.Partial.{Partial, defined, undefined}

-- boost::container::flat_map<std::string, std::string>
abbrev pub TagMap : Type 0
TagMap = List (Bytes × Bytes)

unfoldable pub find_tag : Bytes → TagMap → Option Bytes
find_tag key [] = none
find_tag key ((k, v) ∷ tags) = if str_eq k key then some v else find_tag key tags

-- `tags[key] = value`
unfoldable pub set_tag : Bytes → Bytes → TagMap → TagMap
set_tag key value [] = (key, value) ∷ []
set_tag key value ((k, v) ∷ tags) =
    if str_eq k key then (k, value) ∷ tags else (k, v) ∷ set_tag key value tags

-- `tags[key];`
pub touch_tag : Bytes → TagMap → TagMap
touch_tag key [] = (key, []) ∷ []
touch_tag key ((k, v) ∷ tags) = if str_eq k key then (k, v) ∷ tags else (k, v) ∷ touch_tag key tags

-- What an escape sequence of two bytes stands for; any other is dropped.
pub unescaped : Bytes → Bytes
unescaped (b ∷ c ∷ []) =
    if c == b':'
    then b';' ∷ []
    else if c == b's'
    then b' ' ∷ []
    else if c == b'\\'
    then b'\\' ∷ []
    else if c == b'r'
    then 13 ∷ []
    else if c == b'n'
    then 10 ∷ []
    else []
unescaped _ = []

-- The loop, with what is unescaped and the text from `lastPos` on.
pub unescape_loop : ℕ → Bytes → Bytes → Bytes
unfolding unescaped
unescape_loop zero out s = out ++ s
unescape_loop (suc fuel) out s = elim (break_at (λ c. c == b'\\') s) [
  | none ↦ out ++ s
  | some (before, here) ↦
      unescape_loop fuel (out ++ (before ++ unescaped (take 2 here))) (drop 2 here)
]

pub unescape_tag_string : Bytes → Bytes
unfolding unescape_loop
unescape_tag_string ts = unescape_loop (suc (length ts)) [] ts

abbrev pub ends_key : ℕ → Bool
ends_key c = c == b'=' || c == b';' || c == b' '

abbrev pub ends_value : ℕ → Bool
ends_value c = c == b';' || c == b' '

abbrev is_equals : Bytes → Bool
is_equals [] = false
is_equals (c ∷ cs) = c == b'='

-- One round of the loop: the pointer that it leaves in `tags`, and the map. A separator that is
-- not there is a null pointer.
tag_with_value : Bytes → TagMap → Option (Bytes × Bytes) → Partial (Bytes × TagMap)
tag_with_value key acc none = undefined
tag_with_value key acc (some (value, separator)) =
    defined (drop 1 separator, set_tag (unescape_tag_string key) (unescape_tag_string value) acc)

tag_with_key : TagMap → Option (Bytes × Bytes) → Partial (Bytes × TagMap)
unfolding tag_with_value
tag_with_key acc none = undefined
tag_with_key acc (some (key, separator)) =
    if is_equals separator
    then tag_with_value key acc (break_at ends_value (drop 1 separator))
    else defined (drop 1 separator, touch_tag (unescape_tag_string key) acc)

pub parse_tag : Bytes → TagMap → Partial (Bytes × TagMap)
unfolding tag_with_key
parse_tag tags acc = tag_with_key acc (break_at ends_key tags)

-- The loop, from `tags` to the start of the message: pointers into one line are equal if as much
-- of it follows them.
pub parse_tags_loop : ℕ → Bytes → Bytes → TagMap → Partial TagMap
unfolding parse_tag
parse_tags_loop zero start tags acc = undefined
parse_tags_loop (suc fuel) start tags acc = elim (length tags == length start) [
  | true ↦ defined acc
  | false ↦ elim (parse_tag tags acc) [
    | undefined ↦ undefined
    | defined (tags', acc') ↦ parse_tags_loop fuel start tags' acc'
  ]
]

-- The map that the tags of a line are added to, and the message after them. Each round but the
-- last moves the pointer, so the length of the line is enough fuel.
pub parse_tags : Bytes → TagMap → Partial (TagMap × Bytes)
unfolding parse_tags_loop
parse_tags line acc = elim (break_at (λ c. c == b' ') line) [
  | none ↦ undefined
  | some (before, space) ↦
      elim (parse_tags_loop (suc (length line)) (drop 1 space) (drop 1 line) acc) [
        | undefined ↦ undefined
        | defined tags ↦ defined (tags, drop 1 space)
      ]
]
