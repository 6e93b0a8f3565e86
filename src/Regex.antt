-- ===== src/Regex.antt =====
-- The patterns of boost::xpressive that the source builds, the texts that they describe, and what
-- the library documents of its engine, which is a parameter.
use ash_bot.Prelude.{
  ℕ, zero, suc, Bool, true, false, ◌||◌, Option, none, some, List, [], ◌∷◌, ◌++◌, ◌≡◌, ◌≢◌, Bytes,
  String, codes, ◌⊎◌, All, ◌==◌,
}

pub data Regex : Type 0 where
  -- a literal, any byte, and a byte of a set
  lit : Bytes → Regex
  any : Regex
  byte_in : (ℕ → Bool) → Regex
  -- a >> b, a | b, !a
  seq : Regex → Regex → Regex
  alt : Regex → Regex → Regex
  opt : Regex → Regex
  -- *a and +a; the flag is set for -*a and -+a, which prefer the shortest match
  many : Bool → Regex → Regex
  some_of : Bool → Regex → Regex
  -- repeat<n>(a)
  times : ℕ → Regex → Regex
  -- (s1 = a), by the number of the group
  group : ℕ → Regex → Regex
  -- the ends of the input; they stand at the ends of the patterns only
  bos eos : Regex

infixr 60 ◌>>>◌
abbrev pub ◌>>>◌ : Regex → Regex → Regex
◌>>>◌ = seq

abbrev pub text : String → Regex
text s = lit (codes s)

abbrev concat : List Bytes → Bytes
concat [] = []
concat (w ∷ ws) = w ++ concat ws

abbrev pub Pieces : (Bytes → Type 0) → Bytes → Type 0
Pieces P s = (ws : List Bytes) × (s ≡ concat ws) × All P ws

abbrev pub Repeated : ℕ → (Bytes → Type 0) → Bytes → Type 0
Repeated zero P s = s ≡ []
Repeated (suc n) P s = (u : Bytes) × (v : Bytes) × (s ≡ u ++ v) × P u × Repeated n P v

-- The texts that a pattern describes.
abbrev pub Matches : Regex → Bytes → Type 0
Matches (lit w) s = s ≡ w
Matches any s = (c : ℕ) × (s ≡ c ∷ [])
Matches (byte_in p) s = (c : ℕ) × (s ≡ c ∷ []) × (p c ≡ true)
Matches (seq a b) s = (u : Bytes) × (v : Bytes) × (s ≡ u ++ v) × Matches a u × Matches b v
Matches (alt a b) s = Matches a s ⊎ Matches b s
Matches (opt a) s = (s ≡ []) ⊎ Matches a s
Matches (many lazy a) s = Pieces (Matches a) s
Matches (some_of lazy a) s =
    (u : Bytes) × (v : Bytes) × (s ≡ u ++ v) × Matches a u × Pieces (Matches a) v
Matches (times n a) s = Repeated n (Matches a) s
Matches (group i a) s = Matches a s
Matches bos s = s ≡ []
Matches eos s = s ≡ []

-- Whether a pattern has a group of the number, which counts from 1.
abbrev pub has_group : ℕ → Regex → Bool
has_group n (lit w) = false
has_group n any = false
has_group n (byte_in p) = false
has_group n (seq a b) = has_group n a || has_group n b
has_group n (alt a b) = has_group n a || has_group n b
has_group n (opt a) = has_group n a
has_group n (many lazy a) = has_group n a
has_group n (some_of lazy a) = has_group n a
has_group n (times k a) = has_group n a
has_group n (group i a) = i == n || has_group n a
has_group n bos = false
has_group n eos = false

-- A match: `match[n].first`, as the text from there to the end of the input. It is the null pointer
-- where the pattern has no such group.
pub record Match : Type 0 where
  pub first : ℕ → Option Bytes

-- regex_match wants the whole text, regex_search a part of it; regex_replace takes out each match.
pub record Engine : Type 0 where
  pub regex_match : Regex → Bytes → Option Match
  pub regex_search : Regex → Bytes → Option Match
  pub regex_erase : Regex → Bytes → Bytes

-- What the library documents of a pattern and a text: regex_match succeeds only on a text that the
-- pattern describes,
pub record IsSound (e : Engine) (r : Regex) (s : Bytes) : Type 0 where
  pub match_sound : (m : Match) → e.regex_match r s ≡ some m → Matches r s

-- and on every such text,
pub record IsComplete (e : Engine) (r : Regex) (s : Bytes) : Type 0 where
  pub match_complete : Matches r s → e.regex_match r s ≢ none

-- and the sub-match of a group that the pattern does not have is empty; number 0 is the whole match,
-- which no law is about.
pub record IsGrouped (e : Engine) (r : Regex) (s : Bytes) : Type 0 where
  pub search_group :
      (m : Match) (n : ℕ)
      → has_group (suc n) r ≡ false
      → e.regex_search r s ≡ some m
      → m.first (suc n) ≡ none
