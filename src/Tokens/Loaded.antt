-- ===== src/Tokens/Loaded.antt =====
-- The tokens after init_tokens.
use ash_bot.Prelude.{
  ℕ, ◌+◌, ◌*◌, ◌^◌, ◌<◌, ◌≡◌, refl, sym, ap, ◌∙◌, Option, none, some, List, [], ◌∷◌, ◌++◌, Bytes,
  length, get_elem?, get_elem?-set, get_elem?-below, length-set, set, take, take-append_length, min,
  lt→ltb, ◌==◌, Bool-cases, inl, inr, Avoids, if◌then◌else◌, arith,
}
use ash_bot.Prelude.Int.{pos, signed}
use ash_bot.Partial.{defined, ◌>>=◌}
use ash_bot.Db.Wire.{le_bytes, byte_swap}
use ash_bot.Db.Wire.RoundTrip.{byte_swap_involutive}
use ash_bot.Db.Results.{DbResult, read_int, read_chars, c_str}
use ash_bot.Db.Results.Counts.{sent}
use ash_bot.Tokens.{
  TokenType, twitch_secret, youtube_unused, youtube, twitch_user, soundcloud_id, soundcloud_secret,
  twitch_chat, vimeo, twitch_client_id, twitch_secret_debug, twitch_client_id_debug, snapchat_name,
  token_index, token_count, get_token, assign, read_rows,
}

-- A row of a result: the type of a token and its text, as the server sends them.
pub record IsRow (r : DbResult) (row type : ℕ) (text : Bytes) : Type 0 where
  pub type_known : type < token_count
  pub text_ends : Avoids (λ c. c == 0) text
  pub text_fits : length text < 2048
  pub type_rest : Bytes
  pub text_rest : Bytes
  pub type_sent : r.result.getvalue row 0 ≡ some (sent 2 type ++ type_rest)
  pub text_sent : r.result.getvalue row 1 ≡ some (text ++ text_rest)
  pub text_length : r.result.getlength row 1 ≡ length text

-- The rows of a result, from one row on.
abbrev pub AreRows : DbResult → ℕ → List (ℕ × Bytes) → Type 0
AreRows r row [] = Unit {0}
AreRows r row ((type, text) ∷ rows) = IsRow r row type text × AreRows r (row + 1) rows

-- The text of the last row of a type, if there is one.
abbrev pub last_text : ℕ → List (ℕ × Bytes) → Bytes → Bytes
last_text type [] old = old
last_text type ((t, text) ∷ rows) old = last_text type rows (if t == type then text else old)

read_type :
    (r : DbResult) (row type : ℕ) (text : Bytes)
    → IsRow r row type text
    → read_int 2 r row 0 ≡ some type
unfolding read_int
read_type r row type text i =
    rw (i.type_sent, read_int, taken)
      (ap some (unfold byte_swap in byte_swap_involutive 2 type (omega (arith, i.type_known))))
  where
    taken : take 2 (sent 2 type ++ i.type_rest) ≡ sent 2 type
    taken = unfold le_bytes in refl

c_str-ended : (text : Bytes) → Avoids (λ c. c == 0) text → c_str (text ++ 0 ∷ []) ≡ text
unfolding c_str
c_str-ended [] h = refl
c_str-ended (c ∷ text) h = rw (h.0, c_str-ended text h.1) refl

read_text :
    (r : DbResult) (row type : ℕ) (text : Bytes)
    → IsRow r row type text
    → read_chars r row 1 ≡ some (text ++ 0 ∷ [])
unfolding read_chars
read_text r row type text i =
    let whole : min (length text) 2047 ≡ length text = omega (arith, i.text_fits) in
    rw (i.text_sent, read_chars, i.text_length, whole, take-append_length text i.text_rest) refl

text_of : List Bytes → ℕ → Bytes
text_of tokens type = elim (get_elem? tokens type) [ none ↦ [] | some text ↦ text ]

text_of-set :
    (tokens : List Bytes) (t type : ℕ) (text : Bytes)
    → t < length tokens
    → text_of (set tokens t text) type ≡ (if t == type then text else text_of tokens type)
unfolding text_of
text_of-set tokens t type text h = elim (Bool-cases (t == type)) [
  | inl e ↦ rw (text_of, get_elem?-set tokens t type text h, e) refl
  | inr e ↦ rw (text_of, get_elem?-set tokens t type text h, e) refl
]

-- What the loop leaves.
record Reads (r : DbResult) (row : ℕ) (buffer : Option Bytes) (rows : List (ℕ × Bytes))
    (tokens : List Bytes) : Type 0 where
  result : List Bytes
  reads : read_rows r (length rows) row buffer tokens ≡ defined result
  size : length result ≡ token_count
  texts : (type : ℕ) → text_of result type ≡ last_text type rows (text_of tokens type)

read_rows-Reads :
    (r : DbResult) (row : ℕ) (buffer : Option Bytes) (rows : List (ℕ × Bytes)) (tokens : List Bytes)
    → AreRows r row rows
    → length tokens ≡ token_count
    → Reads r row buffer rows tokens
unfolding read_rows assign
read_rows-Reads r row buffer [] tokens h size = record {
  result = tokens;
  reads = refl;
  size = size;
  texts = λ type. refl;
}
read_rows-Reads r row buffer ((t, text) ∷ rows) tokens h size =
    let later =
      read_rows-Reads r (row + 1) (some (text ++ 0 ∷ [])) rows (set tokens t text) h.1
        (length-set tokens t text ∙ size) in
    let below : t < length tokens = omega (arith, h.0.type_known, size) in
    let small : signed 16 t ≡ pos t =
      rw (lt→ltb (2 * t) (2 ^ 16) (omega (arith, h.0.type_known))) refl in
    record {
      result = later.result;
      reads =
          rw
            (
              read_text r row t text h.0,
              read_rows,
              read_type r row t text h.0,
              small,
              c_str-ended text h.0.text_ends,
              lt→ltb t (length tokens) below,
            )
            later.reads;
      size = later.size;
      texts = λ type.
          later.texts type ∙ ap (last_text type rows) (text_of-set tokens t type text below);
    }

token_index-below : (token : TokenType) → token_index token < token_count
unfolding token_index
token_index-below twitch_secret = omega arith
token_index-below youtube_unused = omega arith
token_index-below youtube = omega arith
token_index-below twitch_user = omega arith
token_index-below soundcloud_id = omega arith
token_index-below soundcloud_secret = omega arith
token_index-below twitch_chat = omega arith
token_index-below vimeo = omega arith
token_index-below twitch_client_id = omega arith
token_index-below twitch_secret_debug = omega arith
token_index-below twitch_client_id_debug = omega arith
token_index-below snapchat_name = omega arith

get_token_lem :
    (tokens : List Bytes) (token : TokenType)
    → length tokens ≡ token_count
    → get_token tokens token ≡ defined (text_of tokens (token_index token))
unfolding get_token text_of
get_token_lem tokens token size =
    let (text, e) =
      get_elem?-below tokens (token_index token) (omega (arith, token_index-below token, size)) in
    rw (e, get_token, text_of) refl

-- The loop over rows of types below 12 and texts that fit in the buffer of 2048 bytes leaves each token
-- with the text of the last row of its type, or as it was if there is none.
pub read_rows_lem :
    (r : DbResult) (rows : List (ℕ × Bytes)) (tokens : List Bytes) (token : TokenType)
    → AreRows r 0 rows
    → length tokens ≡ token_count
    → (read_rows r (length rows) 0 none tokens >>= λ tokens'. get_token tokens' token)
      ≡ (get_token tokens token >>= λ old. defined (last_text (token_index token) rows old))
read_rows_lem r rows tokens token h size =
    let out = read_rows-Reads r 0 none rows tokens h size in
    rw (out.reads) (
      get_token_lem out.result token out.size
      ∙ (ap defined (out.texts (token_index token))
          ∙ ap (λ o. o >>= λ old. defined (last_text (token_index token) rows old))
              (sym (get_token_lem tokens token size))))
