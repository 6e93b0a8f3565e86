-- ===== src/Tokens.antt =====
-- source/tokens.cpp: the secrets that the bot reads from the database at its start.
pub mod Access
pub mod Loaded
use ash_bot.Prelude.{
  ℕ, zero, suc, ◌+◌, Bool, true, false, not, Option, none, some, List, [], ◌∷◌, Bytes, String,
  length, get_elem?, set, ltb, if◌then◌else◌,
}
use ash_bot.Prelude.Int.{ℤ, pos, negsuc, signed}
use ash_bot.Partial.{Partial, defined, undefined, ◌>>=◌}
use ash_bot.World.{Env, M, query, pure, ◌>>=◌ as bind}
use ash_bot.Db.Results.{DbResult, is_ok, read_int, read_chars, c_str}

-- the enumeration of tokens
pub data TokenType : Type 0 where
  twitch_secret youtube_unused youtube twitch_user soundcloud_id soundcloud_secret : TokenType
  twitch_chat vimeo twitch_client_id twitch_secret_debug twitch_client_id_debug : TokenType
  snapchat_name : TokenType

unfoldable pub token_index : TokenType → ℕ
token_index twitch_secret = 0
token_index youtube_unused = 1
token_index youtube = 2
token_index twitch_user = 3
token_index soundcloud_id = 4
token_index soundcloud_secret = 5
token_index twitch_chat = 6
token_index vimeo = 7
token_index twitch_client_id = 8
token_index twitch_secret_debug = 9
token_index twitch_client_id_debug = 10
token_index snapchat_name = 11

-- TOKEN_COUNT
abbrev pub token_count : ℕ
token_count = 12

-- get_token, which the functions of the header call with their type
unfoldable pub get_token : List Bytes → TokenType → Partial Bytes
unfolding token_index
get_token tokens token = elim (get_elem? tokens (token_index token)) [
  | none ↦ undefined
  | some text ↦ defined text
]

abbrev sql_tokens : String
sql_tokens = "SELECT type, value FROM tokens;"

-- `Tokens[tokenType].assign(token)`, which does not check the type
pub assign : ℤ → Bytes → List Bytes → Partial (List Bytes)
assign (negsuc n) text tokens = undefined
assign (pos n) text tokens =
    if ltb n (length tokens) then defined (set tokens n text) else undefined

-- A value that was read, or one that was never set.
abbrev known {ℓ} : {A : Type ℓ} → Option A → Partial A
known none = undefined
known (some a) = defined a

-- The buffer keeps what it had where a read fails; the type is a new variable in each round.
abbrev pub kept : Option Bytes → Option Bytes → Option Bytes
kept none buffer = buffer
kept (some written) buffer = some written

-- the loop over the rows from `row` on
pub read_rows : DbResult → ℕ → ℕ → Option Bytes → List Bytes → Partial (List Bytes)
unfolding assign
read_rows r zero row buffer tokens = defined tokens
read_rows r (suc rows) row buffer tokens = do
  let token = kept (read_chars r row 1) buffer
  type ← known (read_int 2 r row 0)
  text ← known token
  tokens' ← assign (signed 16 type) (c_str text) tokens
  read_rows r rows (row + 1) token tokens'

-- init_tokens: whether the query succeeded, and the tokens
pub init_tokens : Env → List Bytes → M (Partial (Bool × List Bytes))
unfolding read_rows
init_tokens env tokens = bind (query env sql_tokens []) λ result.
    if not (is_ok result)
    then pure (defined (false, tokens))
    else pure
        (read_rows result result.row_count 0 none tokens >>= λ tokens'. defined (true, tokens'))
