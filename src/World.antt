-- ===== src/World.antt =====
-- What the bot does to the outside, and what it hears back. An operation reads and extends the
-- history of effects, newest first; the database and the web answer as a function of that history.
use ash_bot.Prelude.{ℕ, suc, Bool, List, [], ◌∷◌, Bytes, String}
use ash_bot.Prelude.Int.{ℤ}
use ash_bot.Db.Results.{PgResult, DbResult, db_result}

-- An argument of a printf format; `object` is a class object, which `%s` cannot print.
pub data Arg : Type 0 where
  str : Bytes → Arg
  int : ℤ → Arg
  object : Arg

pub data Event : Type 0 where
  -- a query to the database: its text and its binary parameters
  queried : String → List Bytes → Event
  -- an HTTP request: its URL, its headers and whether it follows redirects
  requested : Bytes → List Bytes → Bool → Event
  -- a chat message: whether it is an action, its format and arguments
  said : Bool → String → List Arg → Event
  -- a chat message after a delay in milliseconds
  said_later : ℕ → Bool → String → List Arg → Event

-- How many HTTP requests a history holds.
abbrev pub request_count : List Event → ℕ
request_count [] = 0
request_count (requested url headers follow ∷ h) = suc (request_count h)
request_count (queried sql params ∷ h) = request_count h
request_count (said action format args ∷ h) = request_count h
request_count (said_later delay action format args ∷ h) = request_count h

-- http_response
pub record HttpResponse : Type 0 where
  pub error : Bool
  pub status_code : ℤ
  pub data_ : Bytes
  pub redirect_url : Bytes

pub record Env : Type 0 where
  pub result : List Event → PgResult
  pub response : List Event → HttpResponse

abbrev pub M {ℓ} : Type ℓ → Type ℓ
M A = List Event → A × List Event

infixl 5 ◌>>=◌ ◌>>◌
abbrev pub ◌>>=◌ {ℓ κ} : {A : Type ℓ} {B : Type κ} → M A → (A → M B) → M B
◌>>=◌ m f h = f (m h).0 (m h).1

abbrev pub ◌>>◌ {ℓ κ} : {A : Type ℓ} {B : Type κ} → M A → M B → M B
m >> k = m >>= λ _. k

abbrev pub pure {ℓ} : {A : Type ℓ} → A → M A
pure a h = (a, h)

abbrev pub skip : M (Unit {0})
skip = pure tt

abbrev pub perform : Event → M (Unit {0})
perform e h = (tt, e ∷ h)

-- AshBotSendMessage
abbrev pub say : String → List Arg → M (Unit {0})
say format args = perform (said Bool.false format args)

module _ (env : Env) where
  -- db::query
  abbrev pub query : String → List Bytes → M DbResult
  query sql params h = (db_result (env.result (queried sql params ∷ h)), queried sql params ∷ h)

  -- http_client::send_request
  abbrev pub send_request : Bytes → List Bytes → Bool → M HttpResponse
  send_request url headers follow h =
      (env.response (requested url headers follow ∷ h), requested url headers follow ∷ h)
