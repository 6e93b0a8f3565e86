-- ===== src/HttpClient.antt =====
-- source/http_client.cpp: requests over libcurl, which is a parameter.
pub mod Redirects
use ash_bot.Prelude.{
  Bool, true, false, not, Option, none, some, List, [], ◌∷◌, ◌++◌, Bytes, codes, take,
  if◌then◌else◌,
}
use ash_bot.Prelude.Int.{ℤ}
use ash_bot.World.{HttpResponse}

-- The options of a handle that the source sets; the function of the body appends to the data.
pub record CurlOptions : Type 0 where
  pub url : Bytes
  pub use_ssl : Bool
  pub tls_1_2 : Bool
  pub follow_location : Bool
  pub http_headers : List Bytes

-- What curl_easy_init and curl_easy_reset leave: libcurl follows no redirect unless it is told to.
abbrev pub default_options : CurlOptions
default_options = record {
  url = [];
  use_ssl = false;
  tls_1_2 = false;
  follow_location = false;
  http_headers = [];
}

-- What a transfer gives: the pieces of the body are those that the function of the body was called
-- with.
pub record Transfer : Type 0 where
  pub ok : Bool
  pub pieces : List Bytes
  pub status_code : ℤ
  pub redirect_url : Option Bytes

-- http_client: `curlHeaders_` and the handle's options
pub record HttpClient : Type 0 where
  pub curl_headers : List Bytes
  pub options : CurlOptions

abbrev pub new_client : HttpClient
new_client = record { curl_headers = []; options = default_options }

pub add_header : Bytes → Bytes → HttpClient → HttpClient
add_header name value c = record c {
  curl_headers = c.curl_headers ++ (name ++ codes ": " ++ value) ∷ [];
}

-- build_request
pub build_request : Bytes → Bool → Bool → HttpClient → HttpClient
build_request url https follow c = record c {
  options = record {
    url = url;
    use_ssl = if https then true else c.options.use_ssl;
    tls_1_2 = if https then true else c.options.tls_1_2;
    follow_location = if not follow then false else c.options.follow_location;
    http_headers = elim c.curl_headers [ [] ↦ c.options.http_headers | h ∷ hs ↦ h ∷ hs ];
  };
}

-- curl_write, called for each piece
pub curl_write : List Bytes → Bytes → Bytes
curl_write [] body = body
curl_write (piece ∷ pieces) body = curl_write pieces (body ++ piece)

abbrev or_empty : Option Bytes → Bytes
or_empty none = []
or_empty (some s) = s

-- send_request: `perform` is curl_easy_perform. The handle is reset, the headers are kept.
pub send_request :
    (CurlOptions → Transfer) → Bytes → Bool → Bool → HttpClient → HttpResponse × HttpClient
unfolding build_request curl_write
send_request perform url https follow c =
    let built = build_request url https follow c in
    let t = perform built.options in
    (
      record {
        error = not t.ok;
        status_code = t.status_code;
        data_ = curl_write t.pieces [];
        redirect_url = or_empty t.redirect_url;
      },
      record built { options = default_options },
    )

-- add_twitch_std_headers, with the identifier of source/tokens.cpp
pub add_twitch_std_headers : Bytes → HttpClient → HttpClient
unfolding add_header
add_twitch_std_headers client_id c =
    add_header (codes "Client-ID") client_id
      (add_header (codes "Accept") (codes "application/vnd.twitchtv.v3+json") c)

-- add_twitch_auth_headers, whose buffer of 128 bytes cuts the token off
pub add_twitch_auth_headers : Bytes → Bytes → HttpClient → HttpClient
unfolding add_header add_twitch_std_headers
add_twitch_auth_headers client_id user c =
    add_header (codes "Authorization") (codes "OAuth " ++ take 121 user)
      (add_twitch_std_headers client_id c)
