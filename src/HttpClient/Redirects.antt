-- ===== src/HttpClient/Redirects.antt =====
-- What the requests of one client are.
use ash_bot.Prelude.{◌≡◌, refl, sym, ap, Bool, true, false, Bytes}
use ash_bot.HttpClient.{
  CurlOptions, Transfer, HttpClient, default_options, build_request, send_request,
}

-- Whether redirects are to be followed makes no difference: between requests the options of the handle
-- are the default ones, with which none is followed, and the request turns nothing on. So it is for
-- every further request of the client.
pub send_request-follows :
    (perform : CurlOptions → Transfer) (url : Bytes) (https : Bool) (c : HttpClient)
    → c.options ≡ default_options
    → (send_request perform url https true c ≡ send_request perform url https false c)
      × ((send_request perform url https true c).1 ≡ c)
unfolding send_request build_request
send_request-follows perform url https c fresh = (
  rw (fresh, send_request, build_request) refl,
  ap (λ o. record { curl_headers = c.curl_headers; options = o }) (sym fresh),
)
