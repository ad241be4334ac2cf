-- ===== src/Usdm/ListenKey.antt =====
-- crates/binance-usdm-exec/src/listen_key.rs: the life of a listen key. `request` is the sending of
-- a request, which Request.antt has over a TLS connection: it sends a request
-- of a method to a URL with the API key and no body, and may change a state outside; `decode` reads
-- the field `listenKey` of a JSON text, or returns the text of its error.
pub mod Request
use trolly.Prelude.{
  ℕ, Text, codes, trim_end_matches, ◌++◌, Result, ok, err, map_err, if◌then◌else◌, eqb,
}
use trolly.Exec.Http.{HttpResponse, TransportError, http, parse_https_url}
use trolly.Usdm.Client.{ApiCredentials}
use trolly.Usdm.Endpoints.{usdm_rest_base_url, usdm_demo_rest_base_url}

pub data ListenKeyError : Type 0 where
  transport : Text → ListenKeyError
  unexpected_status : ℕ → Text → ListenKeyError
  parse : Text → ListenKeyError

pub record ListenKeyClient : Type 0 where
  pub rest_base_url : Text
  pub credentials : ApiCredentials

unfoldable with_rest_base : Text → ApiCredentials → ListenKeyClient
with_rest_base rest_base_url credentials = record {
  rest_base_url = trim_end_matches b'/' rest_base_url;
  credentials = credentials;
}

unfoldable production : ApiCredentials → ListenKeyClient
unfolding with_rest_base
production = with_rest_base usdm_rest_base_url

unfoldable demo : ApiCredentials → ListenKeyClient
unfolding with_rest_base
demo = with_rest_base usdm_demo_rest_base_url

unfoldable listen_key_url : ListenKeyClient → Text
listen_key_url c = c.rest_base_url ++ codes "/fapi/v1/listenKey"

-- The module's copy of `parse_https_url`, with its own error type.
abbrev own_error : TransportError → ListenKeyError
own_error (http t) = transport t

unfoldable pub parse_listen_key_url : Text → Result (Text × ℕ × Text) ListenKeyError
unfolding parse_https_url
parse_listen_key_url url = map_err own_error (parse_https_url url)

module _ {S : Type 0} (request : S → Text → Text → Text → S × Result HttpResponse ListenKeyError)
    (decode : Text → Result Text Text) where
  -- The answer to a request whose body is not read.
  abbrev acknowledged : HttpResponse → Result (Unit {0}) ListenKeyError
  acknowledged r = if eqb r.status 200 then ok tt else err (unexpected_status r.status r.body)

  abbrev created : HttpResponse → Result Text ListenKeyError
  created r =
      if eqb r.status 200
      then map_err parse (decode r.body)
      else err (unexpected_status r.status r.body)

  abbrev then_read {ℓ} :
      {A : Type ℓ}
      → (HttpResponse → Result A ListenKeyError)
      → S × Result HttpResponse ListenKeyError
      → S × Result A ListenKeyError
  then_read read (s, err e) = (s, err e)
  then_read read (s, ok r) = (s, read r)

  unfoldable create : ListenKeyClient → S → S × Result Text ListenKeyError
  unfolding listen_key_url
  create c s = then_read created (request s (codes "POST") (listen_key_url c) c.credentials.api_key)

  unfoldable keepalive : ListenKeyClient → S → S × Result (Unit {0}) ListenKeyError
  unfolding listen_key_url
  keepalive c s =
      then_read acknowledged (request s (codes "PUT") (listen_key_url c) c.credentials.api_key)

  unfoldable close : ListenKeyClient → S → S × Result (Unit {0}) ListenKeyError
  unfolding listen_key_url
  close c s =
      then_read acknowledged (request s (codes "DELETE") (listen_key_url c) c.credentials.api_key)
