-- ===== src/Spot/Client.antt =====
-- crates/binance-spot-exec/src/order.rs, the client: a request becomes one POST, and its response a
-- result. The transport and serde's decoders of the two response bodies are arguments.
use trolly.Prelude.{
  ℕ, ℤ, Text, codes, List, trim_end_matches, Option, none, some, ◌++◌, Result, ok, err, map_err,
  if◌then◌else◌, eqb, BTreeMap,
}
use trolly.Exec.Draining.{drain}
use trolly.Spot.Auth.{signed_params_payload}
use trolly.Exec.Http.{HttpResponse, TransportError}
use trolly.Spot.Order.{OrderBuilderError, PlaceOrderRequest, build_signed_form_params}

pub record PlaceOrderResponse : Type 0 where
  pub symbol : Text
  pub order_id : ℤ
  pub client_order_id : Text
  pub transact_time : ℕ
  pub price : Text
  pub orig_qty : Text
  pub executed_qty : Text
  pub status : Text
  pub side : Text
  pub order_type : Text

pub record BinanceApiErrorBody : Type 0 where
  pub code : ℤ
  pub msg : Text

pub data PlaceOrderError : Type 0 where
  builder : OrderBuilderError → PlaceOrderError
  transport : TransportError → PlaceOrderError
  api : ℤ → Text → PlaceOrderError
  unexpected_status : ℕ → Text → PlaceOrderError
  parse : Text → PlaceOrderError

pub record ApiCredentials : Type 0 where
  pub api_key : Text
  pub secret_key : Text

-- `serde_json::from_str` at the two types, with the text of an error.
pub record Decoders : Type 0 where
  pub response : Text → Result PlaceOrderResponse Text
  pub api_error : Text → Option BinanceApiErrorBody

unfoldable pub parse_place_order_response :
    Decoders → HttpResponse → Result PlaceOrderResponse PlaceOrderError
parse_place_order_response d r =
    if eqb r.status 200 then map_err parse (d.response r.body) else elim (d.api_error r.body) [
      | some e ↦ err (api e.code e.msg)
      | none ↦ err (unexpected_status r.status r.body)
    ]

-- `SpotOrderClient`; a transport is the function that posts a form, which may change a state `S`
-- outside the program.
pub record SpotOrderClient : Type 0 where
  pub credentials : ApiCredentials
  pub base_url : Text

unfoldable pub new_client : ApiCredentials → SpotOrderClient
new_client credentials = record {
  credentials = credentials;
  base_url = codes "https://api.binance.com";
}

unfoldable with_base_url : SpotOrderClient → Text → SpotOrderClient
with_base_url c url = record c { base_url = url }

-- What the client posts: the URL, the API key and the body.
pub record Post : Type 0 where
  pub url : Text
  pub api_key : Text
  pub body : Text

module _ {S : Type 0} (post_form : S → Post → S × Result HttpResponse TransportError) (d : Decoders)
    (sign : Text → Text → Text) (now : S → ℕ) where
  abbrev pub answer :
      S × Result HttpResponse TransportError → S × Result PlaceOrderResponse PlaceOrderError
  unfolding parse_place_order_response
  answer (s, ok response) = (s, parse_place_order_response d response)
  answer (s, err e) = (s, err (transport e))

  unfoldable pub order_post : SpotOrderClient → BTreeMap → Post
  unfolding signed_params_payload
  order_post c params = record {
    url = trim_end_matches b'/' c.base_url ++ codes "/api/v3/order";
    api_key = c.credentials.api_key;
    body = signed_params_payload params;
  }

  unfoldable pub place_order :
      SpotOrderClient → S → PlaceOrderRequest → S × Result PlaceOrderResponse PlaceOrderError
  unfolding order_post
  place_order c s request =
      elim (build_signed_form_params sign (now s) c.credentials.secret_key request) [
        | err e ↦ (s, err (builder e))
        | ok params ↦ answer (post_form s (order_post c params))
      ]

  -- `run_order_executor` of egress.rs
  unfoldable pub run_order_executor :
      SpotOrderClient → S → List PlaceOrderRequest → S × Result (Unit {0}) PlaceOrderError
  unfolding place_order
  run_order_executor c = drain (place_order c)
