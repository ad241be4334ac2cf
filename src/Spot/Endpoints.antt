-- ===== src/Spot/Endpoints.antt =====
-- crates/binance-spot-exec/src/endpoints.rs: the URLs of the spot user-data stream and its
-- subscription. `upper` is the Unicode table of `char::to_uppercase`; `to_json` is the text that
-- serde_json makes of the subscription with the parameters.
use trolly.Prelude.{
  ℕ, Text, codes, text_Eq, text_eq, to_uppercase, to_string, trim_end_matches, List, [], ◌∷◌, ◌++◌,
  if◌then◌else◌, ◌==◌, BTreeMap,
}
use trolly.Spot.Auth.{build_subscribe_signature_params}
use trolly.Spot.Client.{ApiCredentials}

abbrev spot_rest_base_url : Text
spot_rest_base_url = codes "https://api.binance.com/api"

abbrev spot_demo_rest_base_url : Text
spot_demo_rest_base_url = codes "https://demo-api.binance.com/api"

abbrev spot_demo_ws_api_url : Text
spot_demo_ws_api_url = codes "wss://demo-ws-api.binance.com/ws-api/v3"

pub record BinanceSpotUserStream : Type 0 where
  pub credentials : ApiCredentials
  pub ws_api_url : Text

unfoldable production_stream : ApiCredentials → BinanceSpotUserStream
production_stream credentials = record {
  credentials = credentials;
  ws_api_url = codes "wss://ws-api.binance.com:443/ws-api/v3";
}

unfoldable demo_stream : ApiCredentials → BinanceSpotUserStream
demo_stream credentials = record { credentials = credentials; ws_api_url = spot_demo_ws_api_url }

module _ (sign : Text → Text → Text) (now : ℕ) (to_json : Text → Text → BTreeMap → Text) where
  unfoldable subscribe_request_json : BinanceSpotUserStream → Text
  unfolding build_subscribe_signature_params
  subscribe_request_json s =
      to_json (codes "binance-spot-exec-subscribe") (codes "userDataStream.subscribe.signature")
        (build_subscribe_signature_params sign now s.credentials.api_key s.credentials.secret_key)

  unfoldable ws_subscriptions : BinanceSpotUserStream → List Text → List Text
  unfolding subscribe_request_json
  ws_subscriptions s symbols = subscribe_request_json s ∷ []

module _ (upper : ℕ → Text) where
  unfoldable spot_depth_rest_url : Text → Text → ℕ → Text
  spot_depth_rest_url base symbol limit =
      trim_end_matches b'/' base
      ++ (codes "/v3/depth?symbol="
          ++ (to_uppercase upper symbol ++ (codes "&limit=" ++ to_string limit)))

  unfoldable rest_api_url : BinanceSpotUserStream → Text → Text
  unfolding spot_depth_rest_url text_eq
  rest_api_url s symbol =
      if s.ws_api_url == spot_demo_ws_api_url
      then spot_depth_rest_url spot_demo_rest_base_url symbol 100
      else spot_depth_rest_url spot_rest_base_url symbol 100
