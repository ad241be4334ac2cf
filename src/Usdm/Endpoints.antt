-- ===== src/Usdm/Endpoints.antt =====
-- crates/binance-usdm-exec/src/endpoints.rs: the URLs of the USD-M user-data stream. `upper` is the
-- Unicode table of `char::to_uppercase`.
use trolly.Prelude.{
  ℕ, Text, codes, text_Eq, text_eq, to_uppercase, to_string, trim_end_matches, Option, none, some,
  List, [], ◌++◌, if◌then◌else◌, ◌==◌,
}

abbrev pub usdm_rest_base_url : Text
usdm_rest_base_url = codes "https://fapi.binance.com"

abbrev pub usdm_demo_rest_base_url : Text
usdm_demo_rest_base_url = codes "https://demo-fapi.binance.com"

abbrev usdm_demo_ws_private_base : Text
usdm_demo_ws_private_base = codes "wss://fstream.binancefuture.com/private/ws"

abbrev usdm_prod_ws_private_base : Text
usdm_prod_ws_private_base = codes "wss://fstream.binance.com/private/ws"

pub record UsdmUserDataStream : Type 0 where
  pub listen_key : Text
  pub events_filter : Option Text
  pub ws_private_base : Text

unfoldable production_stream : Text → UsdmUserDataStream
production_stream listen_key = record {
  listen_key = listen_key;
  events_filter = none;
  ws_private_base = usdm_prod_ws_private_base;
}

unfoldable demo_stream : Text → UsdmUserDataStream
demo_stream listen_key = record {
  listen_key = listen_key;
  events_filter = none;
  ws_private_base = usdm_demo_ws_private_base;
}

unfoldable with_events_filter : UsdmUserDataStream → Text → UsdmUserDataStream
with_events_filter s events = record s { events_filter = some events }

unfoldable private_ws_url : UsdmUserDataStream → Text
private_ws_url s = elim s.events_filter [
  | some events ↦
      s.ws_private_base ++ (codes "?listenKey=" ++ (s.listen_key ++ (codes "&events=" ++ events)))
  | none ↦ s.ws_private_base ++ (codes "/" ++ s.listen_key)
]

unfoldable ws_subscriptions : UsdmUserDataStream → List Text → List Text
ws_subscriptions s symbols = []

module _ (upper : ℕ → Text) where
  unfoldable usdm_depth_rest_url : Text → Text → ℕ → Text
  usdm_depth_rest_url base symbol limit =
      trim_end_matches b'/' base
      ++ (codes "/fapi/v1/depth?symbol="
          ++ (to_uppercase upper symbol ++ (codes "&limit=" ++ to_string limit)))

  unfoldable rest_api_url : UsdmUserDataStream → Text → Text
  unfolding usdm_depth_rest_url text_eq
  rest_api_url s symbol =
      let base =
        if s.ws_private_base == usdm_demo_ws_private_base
        then usdm_demo_rest_base_url
        else usdm_rest_base_url in
      usdm_depth_rest_url base symbol 100
