-- ===== src/Examples/SpotOrders.antt =====
-- Spot orders: their signature, and the executor.
use trolly.Prelude.{
  ℕ, ◌+◌, length, pos, Text, codes, text_eq, text_Eq, to_ascii_uppercase, upper_code, to_string,
  ◌≡◌, refl, none, some, List, [], ◌∷◌, ◌++◌, Result, ok, lookup, remove, BTreeMap, put,
}
use trolly.Strategy.Egress.{OrderRequest, OutboundMessage, order}
use trolly.Exec.Http.{HttpResponse, TransportError}
use trolly.Exec.Draining.{Places}
use trolly.Usdm.Fanout.{done, row}
use trolly.Spot.Auth.{sign_params, signed_params_payload}
use trolly.Spot.Order.{
  sell, limit, PlaceOrderRequest, side_str, type_str, tif_str, parse_side, base_params,
  price_params, client_id_params, build_order_params, build_signed_form_params,
}
use trolly.Spot.Order.Params.{build_signed_form_params-covers}
use trolly.Spot.Client.{
  PlaceOrderResponse, Decoders, SpotOrderClient, Post, place_order, run_order_executor,
}
use trolly.Spot.Egress.{place_order_from_request, place_order_from_outbound}
use trolly.Spot.Egress.Placing.{run_order_executor-accepted}

abbrev spot_wanted : OrderRequest
spot_wanted = record {
  symbol = codes "btcusdt";
  side = codes "sell";
  qty = codes "2";
  price = some (codes "90000");
  time_in_force = none;
  position_side = some (codes "long");
}

abbrev spot_request : PlaceOrderRequest
spot_request = record {
  symbol = codes "BTCUSDT";
  side = sell;
  order_type = limit;
  quantity = codes "2";
  price = some (codes "90000");
  time_in_force = none;
  new_client_order_id = none;
}

spot_wanted_is_accepted : place_order_from_outbound {M = Text} (order spot_wanted) ≡ ok spot_request
unfolding place_order_from_outbound place_order_from_request parse_side to_ascii_uppercase
    upper_code text_eq
spot_wanted_is_accepted = refl

abbrev hmac : Text → Text → Text
hmac secret payload = secret ++ payload

abbrev spot_params : BTreeMap
spot_params =
    (codes "price", codes "90000")
    ∷ (codes "quantity", codes "2")
    ∷ (codes "side", codes "SELL")
    ∷ (codes "symbol", codes "BTCUSDT")
    ∷ (codes "timeInForce", codes "GTC")
    ∷ (codes "type", codes "LIMIT")
    ∷ []

spot_request_is_built : build_order_params spot_request ≡ ok spot_params
unfolding build_order_params base_params price_params client_id_params put text_eq side_str type_str
    tif_str to_ascii_uppercase upper_code
spot_request_is_built = refl

abbrev spot_signed : BTreeMap
spot_signed = sign_params hmac 17 (codes "k") spot_params

spot_request_is_signed : build_signed_form_params hmac 17 (codes "k") spot_request ≡ ok spot_signed
unfolding build_signed_form_params
spot_request_is_signed = rw spot_request_is_built refl

build_signed_form_params-covers_example :
    (lookup (codes "timestamp") spot_signed ≡ some (to_string 17))
    × (lookup (codes "signature") spot_signed
        ≡ some (hmac (codes "k") (signed_params_payload (remove (codes "signature") spot_signed))))
build_signed_form_params-covers_example =
    build_signed_form_params-covers hmac 17 (codes "k") spot_request spot_signed
      spot_request_is_signed

abbrev placed_order : PlaceOrderResponse
placed_order = record {
  symbol = codes "BTCUSDT";
  order_id = pos 5;
  client_order_id = [];
  transact_time = 17;
  price = codes "90000";
  orig_qty = codes "2";
  executed_qty = codes "0";
  status = codes "NEW";
  side = codes "SELL";
  order_type = codes "LIMIT";
}

abbrev readers : Decoders
readers = record { response = λ t. ok placed_order; api_error = λ t. none }

-- A venue that keeps what was posted and accepts it.
abbrev venue : List Post → Post → List Post × Result HttpResponse TransportError
venue posted p = (posted ++ p ∷ [], ok (record { status = 200; body = [] }))

abbrev trader : SpotOrderClient
trader = record {
  credentials = record { api_key = codes "a"; secret_key = codes "k" };
  base_url = codes "https://api.binance.com";
}

-- The clock has moved on when an order was posted.
abbrev clock : List Post → ℕ
clock posted = 17 + length posted

abbrev command : List (OutboundMessage Text)
command = order spot_wanted ∷ order spot_wanted ∷ []

run_order_executor-accepted_example :
    (posted : List Post) × (run_order_executor venue readers hmac clock trader []
        (spot_request ∷ spot_request ∷ [])
      ≡ (posted, ok tt))
    × Places
        (place_order venue readers hmac clock trader)
        []
        (spot_request ∷ spot_request ∷ [])
        posted
run_order_executor-accepted_example =
    run_order_executor-accepted venue readers hmac clock trader [] command
      (spot_request ∷ spot_request ∷ [])
      (λ s p. (s ++ p ∷ [], record { status = 200; body = [] }, placed_order, refl, refl, refl))
      (row spot_wanted_is_accepted (row spot_wanted_is_accepted done))
