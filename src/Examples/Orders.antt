-- ===== src/Examples/Orders.antt =====
-- Orders: their words, parameters and queue, and the URLs that they are posted to.
use trolly.Prelude.{
  Text, codes, text_eq, text_Eq, to_ascii_uppercase, upper_code, to_string, ◌≡◌, ◌↔◌, ◌≢◌, ◌⊎◌,
  refl, none, some, List, [], ◌∷◌, ◌++◌, ok, err, lookup, remove, BTreeMap, put, Free, arith, true,
}
use trolly.Usdm.Order.{
  sell, market, limit, PlaceOrderRequest, market_with_price, limit_requires_price, side_str,
  parse_side, tif_str, position_side_str, base_params, price_params, client_id_params,
  build_order_params, build_signed_form_params, signed_params_payload, type_str,
}
use trolly.Usdm.Order.Params.{
  param_of, lookup-build_order_params, build_order_params_err, build_signed_form_params-signature,
}
use trolly.Strategy.Egress.{OrderRequest, OutboundMessage, order, recording_strategy}
use trolly.Strategy.Runtime.{dispatch_all, EventFormat}
use trolly.Usdm.Egress.{
  place_order_from_request, place_order_from_outbound, enqueue, dispatch, OrderQueue,
  usdm_order_egress,
}
use trolly.Usdm.Egress.Queue.{place_order_from_outbound-builds, dispatch_all-queued}
use trolly.Usdm.Fanout.{Decodes}
use trolly.Exec.Http.{parse_https_url}
use trolly.Exec.Urls.{parse_https_url_port}
use trolly.Examples.Data.{texts}

abbrev limit_order : PlaceOrderRequest
limit_order = record {
  symbol = codes "btcusdt";
  side = sell;
  order_type = limit;
  quantity = codes "2";
  price = some (codes "90000");
  time_in_force = none;
  position_side = none;
  new_client_order_id = none;
}

abbrev limit_params : BTreeMap
limit_params =
    (codes "positionSide", codes "BOTH")
    ∷ (codes "price", codes "90000")
    ∷ (codes "quantity", codes "2")
    ∷ (codes "side", codes "SELL")
    ∷ (codes "symbol", codes "BTCUSDT")
    ∷ (codes "timeInForce", codes "GTC")
    ∷ (codes "type", codes "LIMIT")
    ∷ []

limit_order_is_built : build_order_params limit_order ≡ ok limit_params
unfolding build_order_params base_params price_params client_id_params put text_eq side_str type_str
    tif_str position_side_str to_ascii_uppercase upper_code
limit_order_is_built = refl

lookup-build_order_params_example :
    lookup (codes "timeInForce") limit_params ≡ param_of limit_order (codes "timeInForce")
lookup-build_order_params_example =
    lookup-build_order_params limit_order limit_params limit_order_is_built (codes "timeInForce")

build_order_params_err_example :
    let r : PlaceOrderRequest = record limit_order { price = none } in
    (build_order_params r ≡ err limit_requires_price) ↔ (
      ((r.order_type ≡ market) × (r.price ≢ none) × (limit_requires_price ≡ market_with_price))
      ⊎ ((r.order_type ≡ limit) × (r.price ≡ none) × (limit_requires_price ≡ limit_requires_price)))
build_order_params_err_example =
    build_order_params_err (record limit_order { price = none }) limit_requires_price

-- A signature that is the key and the payload.
abbrev sign : Text → Text → Text
sign secret payload = secret ++ payload

abbrev stamped : BTreeMap
stamped = put (codes "timestamp") (to_string 17) limit_params

abbrev signed : BTreeMap
signed = put (codes "signature") (sign (codes "k") (signed_params_payload stamped)) stamped

limit_order_is_signed : build_signed_form_params sign 17 (codes "k") limit_order ≡ ok signed
unfolding build_signed_form_params
limit_order_is_signed = rw limit_order_is_built refl

build_signed_form_params-signature_example :
    (lookup (codes "timestamp") signed ≡ some (to_string 17))
    × (lookup (codes "signature") signed
        ≡ some (sign (codes "k") (signed_params_payload (remove (codes "signature") signed))))
build_signed_form_params-signature_example =
    build_signed_form_params-signature sign 17 (codes "k") limit_order signed limit_order_is_signed

abbrev wanted : OrderRequest
wanted = record {
  symbol = codes "btcusdt";
  side = codes "sell";
  qty = codes "2";
  price = some (codes "90000");
  time_in_force = none;
  position_side = none;
}

abbrev request : PlaceOrderRequest
request = record limit_order { symbol = codes "BTCUSDT" }

wanted_is_accepted : place_order_from_request wanted ≡ ok request
unfolding place_order_from_request parse_side to_ascii_uppercase upper_code text_eq
wanted_is_accepted = refl

abbrev command : OutboundMessage Text
command = order wanted

command_is_accepted : place_order_from_outbound command ≡ ok request
unfolding place_order_from_outbound
command_is_accepted = wanted_is_accepted

place_order_from_outbound-builds_example : (ps : BTreeMap) × (build_order_params request ≡ ok ps)
place_order_from_outbound-builds_example =
    place_order_from_outbound-builds command request command_is_accepted

abbrev no_format : EventFormat
no_format = record { Error = Unit {0}; from_str = λ t. err tt; to_string = λ e. [] }

abbrev before : OrderQueue
before = record { receiver_alive = true; queued = [] }

abbrev after : OrderQueue
after = record { receiver_alive = true; queued = request ∷ request ∷ [] }

commands_are_queued :
    dispatch_all texts no_format
      (recording_strategy Text)
      (usdm_order_egress Text)
      before
      (command ∷ command ∷ [])
    ≡ (after, ok tt)
unfolding dispatch_all dispatch enqueue place_order_from_outbound place_order_from_request
    parse_side to_ascii_uppercase upper_code text_eq
commands_are_queued = refl

dispatch_all-queued_example :
    (rs : List PlaceOrderRequest) × Decodes place_order_from_outbound (command ∷ command ∷ []) rs
    × (after.queued ≡ before.queued ++ rs)
dispatch_all-queued_example =
    dispatch_all-queued texts no_format (recording_strategy Text) before after
      (command ∷ command ∷ []) commands_are_queued

host-Free : (Free b':' (codes "fapi.x")) × (Free b'/' (codes "fapi.x"))
host-Free = ground arith

parse_https_url_port_example :
    parse_https_url (
      codes "https://"
      ++ (codes "fapi.x" ++ (codes ":" ++ to_string 8443) ++ (codes "/" ++ codes "v1")))
    ≡ ok (codes "fapi.x", 8443, codes "/" ++ codes "v1")
parse_https_url_port_example =
    parse_https_url_port (codes "fapi.x") (codes "v1") 8443 host-Free.0 host-Free.1 (omega arith)
