-- ===== src/Spot/Order.antt =====
-- crates/binance-spot-exec/src/order.rs: the parameters of a signed spot order.
pub mod Params
use trolly.Prelude.{
  ℕ, Text, text_eq, text_Eq, codes, to_ascii_uppercase, Option, none, some, [], Result, ok, err,
  ◌>>=◌, if◌then◌else◌, ◌==◌, BTreeMap, put,
}
use trolly.Spot.Auth.{sign_params}

pub data OrderSide : Type 0 where
  buy sell : OrderSide

pub data OrderType : Type 0 where
  market limit : OrderType

pub data TimeInForce : Type 0 where
  gtc ioc fok : TimeInForce

pub data OrderBuilderError : Type 0 where
  invalid_side invalid_time_in_force : Text → OrderBuilderError
  limit_requires_price market_with_price : OrderBuilderError

pub record PlaceOrderRequest : Type 0 where
  pub symbol : Text
  pub side : OrderSide
  pub order_type : OrderType
  pub quantity : Text
  pub price : Option Text
  pub time_in_force : Option TimeInForce
  pub new_client_order_id : Option Text

unfoldable pub side_str : OrderSide → Text
side_str buy = codes "BUY"
side_str sell = codes "SELL"

unfoldable pub parse_side : Text → Result OrderSide OrderBuilderError
parse_side value =
    let word = to_ascii_uppercase value in
    if word == codes "BUY"
    then ok buy
    else if word == codes "SELL"
    then ok sell
    else err (invalid_side word)

unfoldable pub type_str : OrderType → Text
type_str market = codes "MARKET"
type_str limit = codes "LIMIT"

unfoldable pub tif_str : TimeInForce → Text
tif_str gtc = codes "GTC"
tif_str ioc = codes "IOC"
tif_str fok = codes "FOK"

unfoldable pub parse_tif : Text → Result TimeInForce OrderBuilderError
parse_tif value =
    let word = to_ascii_uppercase value in
    if word == codes "GTC"
    then ok gtc
    else if word == codes "IOC"
    then ok ioc
    else if word == codes "FOK"
    then ok fok
    else err (invalid_time_in_force word)

-- `PlaceOrderRequest::market`
unfoldable pub market_request : Text → OrderSide → Text → PlaceOrderRequest
market_request symbol side quantity = record {
  symbol = to_ascii_uppercase symbol;
  side = side;
  order_type = market;
  quantity = quantity;
  price = none;
  time_in_force = none;
  new_client_order_id = none;
}

-- `PlaceOrderRequest::limit`
unfoldable pub limit_request : Text → OrderSide → Text → Text → TimeInForce → PlaceOrderRequest
limit_request symbol side quantity price tif = record {
  symbol = to_ascii_uppercase symbol;
  side = side;
  order_type = limit;
  quantity = quantity;
  price = some price;
  time_in_force = some tif;
  new_client_order_id = none;
}

abbrev pub tif_or_gtc : Option TimeInForce → TimeInForce
tif_or_gtc none = gtc
tif_or_gtc (some tif) = tif

-- The inserts before the `match` on the order type.
unfoldable pub base_params : PlaceOrderRequest → BTreeMap
unfolding side_str type_str
base_params r = put (codes "quantity") r.quantity (
    put (codes "type") (type_str r.order_type) (
      put (codes "side") (side_str r.side) (put (codes "symbol") (to_ascii_uppercase r.symbol) [])))

-- The `match` on the order type.
unfoldable pub price_params :
    OrderType → Option Text → Option TimeInForce → BTreeMap → Result BTreeMap OrderBuilderError
unfolding tif_str
price_params market none tif m = ok m
price_params market (some p) tif m = err market_with_price
price_params limit none tif m = err limit_requires_price
price_params limit (some p) tif m =
    ok (put (codes "timeInForce") (tif_str (tif_or_gtc tif)) (put (codes "price") p m))

unfoldable pub client_id_params : Option Text → BTreeMap → BTreeMap
client_id_params none m = m
client_id_params (some id) m = put (codes "newClientOrderId") id m

unfoldable pub build_order_params : PlaceOrderRequest → Result BTreeMap OrderBuilderError
unfolding base_params price_params client_id_params
build_order_params r = do
  params ← price_params r.order_type r.price r.time_in_force (base_params r)
  ok (client_id_params r.new_client_order_id params)

-- The timestamp and the signature are inserted as `sign_params` of auth.rs does.
module _ (sign : Text → Text → Text) (now : ℕ) where
  unfoldable pub build_signed_form_params :
      Text → PlaceOrderRequest → Result BTreeMap OrderBuilderError
  unfolding sign_params
  build_signed_form_params secret_key request = do
    params ← build_order_params request
    ok (sign_params sign now secret_key params)
