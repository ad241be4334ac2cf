-- ===== src/Usdm/Order.antt =====
-- crates/binance-usdm-exec/src/order.rs and auth.rs: the parameters of a signed order. The clock
-- and HMAC-SHA256 are arguments.
pub mod Params
pub mod Words
use trolly.Prelude.{
  ℕ, Text, text_eq, text_Eq, codes, to_ascii_uppercase, to_string, join, Option, none, some, List,
  [], ◌∷◌, ◌++◌, map, Result, ok, err, ◌>>=◌, if◌then◌else◌, ◌==◌, BTreeMap, put,
}

pub data OrderSide : Type 0 where
  buy sell : OrderSide

pub data OrderType : Type 0 where
  market limit : OrderType

pub data TimeInForce : Type 0 where
  gtc ioc fok gtx : TimeInForce

pub data PositionSide : Type 0 where
  long short both : PositionSide

pub data OrderBuilderError : Type 0 where
  invalid_side invalid_time_in_force invalid_position_side : Text → OrderBuilderError
  limit_requires_price market_with_price : OrderBuilderError

pub record PlaceOrderRequest : Type 0 where
  pub symbol : Text
  pub side : OrderSide
  pub order_type : OrderType
  pub quantity : Text
  pub price : Option Text
  pub time_in_force : Option TimeInForce
  pub position_side : Option PositionSide
  pub new_client_order_id : Option Text

unfoldable pub side_str : OrderSide → Text
side_str buy = codes "BUY"
side_str sell = codes "SELL"

unfoldable pub parse_side : Text → Result OrderSide OrderBuilderError
parse_side value =
    let upper = to_ascii_uppercase value in
    if upper == codes "BUY"
    then ok buy
    else if upper == codes "SELL"
    then ok sell
    else err (invalid_side upper)

unfoldable pub type_str : OrderType → Text
type_str market = codes "MARKET"
type_str limit = codes "LIMIT"

unfoldable pub tif_str : TimeInForce → Text
tif_str gtc = codes "GTC"
tif_str ioc = codes "IOC"
tif_str fok = codes "FOK"
tif_str gtx = codes "GTX"

unfoldable pub parse_tif : Text → Result TimeInForce OrderBuilderError
parse_tif value =
    let upper = to_ascii_uppercase value in
    if upper == codes "GTC"
    then ok gtc
    else if upper == codes "IOC"
    then ok ioc
    else if upper == codes "FOK"
    then ok fok
    else if upper == codes "GTX"
    then ok gtx
    else err (invalid_time_in_force upper)

unfoldable pub position_side_str : PositionSide → Text
position_side_str long = codes "LONG"
position_side_str short = codes "SHORT"
position_side_str both = codes "BOTH"

unfoldable pub parse_position_side : Text → Result PositionSide OrderBuilderError
parse_position_side value =
    let upper = to_ascii_uppercase value in
    if upper == codes "LONG"
    then ok long
    else if upper == codes "SHORT"
    then ok short
    else if upper == codes "BOTH"
    then ok both
    else err (invalid_position_side upper)

-- `PlaceOrderRequest::market`
unfoldable pub market_request : Text → OrderSide → Text → PlaceOrderRequest
market_request symbol side quantity = record {
  symbol = to_ascii_uppercase symbol;
  side = side;
  order_type = market;
  quantity = quantity;
  price = none;
  time_in_force = none;
  position_side = none;
  new_client_order_id = none;
}

-- `PlaceOrderRequest::limit`
unfoldable limit_request : Text → OrderSide → Text → Text → TimeInForce → PlaceOrderRequest
limit_request symbol side quantity price tif = record {
  symbol = to_ascii_uppercase symbol;
  side = side;
  order_type = limit;
  quantity = quantity;
  price = some price;
  time_in_force = some tif;
  position_side = none;
  new_client_order_id = none;
}

unfoldable with_position_side : PlaceOrderRequest → PositionSide → PlaceOrderRequest
with_position_side r side = record r { position_side = some side }

abbrev pub tif_or_gtc : Option TimeInForce → TimeInForce
tif_or_gtc none = gtc
tif_or_gtc (some tif) = tif

abbrev pub position_side_or_both : Option PositionSide → PositionSide
position_side_or_both none = both
position_side_or_both (some side) = side

-- The inserts before the `match` on the order type.
unfoldable pub base_params : PlaceOrderRequest → BTreeMap
unfolding side_str type_str position_side_str
base_params r =
    put (codes "positionSide") (position_side_str (position_side_or_both r.position_side)) (
      put (codes "quantity") r.quantity (
        put (codes "type") (type_str r.order_type) (
          put (codes "side") (side_str r.side)
            (put (codes "symbol") (to_ascii_uppercase r.symbol) []))))

-- The `match` on the order type.
unfoldable pub price_params :
    OrderType → Option Text → Option TimeInForce → BTreeMap → Result BTreeMap OrderBuilderError
unfolding tif_str
price_params market none tif m = ok m
price_params market (some p) tif m = err market_with_price
price_params limit none tif m = err limit_requires_price
price_params limit (some p) tif m =
    ok (put (codes "timeInForce") (tif_str (tif_or_gtc tif)) (put (codes "price") p m))

unfoldable pub client_id_params : Option Text → BTreeMap → BTreeMap
client_id_params none m = m
client_id_params (some id) m = put (codes "newClientOrderId") id m

unfoldable pub build_order_params : PlaceOrderRequest → Result BTreeMap OrderBuilderError
unfolding base_params price_params client_id_params
build_order_params r = do
  params ← price_params r.order_type r.price r.time_in_force (base_params r)
  ok (client_id_params r.new_client_order_id params)

abbrev key_value : Text × Text → Text
key_value (k, v) = k ++ (codes "=" ++ v)

unfoldable pub signed_params_payload : BTreeMap → Text
signed_params_payload params = join (codes "&") (map key_value params)

-- `sign secret payload` is the HMAC in hexadecimal, `now` the time in milliseconds.
module _ (sign : Text → Text → Text) (now : ℕ) where
  unfoldable pub build_signed_form_params :
      Text → PlaceOrderRequest → Result BTreeMap OrderBuilderError
  build_signed_form_params secret_key request = do
    params ← build_order_params request
    let stamped = put (codes "timestamp") (to_string now) params
    ok (put (codes "signature") (sign secret_key (signed_params_payload stamped)) stamped)
