-- ===== src/Cli.antt =====
-- src/cli/mod.rs: the order of `execute place-order`.
use trolly.Prelude.{ℕ, Text, Option, none, some, Result, ◌≡◌, refl, ok, BTreeMap}
use trolly.Exec.Http.{HttpResponse, TransportError}
use trolly.Spot.Order.{
  OrderSide, TimeInForce, PlaceOrderRequest, market_request, limit_request, build_order_params,
  price_params,
}
use trolly.Spot.Client.{
  Decoders, Post, PlaceOrderResponse, PlaceOrderError, new_client, place_order,
}

pub data CliOrderSide : Type 0 where
  buy sell : CliOrderSide

pub data CliTimeInForce : Type 0 where
  gtc ioc fok : CliTimeInForce

pub record PlaceOrderArgs : Type 0 where
  pub symbol : Text
  pub side : CliOrderSide
  pub qty : Text
  pub price : Option Text
  pub time_in_force : CliTimeInForce
  pub api_key : Text
  pub secret_key : Text

abbrev order_side : CliOrderSide → OrderSide
order_side buy = OrderSide.buy
order_side sell = OrderSide.sell

abbrev order_tif : CliTimeInForce → TimeInForce
order_tif gtc = TimeInForce.gtc
order_tif ioc = TimeInForce.ioc
order_tif fok = TimeInForce.fok

abbrev request_of : PlaceOrderArgs → PlaceOrderRequest
request_of args = elim args.price [
  | some price ↦
      limit_request args.symbol (order_side args.side) args.qty price (order_tif args.time_in_force)
  | none ↦ market_request args.symbol (order_side args.side) args.qty
]

-- What `run` does up to the printing of the outcome.
module _ {S : Type 0} (post_form : S → Post → S × Result HttpResponse TransportError) (d : Decoders)
    (sign : Text → Text → Text) (now : S → ℕ) where
  unfoldable run_place_order : PlaceOrderArgs → S → S × Result PlaceOrderResponse PlaceOrderError
  unfolding place_order limit_request market_request new_client
  run_place_order args s =
      place_order post_form d sign now
        (new_client (record { api_key = args.api_key; secret_key = args.secret_key })) s
        (request_of args)

-- The order builder accepts the order of any arguments.
request_of-built :
    (args : PlaceOrderArgs) → (ps : BTreeMap) × (build_order_params (request_of args) ≡ ok ps)
unfolding build_order_params price_params limit_request market_request
request_of-built args = built args.price
  where
    built :
        (p : Option Text)
        → (ps : BTreeMap) × (build_order_params (request_of (record args { price = p })) ≡ ok ps)
    built none = (_, refl)
    built (some price) = (_, refl)
