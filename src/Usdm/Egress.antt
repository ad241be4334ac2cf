-- ===== src/Usdm/Egress.antt =====
-- crates/binance-usdm-exec/src/egress.rs: commands of a strategy as orders.
pub mod Queue
use trolly.Prelude.{
  Text, codes, to_ascii_uppercase, Bool, Option, none, some, List, [], ◌∷◌, ◌++◌, ℕ, Result, ok,
  err, ◌>>=◌, map_err, if◌then◌else◌,
}
use trolly.Strategy.Egress.{OrderRequest, OutboundMessage, order, subscribe, raw, StreamEgress}
use trolly.Exec.Http.{HttpResponse, TransportError}
use trolly.Usdm.Client.{PlaceOrderError, Decoders, UsdmOrderClient, Post}
use trolly.Usdm.Client
use trolly.Usdm.Order.{
  OrderType, market, limit, OrderBuilderError, PlaceOrderRequest, parse_side, parse_tif,
  parse_position_side,
}

pub data EgressError : Type 0 where
  builder : OrderBuilderError → EgressError
  unsupported : Text → EgressError
  channel_closed : EgressError
  place_order : PlaceOrderError → EgressError

abbrev pub type_of : Option Text → OrderType
type_of none = market
type_of (some p) = limit

-- `option.map(parse).transpose()?`
abbrev pub transpose {ℓ} :
    {A : Type ℓ} → (Text → Result A OrderBuilderError) → Option Text → Result (Option A) EgressError
transpose parse none = ok none
transpose parse (some t) = do a ← map_err builder (parse t); ok (some a)

unfoldable pub place_order_from_request : OrderRequest → Result PlaceOrderRequest EgressError
place_order_from_request o = do
  side ← map_err builder (parse_side o.side)
  time_in_force ← transpose parse_tif o.time_in_force
  position_side ← transpose parse_position_side o.position_side
  ok (record {
    symbol = to_ascii_uppercase o.symbol;
    side = side;
    order_type = type_of o.price;
    quantity = o.qty;
    price = o.price;
    time_in_force = time_in_force;
    position_side = position_side;
    new_client_order_id = none;
  })

module _ {M : Type 0} where
  unfoldable pub place_order_from_outbound :
      OutboundMessage M → Result PlaceOrderRequest EgressError
  unfolding place_order_from_request
  place_order_from_outbound (order o) = place_order_from_request o
  place_order_from_outbound (subscribe symbol channel) = err (unsupported (codes "subscribe"))
  place_order_from_outbound (raw m) = err (unsupported (codes "raw"))

-- The queue of `UsdmOrderEgress`: what was sent, and whether the receiver is still there.
pub record OrderQueue : Type 0 where
  pub receiver_alive : Bool
  pub queued : List PlaceOrderRequest

unfoldable pub enqueue : OrderQueue → PlaceOrderRequest → OrderQueue × Result (Unit {0}) EgressError
enqueue q r =
    if q.receiver_alive
    then (record q { queued = q.queued ++ r ∷ [] }, ok tt)
    else (q, err channel_closed)

module _ (M : Type 0) where
  unfoldable pub dispatch :
      OrderQueue → OutboundMessage M → OrderQueue × Result (Unit {0}) EgressError
  unfolding place_order_from_outbound enqueue
  dispatch q m = elim (place_order_from_outbound m) [ err e ↦ (q, err e) | ok r ↦ enqueue q r ]

  abbrev pub usdm_order_egress : StreamEgress M
  usdm_order_egress = record { Egress = OrderQueue; Error = EgressError; dispatch = dispatch }

-- `UsdmOrderEgressDirect`, which places the order within the dispatch.
module _ (M : Type 0) {S : Type 0} (post_form : S → Post → S × Result HttpResponse TransportError)
    (d : Decoders) (sign : Text → Text → Text) (now : S → ℕ) (client : UsdmOrderClient) where
  unfoldable dispatch_direct : S → OutboundMessage M → S × Result (Unit {0}) EgressError
  unfolding place_order_from_outbound Client.place_order
  dispatch_direct s m = elim (place_order_from_outbound m) [
    | err e ↦ (s, err e)
    | ok request ↦
        let (s', r) = Client.place_order post_form d sign now client s request in
        elim r [ ok _ ↦ (s', ok tt) | err e ↦ (s', err (place_order e)) ]
  ]
