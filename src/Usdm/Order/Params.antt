-- ===== src/Usdm/Order/Params.antt =====
-- What the parameters of an order hold, and what its signature covers.
use trolly.Prelude.{
  ℕ, Text, text_eq, text_Eq, text_eq_iff, codes, to_ascii_uppercase, to_string, Option, none, some,
  ◌≡◌, ◌≢◌, ◌↔◌, ◌⊎◌, ◌∙◌, ok, err, >>=-eq-ok, lookup, remove, lookup-put, remove-put,
  if◌then◌else◌, ◌==◌, BTreeMap, put, arith,
}
use trolly.Usdm.Order.{
  OrderBuilderError, market_with_price, limit_requires_price, OrderType, market, limit, TimeInForce,
  tif_str, tif_or_gtc, PlaceOrderRequest, side_str, type_str, position_side_str,
  position_side_or_both, base_params, price_params, client_id_params, build_order_params,
  signed_params_payload, build_signed_form_params,
}

-- The price and the time in force that an order of a type carries.
abbrev price_of : OrderType → Option Text → Option Text
price_of market p = none
price_of limit p = p

abbrev tif_of : OrderType → Option TimeInForce → Option Text
tif_of market tif = none
tif_of limit tif = some (tif_str (tif_or_gtc tif))

-- The value of each parameter of an order.
abbrev pub param_of : PlaceOrderRequest → Text → Option Text
param_of r k =
    if codes "newClientOrderId" == k
    then r.new_client_order_id
    else if codes "timeInForce" == k
    then tif_of r.order_type r.time_in_force
    else if codes "price" == k
    then price_of r.order_type r.price
    else if codes "positionSide" == k
    then some (position_side_str (position_side_or_both r.position_side))
    else if codes "quantity" == k
    then some r.quantity
    else if codes "type" == k
    then some (type_str r.order_type)
    else if codes "side" == k
    then some (side_str r.side)
    else if codes "symbol" == k
    then some (to_ascii_uppercase r.symbol)
    else none

lookup-base_params :
    (r : PlaceOrderRequest) (k : Text)
    → lookup k (base_params r) ≡ (
        if codes "positionSide" == k
        then some (position_side_str (position_side_or_both r.position_side))
        else if codes "quantity" == k
        then some r.quantity
        else if codes "type" == k
        then some (type_str r.order_type)
        else if codes "side" == k
        then some (side_str r.side)
        else if codes "symbol" == k
        then some (to_ascii_uppercase r.symbol)
        else none)
unfolding base_params lookup
lookup-base_params r k = simp lookup-put

lookup-base_params_price : (r : PlaceOrderRequest) → lookup (codes "price") (base_params r) ≡ none
unfolding text_eq
lookup-base_params_price r = lookup-base_params r (codes "price")

lookup-base_params_tif :
    (r : PlaceOrderRequest) → lookup (codes "timeInForce") (base_params r) ≡ none
unfolding text_eq
lookup-base_params_tif r = lookup-base_params r (codes "timeInForce")

lookup-price_params :
    (t : OrderType) (p : Option Text) (tif : Option TimeInForce) (m ps : BTreeMap) (k : Text)
    → lookup (codes "price") m ≡ none
    → lookup (codes "timeInForce") m ≡ none
    → price_params t p tif m ≡ ok ps
    → lookup k ps ≡ (
        if codes "timeInForce" == k
        then tif_of t tif
        else if codes "price" == k
        then price_of t p
        else lookup k m)
unfolding price_params
lookup-price_params market none tif m ps k np nt e =
    ground (arith, text_eq_iff (codes "timeInForce") k, text_eq_iff (codes "price") k)
lookup-price_params market (some p) tif m ps k np nt e = cc
lookup-price_params limit none tif m ps k np nt e = cc
lookup-price_params limit (some p) tif m ps k np nt e = ground (
  arith,
  lookup-put k (codes "timeInForce") (tif_str (tif_or_gtc tif)) (put (codes "price") p m),
  lookup-put k (codes "price") p m,
)

lookup-client_id_params :
    (id : Option Text) (m : BTreeMap) (k : Text)
    → lookup (codes "newClientOrderId") m ≡ none
    → lookup k (client_id_params id m) ≡ (if codes "newClientOrderId" == k then id else lookup k m)
unfolding client_id_params
lookup-client_id_params none m k n = ground (arith, text_eq_iff (codes "newClientOrderId") k)
lookup-client_id_params (some id) m k n = lookup-put k (codes "newClientOrderId") id m

lookup-price_params_id :
    (r : PlaceOrderRequest) (m : BTreeMap)
    → price_params r.order_type r.price r.time_in_force (base_params r) ≡ ok m
    → lookup (codes "newClientOrderId") m ≡ none
unfolding text_eq
lookup-price_params_id r m e =
    lookup-price_params r.order_type r.price r.time_in_force (base_params r) m
      (codes "newClientOrderId") (lookup-base_params_price r) (lookup-base_params_tif r) e
    ∙ lookup-base_params r (codes "newClientOrderId")

-- An order that is built has exactly the parameters that `param_of` gives it: the time in force
-- (GTC if the request names none) and the price only for a limit order.
pub lookup-build_order_params :
    (r : PlaceOrderRequest) (ps : BTreeMap)
    → build_order_params r ≡ ok ps
    → (k : Text) → lookup k ps ≡ param_of r k
unfolding build_order_params
lookup-build_order_params r ps e k =
    let (m, priced, done) =
      >>=-eq-ok (price_params r.order_type r.price r.time_in_force (base_params r)) _ e in
    let built : client_id_params r.new_client_order_id m ≡ ps = cc in
    rw (← built) (
      lookup-client_id_params r.new_client_order_id m k (lookup-price_params_id r m priced)
      ∙ rw
          (lookup-price_params r.order_type r.price r.time_in_force (base_params r) m k
            (lookup-base_params_price r) (lookup-base_params_tif r) priced)
          (rw (lookup-base_params r k)))

-- An order is refused exactly when it is a market order with a price, or a limit order without.
pub build_order_params_err :
    (r : PlaceOrderRequest) (x : OrderBuilderError)
    → (build_order_params r ≡ err x) ↔ (
        ((r.order_type ≡ market) × (r.price ≢ none) × (x ≡ market_with_price))
        ⊎ ((r.order_type ≡ limit) × (r.price ≡ none) × (x ≡ limit_requires_price)))
unfolding build_order_params price_params
build_order_params_err r x = ground arith

module _ (sign : Text → Text → Text) (now : ℕ) where
  -- A signed order carries the time, and its signature is that of the payload of all its other
  -- parameters.
  pub build_signed_form_params-signature :
      (secret : Text) (r : PlaceOrderRequest) (ps : BTreeMap)
      → build_signed_form_params sign now secret r ≡ ok ps
      → (lookup (codes "timestamp") ps ≡ some (to_string now))
        × (lookup (codes "signature") ps
            ≡ some (sign secret (signed_params_payload (remove (codes "signature") ps))))
  unfolding build_signed_form_params text_eq
  build_signed_form_params-signature secret r ps e =
      let (m, built, done) = >>=-eq-ok (build_order_params r) _ e in
      let stamped = put (codes "timestamp") (to_string now) m in
      let unsigned : lookup (codes "signature") stamped ≡ none =
        lookup-put (codes "signature") (codes "timestamp") (to_string now) m
        ∙ lookup-build_order_params r m built (codes "signature") in
      let signature = sign secret (signed_params_payload stamped) in
      let same : put (codes "signature") signature stamped ≡ ps = cc in
      rw (← same) (
        lookup-put (codes "timestamp") (codes "signature") signature stamped
            ∙ lookup-put (codes "timestamp") (codes "timestamp") (to_string now) m,
        lookup-put (codes "signature") (codes "signature") signature stamped
            ∙ rw (remove-put (codes "signature") signature stamped unsigned),
      )
