-- ===== src/Spot/Egress/Placing.antt =====
-- What the egress accepts can be placed, and is.
use trolly.Prelude.{
  ℕ, Text, List, ◌∷◌, ◌≡◌, ◌∙◌, sym, ap, Result, ok, >>=-eq-ok, map_err, BTreeMap,
  to_ascii_uppercase, arith, inl, inr, Result-cases,
}
use trolly.Strategy.Egress.{OrderRequest, OutboundMessage, order, subscribe, raw}
use trolly.Exec.Http.{HttpResponse, TransportError}
use trolly.Exec.Draining.{Places, idle, placed, drain-Places}
use trolly.Usdm.Fanout.{Decodes, done, row}
use trolly.Spot.Client.{PlaceOrderResponse, PlaceOrderError, Decoders, SpotOrderClient, Post}
use trolly.Spot.Client
use trolly.Spot.Order.{
  PlaceOrderRequest, build_order_params, build_signed_form_params, price_params, parse_side,
  parse_tif,
}
use trolly.Spot.Egress.{
  builder, type_of, transpose, place_order_from_request, place_order_from_outbound,
}

-- The request takes the order's symbol in upper case, its side, its quantity and its price, and is
-- a limit order exactly when there is a price. A position side is ignored.
pub place_order_from_request-kept :
    (o : OrderRequest) (r : PlaceOrderRequest)
    → place_order_from_request o ≡ ok r
    → (r.symbol ≡ to_ascii_uppercase o.symbol)
      × (parse_side o.side ≡ ok r.side)
      × (r.quantity ≡ o.qty)
      × (r.price ≡ o.price)
      × (r.order_type ≡ type_of o.price)
unfolding place_order_from_request
place_order_from_request-kept o r e =
    let (side, s, e1) = >>=-eq-ok (map_err builder (parse_side o.side)) _ e in
    let (tif, t, e2) = >>=-eq-ok (transpose parse_tif o.time_in_force) _ e1 in ground arith

limit_or_market_builds :
    (r : PlaceOrderRequest)
    → r.order_type ≡ type_of r.price
    → (ps : BTreeMap) × (build_order_params r ≡ ok ps)
unfolding build_order_params price_params
limit_or_market_builds r e = elim (Result-cases (build_order_params r)) [
  | inl (ps, b) ↦ (ps, b)
  | inr (x, b) ↦ absurd (ground arith)
]

-- A command that the egress accepts becomes a request that the order builder accepts.
pub place_order_from_outbound-placeable :
    {M : Type 0} (m : OutboundMessage M) (r : PlaceOrderRequest)
    → place_order_from_outbound m ≡ ok r
    → (ps : BTreeMap) × (build_order_params r ≡ ok ps)
unfolding place_order_from_outbound
place_order_from_outbound-placeable (order o) r e =
    let f = place_order_from_request-kept o r e in
    limit_or_market_builds r (f.4 ∙ ap type_of (sym f.3))
place_order_from_outbound-placeable (subscribe s c) r e = cc
place_order_from_outbound-placeable (raw m) r e = cc

module _ {S : Type 0} (post_form : S → Post → S × Result HttpResponse TransportError) (d : Decoders)
    (sign : Text → Text → Text) (now : S → ℕ) (c : SpotOrderClient) where
  -- The venue accepts what is posted: it answers with the status 200 and a body that can be read.
  abbrev pub Accepting : Type 0
  Accepting =
      (s : S) (p : Post)
      → (s' : S) × (r : HttpResponse) × (a : PlaceOrderResponse) × (post_form s p ≡ (s', ok r))
        × (r.status ≡ 200)
        × (d.response r.body ≡ ok a)

  place_order-accepted :
      Accepting
      → (s : S) (r : PlaceOrderRequest) (ps : BTreeMap) → build_order_params r ≡ ok ps
      → (s' : S) × (a : PlaceOrderResponse) × (Client.place_order post_form d sign now c s r
          ≡ (s', ok a))
  unfolding Client.place_order Client.order_post Client.parse_place_order_response
      build_signed_form_params
  place_order-accepted accepting s r ps e =
      let signed = build_signed_form_params sign (now s) c.credentials.secret_key r in
      elim (Result-cases signed) [
        | inl (params, q) ↦
            let (s', answer, a, posted, status, body) =
              accepting s (Client.order_post post_form d sign now c params) in
            (s', a, ground arith)
        | inr (x, q) ↦ absurd (ground arith)
      ]

  accepted-Places :
      {M : Type 0} (s : S) (commands : List (OutboundMessage M)) (queue : List PlaceOrderRequest)
      → Accepting
      → Decodes place_order_from_outbound commands queue
      → (s' : S) × Places (Client.place_order post_form d sign now c) s queue s'
  accepted-Places s commands queue accepting done = (s, idle)
  accepted-Places s (m ∷ ms) (r ∷ rs) accepting (row made ds) =
      let (ps, built) = place_order_from_outbound-placeable m r made in
      let (t, a, p) = place_order-accepted accepting s r ps built in
      let (u, places) = accepted-Places t ms rs accepting ds in (u, placed a p places)

  -- Commands that the egress accepts, at a venue that accepts what is posted: all are placed, in
  -- their order, and the executor succeeds.
  pub run_order_executor-accepted :
      {M : Type 0} (s : S) (commands : List (OutboundMessage M)) (queue : List PlaceOrderRequest)
      → Accepting
      → Decodes place_order_from_outbound commands queue
      → (s' : S) × (Client.run_order_executor post_form d sign now c s queue ≡ (s', ok tt))
        × Places (Client.place_order post_form d sign now c) s queue s'
  unfolding Client.run_order_executor
  run_order_executor-accepted s commands queue accepting ds =
      let (t, places) = accepted-Places s commands queue accepting ds in
      (t, drain-Places (Client.place_order post_form d sign now c) places, places)
