-- ===== src/Usdm/Egress/Queue.antt =====
-- What the egress accepts, and what its queue holds.
use trolly.Prelude.{
  to_ascii_uppercase, List, [], ◌∷◌, ◌++◌, append_assoc, append-nil, ◌≡◌, sym, ap, ◌∙◌, ok,
  >>=-eq-ok, map_err, BTreeMap, Frames, arith, inl, inr, Result-cases,
}
use trolly.Strategy.Egress.{OrderRequest, OutboundMessage, order, subscribe, raw, Strategy}
use trolly.Strategy.Runtime.{EventFormat, dispatch_all}
use trolly.Usdm.Order.{
  PlaceOrderRequest, build_order_params, price_params, parse_side, parse_tif, parse_position_side,
}
use trolly.Usdm.Fanout.{Decodes, done, row}
use trolly.Usdm.Egress.{
  builder, type_of, transpose, place_order_from_request, place_order_from_outbound, OrderQueue,
  enqueue, dispatch, usdm_order_egress,
}

-- The request takes the order's symbol in upper case, its quantity and its price, and is a limit
-- order exactly when there is a price.
pub place_order_from_request-fields :
    (o : OrderRequest) (r : PlaceOrderRequest)
    → place_order_from_request o ≡ ok r
    → (r.symbol ≡ to_ascii_uppercase o.symbol)
      × (r.quantity ≡ o.qty)
      × (r.price ≡ o.price)
      × (r.order_type ≡ type_of o.price)
unfolding place_order_from_request
place_order_from_request-fields o r e =
    let (side, s, e1) = >>=-eq-ok (map_err builder (parse_side o.side)) _ e in
    let (tif, t, e2) = >>=-eq-ok (transpose parse_tif o.time_in_force) _ e1 in
    let (ps, p, e3) = >>=-eq-ok (transpose parse_position_side o.position_side) _ e2 in ground arith

builds :
    (r : PlaceOrderRequest)
    → r.order_type ≡ type_of r.price
    → (ps : BTreeMap) × (build_order_params r ≡ ok ps)
unfolding build_order_params price_params
builds r e = elim (Result-cases (build_order_params r)) [
  | inl (ps, b) ↦ (ps, b)
  | inr (x, b) ↦ absurd (ground arith)
]

-- A command that the egress accepts becomes a request that the order builder accepts: it is never
-- refused for its price.
pub place_order_from_outbound-builds :
    {M : Type 0} (m : OutboundMessage M) (r : PlaceOrderRequest)
    → place_order_from_outbound m ≡ ok r
    → (ps : BTreeMap) × (build_order_params r ≡ ok ps)
unfolding place_order_from_outbound
place_order_from_outbound-builds (order o) r e =
    let f = place_order_from_request-fields o r e in builds r (f.3 ∙ ap type_of (sym f.2))
place_order_from_outbound-builds (subscribe s c) r e = cc
place_order_from_outbound-builds (raw m) r e = cc

module _ (ws : Frames) (format : EventFormat) (st : Strategy ws.Message) where
  -- A dispatch that succeeds sent the command's request.
  dispatch-eq-ok :
      (q q' : OrderQueue) (c : OutboundMessage ws.Message)
      → dispatch ws.Message q c ≡ (q', ok tt)
      → (r : PlaceOrderRequest) × (place_order_from_outbound c ≡ ok r)
        × (q'.queued ≡ q.queued ++ r ∷ [])
  unfolding dispatch enqueue
  dispatch-eq-ok q q' c e = elim (Result-cases (place_order_from_outbound c)) [
    | inl (r, p) ↦ (r, p, ground arith)
    | inr (x, p) ↦ absurd (ground arith)
  ]

  dispatch_all_cons :
      (q q' : OrderQueue) (c : OutboundMessage ws.Message) (cs : List (OutboundMessage ws.Message))
      → dispatch_all ws format st (usdm_order_egress ws.Message) q (c ∷ cs) ≡ (q', ok tt)
      → (q1 : OrderQueue) × (dispatch ws.Message q c ≡ (q1, ok tt))
        × (dispatch_all ws format st (usdm_order_egress ws.Message) q1 cs ≡ (q', ok tt))
  unfolding dispatch_all
  dispatch_all_cons q q' c cs e = ((dispatch ws.Message q c).0, ground arith, ground arith)

  -- When all commands of an event are dispatched, each became a request, and the requests stand at
  -- the end of the queue in the order of the commands.
  pub dispatch_all-queued :
      (q q' : OrderQueue) (cs : List (OutboundMessage ws.Message))
      → dispatch_all ws format st (usdm_order_egress ws.Message) q cs ≡ (q', ok tt)
      → (rs : List PlaceOrderRequest) × Decodes place_order_from_outbound cs rs
        × (q'.queued ≡ q.queued ++ rs)
  unfolding dispatch_all
  dispatch_all-queued q q' [] e = ([], done, ground (arith, append-nil q.queued))
  dispatch_all-queued q q' (c ∷ cs) e =
      let (q1, sent, rest) = dispatch_all_cons q q' c cs e in
      let (r, made, at_end) = dispatch-eq-ok q q1 c sent in
      let (rs, ds, eq) = dispatch_all-queued q1 q' cs rest in
      (r ∷ rs, row made ds, eq ∙ (rw at_end (append_assoc q.queued (r ∷ []) rs)))
