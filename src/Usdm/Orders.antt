-- ===== src/Usdm/Orders.antt =====
-- The open orders of a symbol against the last report of each order.
use trolly.Prelude.{
  ℤ, Text, text_Eq, text_eq_iff, int_Eq, ◌≡◌, ◌≢◌, refl, true, false, ◌&&◌, Option, none, some,
  lookup, insert, lookup-insert, lookup-remove, if◌then◌else◌, ◌==◌, Floats, arith, Bool-cases, inl,
  inr, List, [], ◌∷◌, HashMap,
}
use trolly.Usdm.Types.{
  OrderTradeUpdate, UsdmExecUpdate, order_trade, balance_change, position_change,
  listen_key_expired, margin_call, routing_id, account_routing_id, SymbolBookkeeping,
}
use trolly.Usdm.Account.{apply_symbol_position}
use trolly.Usdm.Handler.{
  UsdmExecHandler, UsdmExecContext, Sender, apply, forward, apply_order, is_open, new_handler,
}
use trolly.Usdm.Ingress.{UsdmHub, build_multiplexor, insert_handlers, route_update, route_all}
use trolly.Usdm.Forwarding.{contains, route_update-lookup_ne}

-- The last report of order `id` on symbol `s`, if one came after `r`.
abbrev report_after : Text → ℤ → Option OrderTradeUpdate → UsdmExecUpdate → Option OrderTradeUpdate
report_after s id r (order_trade o) = if o.symbol == s && o.order_id == id then some o else r
report_after s id r (balance_change b) = r
report_after s id r (position_change p) = r
report_after s id r listen_key_expired = r
report_after s id r (margin_call m) = r

abbrev pub last_report :
    Text → ℤ → Option OrderTradeUpdate → List UsdmExecUpdate → Option OrderTradeUpdate
last_report s id r [] = r
last_report s id r (u ∷ us) = last_report s id (report_after s id r u) us

-- The order that a last report leaves open: its status is NEW or PARTIALLY_FILLED.
abbrev left_open : Option OrderTradeUpdate → Option OrderTradeUpdate
left_open none = none
left_open (some o) = if is_open o then some o else none

-- The hub has a symbol handler for `s`, and the order stands as its last report left it.
abbrev pub HasBook : Text → ℤ → Option OrderTradeUpdate → UsdmHub → Type 0
HasBook s id r hub =
    (h : UsdmExecHandler) × (lookup s hub.writers ≡ some h)
    × (h.account_events_only ≡ false)
    × (lookup id h.state.open_orders ≡ left_open r)

lookup-apply_order :
    (id : ℤ) (b : SymbolBookkeeping) (o : OrderTradeUpdate)
    → lookup id (apply_order b o).open_orders
      ≡ (if o.order_id == id then left_open (some o) else lookup id b.open_orders)
unfolding apply_order
lookup-apply_order id b o =
    ground (
      arith,
      lookup-insert id o.order_id o b.open_orders,
      lookup-remove id o.order_id b.open_orders,
    )

module _ (fl : Floats) where
  apply-open_orders :
      (s : Text) (id : ℤ) (r : Option OrderTradeUpdate) (h : UsdmExecHandler) (c : UsdmExecContext)
      (u : UsdmExecUpdate)
      → routing_id u ≡ s
      → h.account_events_only ≡ false
      → lookup id h.state.open_orders ≡ left_open r
      → let h' = (apply fl h c u).0 in
        (h'.account_events_only ≡ false)
        × (lookup id h'.state.open_orders ≡ left_open (report_after s id r u))
  unfolding apply forward routing_id apply_symbol_position
  apply-open_orders s id r h c (order_trade o) n a e =
      ground (arith, lookup-apply_order id h.state o, text_eq_iff o.symbol s)
  apply-open_orders s id r h c (position_change p) n a e = ground arith
  apply-open_orders s id r h c (balance_change b) n a e = ground arith
  apply-open_orders s id r h c (margin_call m) n a e = ground arith
  apply-open_orders s id r h c listen_key_expired n a e = ground arith

  report_after_ne :
      (s : Text) (id : ℤ) (r : Option OrderTradeUpdate) (u : UsdmExecUpdate)
      → s ≢ routing_id u
      → report_after s id r u ≡ r
  unfolding routing_id
  report_after_ne s id r (order_trade o) n = ground (arith, text_eq_iff o.symbol s)
  report_after_ne s id r (position_change p) n = refl
  report_after_ne s id r (balance_change b) n = refl
  report_after_ne s id r (margin_call m) n = refl
  report_after_ne s id r listen_key_expired n = refl

  route_update-HasBook :
      (s : Text) (id : ℤ) (r : Option OrderTradeUpdate) (hub : UsdmHub) (u : UsdmExecUpdate)
      → HasBook s id r hub
      → HasBook s id (report_after s id r u) (route_update fl hub u)
  unfolding route_update
  route_update-HasBook s id r hub u (h, found, flag, book) = elim (Bool-cases (routing_id u == s)) [
    | inl here ↦
        let e = (text_eq_iff (routing_id u) s).0 here in
        let next = apply-open_orders s id r h hub.ctx u e flag book in
        (
          (apply fl h hub.ctx u).0,
          ground (
            arith,
            e,
            here,
            found,
            lookup-insert s (routing_id u) (apply fl h hub.ctx u).0 hub.writers,
          ),
          next.0,
          next.1,
        )
    | inr away ↦
        let n : s ≢ routing_id u = ground (arith, text_eq_iff (routing_id u) s) in
        (
          h,
          rw (route_update-lookup_ne fl hub u s n) found,
          flag,
          rw (report_after_ne s id r u n) book,
        )
  ]

  route_all-HasBook :
      (s : Text) (id : ℤ) (r : Option OrderTradeUpdate) (hub : UsdmHub) (us : List UsdmExecUpdate)
      → HasBook s id r hub
      → HasBook s id (last_report s id r us) (route_all fl hub us)
  unfolding route_all
  route_all-HasBook s id r hub [] b = b
  route_all-HasBook s id r hub (u ∷ us) b =
      route_all-HasBook s id (report_after s id r u) (route_update fl hub u) us
        (route_update-HasBook s id r hub u b)

lookup-insert_handlers :
    (ss : List Text) (m : HashMap Text UsdmExecHandler) (s : Text)
    → lookup s (insert_handlers ss m) ≡ (if contains ss s then some (new_handler s) else lookup s m)
unfolding insert_handlers
lookup-insert_handlers [] m s = refl
lookup-insert_handlers (t ∷ ss) m s = ground (
  arith,
  lookup-insert_handlers ss (insert t (new_handler t) m) s,
  lookup-insert s t (new_handler t) m,
  text_eq_iff t s,
)

lookup-build_multiplexor :
    (symbols : List Text) (outbound : Option Sender) (s : Text)
    → contains symbols s ≡ true
    → s ≢ account_routing_id
    → lookup s (build_multiplexor symbols outbound).writers ≡ some (new_handler s)
unfolding build_multiplexor
lookup-build_multiplexor symbols outbound s k n = ground (
  arith,
  lookup-insert s account_routing_id (new_handler account_routing_id) (insert_handlers symbols []),
  lookup-insert_handlers symbols [] s,
  text_eq_iff account_routing_id s,
)

module _ (fl : Floats) where
  -- For a subscribed symbol and any order id, after any history the handler of the symbol holds the
  -- order exactly when the last report of it has the status NEW or PARTIALLY_FILLED, and then it
  -- holds that report.
  pub open_orders-build_multiplexor :
      (symbols : List Text) (outbound : Option Sender) (us : List UsdmExecUpdate) (s : Text)
      (id : ℤ)
      → contains symbols s ≡ true
      → s ≢ account_routing_id
      → HasBook s id
          (last_report s id none us)
          (route_all fl (build_multiplexor symbols outbound) us)
  open_orders-build_multiplexor symbols outbound us s id k n =
      route_all-HasBook fl s id none (build_multiplexor symbols outbound) us (
        new_handler s,
        lookup-build_multiplexor symbols outbound s k n,
        flag,
        unfold new_handler lookup in refl,
      )
    where
      flag : (new_handler s).account_events_only ≡ false
      flag = unfold new_handler in ground (arith, text_eq_iff s account_routing_id)
