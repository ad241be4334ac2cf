-- ===== src/Gym/Env/Orders.antt =====
-- The environment over the queue of USD-M orders.
use trolly.Prelude.{
  text_eq, codes, to_ascii_uppercase, upper_code, ◌<◌, true, Option, none, some, List, [], ◌∷◌,
  ◌++◌, map, Result, ok, err, ◌≡◌, refl, sym, ap, ◌∙◌, append_assoc, append-nil, Arithmetic, Frames,
}
use trolly.Usdm.Order.{OrderSide, market, PlaceOrderRequest, parse_side}
use trolly.Usdm.Egress.{
  EgressError, unsupported, OrderQueue, enqueue, dispatch, usdm_order_egress,
  place_order_from_request, place_order_from_outbound,
}
use trolly.Gym.Action.{Action, hold, buy, sell, dispatch_action}
use trolly.Gym.Ring.{new, push_all}
use trolly.Gym.Ring.History.{push_more}
use trolly.Gym.Replay.{Transition}
use trolly.Gym.Env.{EnvConfig, Env, StepResult, new_env, step, observe}
use trolly.Gym.Env.Episodes.{stepped, sent_to, result_of, acted, step-recorded}

module _ (f32 : Arithmetic) (ws : Frames) (config : EnvConfig) where
  abbrev pub Ordering : Type 0
  Ordering = Env f32 ws (usdm_order_egress ws.Message)

  abbrev pub order_at : EnvConfig → OrderSide → PlaceOrderRequest
  order_at c side = record {
    symbol = to_ascii_uppercase c.symbol;
    side = side;
    order_type = market;
    quantity = c.default_qty;
    price = none;
    time_in_force = none;
    position_side = none;
    new_client_order_id = none;
  }

  abbrev pub market_order : OrderSide → PlaceOrderRequest
  market_order = order_at config

  -- The orders that a list of actions stands for.
  abbrev pub orders_of : List Action → List PlaceOrderRequest
  orders_of [] = []
  orders_of (hold ∷ actions) = orders_of actions
  orders_of (buy ∷ actions) = market_order OrderSide.buy ∷ orders_of actions
  orders_of (sell ∷ actions) = market_order OrderSide.sell ∷ orders_of actions

  abbrev pub Outcome : Type 0
  Outcome = Result (Unit {0}) EgressError

  abbrev pub outcome_of : Action → Outcome
  outcome_of hold = err (unsupported (codes "subscribe"))
  outcome_of buy = ok tt
  outcome_of sell = ok tt

  abbrev pub outcome : Result (StepResult f32) EgressError → Outcome
  outcome (ok r) = ok tt
  outcome (err e) = err e

  abbrev pub and_also :
      Outcome → Option (Ordering × List Outcome) → Option (Ordering × List Outcome)
  and_also r none = none
  and_also r (some (env, rs)) = some (env, r ∷ rs)

  -- A step for each action in turn, whatever it returns.
  unfoldable pub act_all : Ordering → List Action → Option (Ordering × List Outcome)
  unfolding step
  act_all env [] = some (env, [])
  act_all env (a ∷ actions) = elim (step f32 ws (usdm_order_egress ws.Message) env a) [
    | none ↦ none
    | some (env', r) ↦ and_also (outcome r) (act_all env' actions)
  ]

  record IsOpen (env : Ordering) : Type 0 where
    configured : env.config ≡ config
    alive : env.egress.receiver_alive ≡ true
    transitions : List (Transition f32)
    replay_is : push_all (new config.replay_capacity) transitions ≡ some env.replay

  -- Where the orders of the remaining actions go.
  abbrev Placed : Ordering → List Action → Type 0
  Placed env actions =
      (last : Ordering) × (act_all env actions ≡ some (last, map outcome_of actions))
      × (last.egress.queued ≡ env.egress.queued ++ orders_of actions)

  enqueue-alive :
      (q : OrderQueue) (r : PlaceOrderRequest)
      → q.receiver_alive ≡ true
      → enqueue q r ≡ (record q { queued = q.queued ++ r ∷ [] }, ok tt)
  unfolding enqueue
  enqueue-alive q r alive = rw (alive, enqueue) refl

  -- The action is sent as a market order.
  abbrev Sends : Ordering → Action → OrderSide → Type 0
  Sends env a side =
      sent_to f32 ws (usdm_order_egress ws.Message) config env a
      ≡ (record env.egress { queued = env.egress.queued ++ market_order side ∷ [] }, ok tt)

  abbrev with_order : Ordering → OrderSide → EnvConfig → OrderQueue × Outcome
  with_order env side c =
      (record env.egress { queued = env.egress.queued ++ order_at c side ∷ [] }, ok tt)

  buy-Sends : (env : Ordering) → IsOpen env → Sends env buy OrderSide.buy
  unfolding dispatch_action dispatch place_order_from_outbound place_order_from_request parse_side
      to_ascii_uppercase upper_code text_eq
  buy-Sends env v =
      enqueue-alive env.egress (order_at env.config OrderSide.buy) v.alive
      ∙ ap (with_order env OrderSide.buy) v.configured

  sell-Sends : (env : Ordering) → IsOpen env → Sends env sell OrderSide.sell
  unfolding dispatch_action dispatch place_order_from_outbound place_order_from_request parse_side
      to_ascii_uppercase upper_code text_eq
  sell-Sends env v =
      enqueue-alive env.egress (order_at env.config OrderSide.sell) v.alive
      ∙ ap (with_order env OrderSide.sell) v.configured

  -- An action that is sent leaves an environment that is as open, with the order at the end.
  step-Sends :
      (env : Ordering) (a : Action) (side : OrderSide)
      → 0 < config.replay_capacity
      → IsOpen env
      → Sends env a side
      → (next : Ordering) × (r : StepResult f32) × (step f32 ws (usdm_order_egress ws.Message) env a
          ≡ some (next, ok r))
        × IsOpen next
        × (next.egress.queued ≡ env.egress.queued ++ market_order side ∷ [])
  step-Sends env a side p v sends =
      let eg = usdm_order_egress ws.Message in
      let t = acted f32 ws eg config (observe f32 ws eg env) a in
      let (replay, pushed, all) =
        push_more config.replay_capacity env.replay v.transitions t p v.replay_is in
      let q = (sent_to f32 ws eg config env a).0 in
      let queue = ap (λ x. x.0) sends in
      (
        stepped f32 ws eg config env q replay,
        result_of f32 ws eg config env a,
        step-recorded f32 ws eg config env a replay (ap (λ x. x.1) sends) pushed,
        record {
          configured = v.configured;
          alive = ap (λ x. x.receiver_alive) queue ∙ v.alive;
          transitions = v.transitions ++ t ∷ [];
          replay_is = all;
        },
        ap (λ x. x.queued) queue,
      )

  order-Placed :
      (env : Ordering) (a : Action) (side : OrderSide) (actions : List Action)
      → 0 < config.replay_capacity
      → IsOpen env
      → Sends env a side
      → ((next : Ordering) → IsOpen next → Placed next actions)
      → (last : Ordering) × (act_all env (a ∷ actions)
          ≡ some (last, ok tt ∷ map outcome_of actions))
        × (last.egress.queued ≡ env.egress.queued ++ market_order side ∷ orders_of actions)
  unfolding act_all
  order-Placed env a side actions p v sends rest =
      let (next, r, did, open_, queue) = step-Sends env a side p v sends in
      let (last, ran, placed) = rest next open_ in
      (
        last,
        rw (act_all, did) (ap (and_also (ok tt)) ran),
        placed
            ∙ rw queue
                (append_assoc env.egress.queued (market_order side ∷ []) (orders_of actions)),
      )

  act_all-Placed :
      (env : Ordering) (actions : List Action)
      → 0 < config.replay_capacity
      → IsOpen env
      → Placed env actions
  unfolding act_all step dispatch_action dispatch place_order_from_outbound
  act_all-Placed env [] p v = (env, refl, sym (append-nil env.egress.queued))
  act_all-Placed env (hold ∷ actions) p v =
      let (last, ran, placed) = act_all-Placed env actions p v in
      (last, ap (and_also (outcome_of hold)) ran, placed)
  act_all-Placed env (buy ∷ actions) p v =
      order-Placed env buy OrderSide.buy actions p v (buy-Sends env v)
        (λ next w. act_all-Placed next actions p w)
  act_all-Placed env (sell ∷ actions) p v =
      order-Placed env sell OrderSide.sell actions p v (sell-Sends env v)
        (λ next w. act_all-Placed next actions p w)

  -- An environment over an order queue with a live receiver and a replay of positive capacity:
  -- for any actions no step panics. Each purchase and each sale puts a market order of the
  -- configured symbol, in upper case, and quantity at the end of the queue, in the order of the
  -- actions, and succeeds. A hold is refused as an unsupported subscription, and puts nothing.
  pub queued-act_all :
      (q : OrderQueue) (actions : List Action)
      → 0 < config.replay_capacity
      → q.receiver_alive ≡ true
      → (last : Ordering) × (act_all
            (new_env f32 ws (usdm_order_egress ws.Message) config q)
            actions
          ≡ some (last, map outcome_of actions))
        × (last.egress.queued ≡ q.queued ++ orders_of actions)
  unfolding new_env push_all
  queued-act_all q actions p alive =
      act_all-Placed (new_env f32 ws (usdm_order_egress ws.Message) config q) actions p
        (record { configured = refl; alive = alive; transitions = []; replay_is = refl })
