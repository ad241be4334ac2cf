-- ===== src/Examples/Runtime.antt =====
-- The strategy's runtime and the training buffers.
use trolly.Prelude.{
  refl, ℕ, Text, text_eq, codes, ◌≡◌, ◌-◌, some, List, [], ◌∷◌, ok, err, if◌then◌else◌, HashMap,
  length, drop, arith,
}
use trolly.Strategy.Event.{StreamEvent, execution}
use trolly.Strategy.Egress.{OutboundMessage, subscribe, recording_egress, recording_strategy}
use trolly.Strategy.Runtime.{EventFormat, StrategyRuntime}
use trolly.Strategy.Delivery.{
  ingest_all, commands_of, dispatched, routed, route_all, route_all-ingest_all, egress-ingest_all,
}
use trolly.Gym.Ring.{Ring, new, push_all, snapshot}
use trolly.Gym.Ring.History.{snapshot-push_all}
use trolly.Examples.Data.{texts}

abbrev fill : StreamEvent
fill = execution (record {
  symbol = codes "BTCUSDT";
  order_id = codes "1";
  side = codes "BUY";
  fill_qty = codes "2";
  fill_price = codes "3";
})

abbrev one_event : EventFormat
one_event = record {
  Error = Unit {0};
  from_str = λ t. if text_eq t (codes "fill") then ok fill else err tt;
  to_string = λ e. codes "fill";
}

abbrev commands : List (OutboundMessage Text)
commands =
    subscribe (codes "BTCUSDT") (codes "depth") ∷ subscribe (codes "ETHUSDT") (codes "depth") ∷ []

abbrev runtime : StrategyRuntime texts one_event (recording_strategy Text) (recording_egress Text)
runtime = record { strategy = record { consumed = []; responses = commands }; egress = [] }

abbrev writers : HashMap Text (Unit {0})
writers = (codes "BTCUSDT", tt) ∷ []

abbrev frames : List Text
frames = codes "fill" ∷ codes "noise" ∷ codes "fill" ∷ []

route_all-ingest_all_example :
    route_all texts one_event
      (recording_strategy Text)
      (recording_egress Text)
      writers
      runtime
      frames
    ≡ ingest_all texts one_event
        (recording_strategy Text)
        (recording_egress Text)
        runtime
        (routed texts one_event (recording_strategy Text) (recording_egress Text) writers frames)
route_all-ingest_all_example =
    route_all-ingest_all texts one_event (recording_strategy Text) (recording_egress Text) writers
      runtime frames

egress-ingest_all_example :
    (ingest_all texts one_event
      (recording_strategy Text)
      (recording_egress Text)
      runtime
      (fill ∷ fill ∷ [])).egress
    ≡ dispatched texts one_event (recording_strategy Text) (recording_egress Text) runtime.egress (
        commands_of texts one_event
          (recording_strategy Text)
          (recording_egress Text)
          runtime.strategy
          (fill ∷ fill ∷ []))
egress-ingest_all_example =
    egress-ingest_all texts one_event (recording_strategy Text) (recording_egress Text)
      (λ e c. refl) runtime (fill ∷ fill ∷ [])

abbrev rewards : List ℕ
rewards = 4 ∷ 5 ∷ 6 ∷ 7 ∷ []

snapshot-push_all_example :
    (b : Ring ℕ) × (push_all (new 3) rewards ≡ some b)
    × (snapshot b ≡ some (drop (length rewards - 3) rewards))
snapshot-push_all_example = snapshot-push_all 3 rewards (omega arith)
