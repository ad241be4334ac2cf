-- ===== src/Strategy/Egress.antt =====
-- crates/trolly-strategy/src/egress.rs and strategy.rs: outbound messages, the traits
-- `StreamEgress` and `Strategy`, and their recording implementations. `M` is the type of
-- websocket messages, which is not the program's own.
use trolly.Prelude.{Text, Option, none, List, [], ◌∷◌, ◌++◌, Result, ok}
use trolly.Strategy.Event.{StreamEvent}

-- The fields of `OutboundMessage::OrderRequest`.
pub record OrderRequest : Type 0 where
  pub symbol : Text
  pub side : Text
  pub qty : Text
  pub price : Option Text
  pub time_in_force : Option Text
  pub position_side : Option Text

pub data OutboundMessage (M : Type 0) : Type 0 where
  order : OrderRequest → OutboundMessage M
  subscribe : Text → Text → OutboundMessage M
  raw : M → OutboundMessage M

unfoldable order_request : {M : Type 0} → Text → Text → Text → Option Text → OutboundMessage M
order_request symbol side qty price = order (record {
  symbol = symbol;
  side = side;
  qty = qty;
  price = price;
  time_in_force = none;
  position_side = none;
})

-- The trait `StreamEgress`: a dispatch changes the egress, and may fail.
pub record StreamEgress (M : Type 0) : Type 1 where
  pub Egress : Type 0
  pub Error : Type 0
  pub dispatch : Egress → OutboundMessage M → Egress × Result (Unit {0}) Error

-- The trait `Strategy`.
pub record Strategy (M : Type 0) : Type 1 where
  pub State : Type 0
  pub on_event : State → StreamEvent → State × List (OutboundMessage M)

-- `RecordingEgress`, whose error type is `Infallible`.
abbrev pub recording_egress : (M : Type 0) → StreamEgress M
recording_egress M = record {
  Egress = List (OutboundMessage M);
  Error = ⊥;
  dispatch = λ dispatched m. (dispatched ++ m ∷ [], ok tt);
}

pub record RecordingState (M : Type 0) : Type 0 where
  pub consumed : List StreamEvent
  pub responses : List (OutboundMessage M)

-- `RecordingStrategy`
abbrev pub recording_strategy : (M : Type 0) → Strategy M
recording_strategy M = record {
  State = RecordingState M;
  on_event = λ s event. (record s { consumed = s.consumed ++ event ∷ [] }, s.responses);
}
