-- ===== src/Strategy/Event.antt =====
-- crates/trolly-strategy/src/event.rs: normalized stream events.
use trolly.Prelude.{ℕ, Text, Option, none, some, List}

pub data EventKind : Type 0 where
  depth execution account : EventKind

pub record PriceLevel : Type 0 where
  pub price : Text
  pub qty : Text

pub record DepthUpdate : Type 0 where
  pub symbol : Text
  pub bids : List PriceLevel
  pub asks : List PriceLevel
  pub update_id : Option ℕ

pub record ExecutionUpdate : Type 0 where
  pub symbol : Text
  pub order_id : Text
  pub side : Text
  pub fill_qty : Text
  pub fill_price : Text

pub record AccountUpdate : Type 0 where
  pub asset : Text
  pub balance : Text
  pub symbol : Option Text

pub data StreamEvent : Type 0 where
  depth : DepthUpdate → StreamEvent
  execution : ExecutionUpdate → StreamEvent
  account : AccountUpdate → StreamEvent

unfoldable pub kind : StreamEvent → EventKind
kind (StreamEvent.depth d) = EventKind.depth
kind (StreamEvent.execution e) = EventKind.execution
kind (StreamEvent.account a) = EventKind.account

abbrev text_or : Option Text → Text → Text
text_or none d = d
text_or (some s) d = s

unfoldable pub routing_id : StreamEvent → Text
routing_id (StreamEvent.depth d) = d.symbol
routing_id (StreamEvent.execution e) = e.symbol
routing_id (StreamEvent.account a) = text_or a.symbol a.asset
