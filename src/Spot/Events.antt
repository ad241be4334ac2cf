-- ===== src/Spot/Events.antt =====
-- crates/binance-spot-exec/src/events.rs: the events of the user-data stream.
use trolly.Prelude.{ℕ, ℤ, Text, codes, Bool, List}

pub record ExecutionReport : Type 0 where
  pub event_time : ℕ
  pub symbol : Text
  pub client_order_id : Text
  pub side : Text
  pub order_type : Text
  pub time_in_force : Text
  pub quantity : Text
  pub price : Text
  pub execution_type : Text
  pub order_status : Text
  pub order_id : ℤ
  pub last_qty : Text
  pub cumulative_qty : Text
  pub last_price : Text
  pub transaction_time : ℕ
  pub trade_id : ℤ
  pub is_on_book : Bool

pub record AssetBalance : Type 0 where
  pub asset : Text
  pub free : Text
  pub locked : Text

pub record OutboundAccountPosition : Type 0 where
  pub event_time : ℕ
  pub last_update_time : ℕ
  pub balances : List AssetBalance

pub record BalanceUpdate : Type 0 where
  pub event_time : ℕ
  pub asset : Text
  pub delta : Text
  pub clear_time : ℕ

pub record ListStatusOrder : Type 0 where
  pub symbol : Text
  pub order_id : ℤ
  pub client_order_id : Text

pub record ListStatus : Type 0 where
  pub event_time : ℕ
  pub symbol : Text
  pub list_status_type : Text
  pub list_order_status : Text
  pub orders : List ListStatusOrder

pub record ExternalLockUpdate : Type 0 where
  pub event_time : ℕ
  pub asset : Text
  pub delta : Text
  pub transaction_time : ℕ

pub record EventStreamTerminated : Type 0 where
  pub event_time : ℕ

pub data SpotUserEvent : Type 0 where
  execution_report : ExecutionReport → SpotUserEvent
  outbound_account_position : OutboundAccountPosition → SpotUserEvent
  balance_update : BalanceUpdate → SpotUserEvent
  list_status : ListStatus → SpotUserEvent
  external_lock_update : ExternalLockUpdate → SpotUserEvent
  event_stream_terminated : EventStreamTerminated → SpotUserEvent

abbrev pub account_route_id : Text
account_route_id = codes "__account__"

unfoldable pub route_id : SpotUserEvent → Text
route_id (execution_report r) = r.symbol
route_id (list_status r) = r.symbol
route_id (outbound_account_position p) = account_route_id
route_id (balance_update u) = account_route_id
route_id (external_lock_update u) = account_route_id
route_id (event_stream_terminated t) = account_route_id
