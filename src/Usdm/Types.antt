-- ===== src/Usdm/Types.antt =====
-- crates/binance-usdm-exec/src/types.rs: the updates of the user-data stream, and the records of
-- the bookkeeping. `u64` values are numbers; nothing computes with them but comparisons.
use trolly.Prelude.{
  ℕ, ℤ, Text, text_Eq, text_eq_iff, text_eq, codes, Bool, ◌&&◌, true, ◌≡◌, ◌↔◌, Option, List,
  HashMap, Eq, arith,
}

pub record OrderTradeUpdate : Type 0 where
  pub event_time : ℕ
  pub transaction_time : ℕ
  pub symbol : Text
  pub client_order_id : Text
  pub side : Text
  pub order_type : Text
  pub time_in_force : Text
  pub original_qty : Text
  pub original_price : Text
  pub average_price : Text
  pub execution_type : Text
  pub order_status : Text
  pub order_id : ℤ
  pub last_filled_qty : Text
  pub accumulated_filled_qty : Text
  pub last_filled_price : Text
  pub trade_id : ℤ
  pub position_side : Text
  pub realized_profit : Text

pub record BalanceChange : Type 0 where
  pub event_time : ℕ
  pub reason : Text
  pub asset : Text
  pub wallet_balance : Text
  pub cross_wallet_balance : Text
  pub balance_change : Text

pub record PositionChange : Type 0 where
  pub event_time : ℕ
  pub reason : Text
  pub symbol : Text
  pub position_amount : Text
  pub entry_price : Text
  pub unrealized_pnl : Text
  pub margin_type : Text
  pub isolated_wallet : Text
  pub position_side : Text

pub record MarginCallPosition : Type 0 where
  pub symbol : Text
  pub position_side : Text
  pub position_amount : Text
  pub margin_type : Text
  pub isolated_wallet : Text
  pub mark_price : Text
  pub unrealized_pnl : Text
  pub maintenance_margin_required : Text

pub record MarginCall : Type 0 where
  pub event_time : ℕ
  pub cross_wallet_balance : Text
  pub positions : List MarginCallPosition

pub data UsdmExecUpdate : Type 0 where
  order_trade : OrderTradeUpdate → UsdmExecUpdate
  balance_change : BalanceChange → UsdmExecUpdate
  position_change : PositionChange → UsdmExecUpdate
  listen_key_expired : UsdmExecUpdate
  margin_call : MarginCall → UsdmExecUpdate

pub record PositionKey : Type 0 where
  pub symbol : Text
  pub position_side : Text

-- `From<&PositionChange> for PositionKey`
abbrev pub position_key : PositionChange → PositionKey
position_key p = record { symbol = p.symbol; position_side = p.position_side }

unfoldable pub key_eq : PositionKey → PositionKey → Bool
unfolding text_eq
key_eq j k = text_eq j.symbol k.symbol && text_eq j.position_side k.position_side

pub key_eq_iff : (j k : PositionKey) → (key_eq j k ≡ true) ↔ (j ≡ k)
unfolding key_eq
key_eq_iff j k =
    ground (arith, text_eq_iff j.symbol k.symbol, text_eq_iff j.position_side k.position_side)

instance abbrev pub key_Eq : Eq PositionKey
key_Eq = record { beq = key_eq; beq_iff = key_eq_iff }

pub record SymbolBookkeeping : Type 0 where
  pub open_orders : HashMap ℤ OrderTradeUpdate
  pub positions : HashMap PositionKey PositionChange
  pub latest_margin_call : Option MarginCall

abbrev pub account_routing_id : Text
account_routing_id = codes "__account__"

unfoldable pub routing_id : UsdmExecUpdate → Text
routing_id (order_trade o) = o.symbol
routing_id (position_change p) = p.symbol
routing_id (balance_change b) = account_routing_id
routing_id listen_key_expired = account_routing_id
routing_id (margin_call c) = account_routing_id
