-- ===== src/Spot/Parse.antt =====
-- crates/binance-spot-exec/src/parse.rs: one websocket message into at most one event.
-- `as_bool` is `serde_json::Value::as_bool`.
use trolly.Prelude.{
  ℕ, ℤ, Text, text_Eq, codes, Bool, true, false, ◌&&◌, Option, none, some, List, [], ◌∷◌, Result,
  ok, err, ◌>>=◌, ok_or, map_err, if◌then◌else◌, ◌==◌, Json, Frames,
}
use trolly.Spot.Events.{
  ExecutionReport, AssetBalance, OutboundAccountPosition, BalanceUpdate, ListStatusOrder,
  ListStatus, ExternalLockUpdate, EventStreamTerminated, SpotUserEvent, execution_report,
  outbound_account_position, balance_update, list_status, external_lock_update,
  event_stream_terminated,
}

pub data ParseError (E : Type 0) : Type 0 where
  invalid_message : ParseError E
  json : E → ParseError E
  unknown_event : Text → ParseError E
  missing_field : Text → ParseError E

abbrev there {ℓ} : {A : Type ℓ} → Option A → Bool
there none = false
there (some a) = true

abbrev then_ {ℓ κ} : {A : Type ℓ} {B : Type κ} → Option A → (A → Option B) → Option B
then_ none f = none
then_ (some a) f = f a

abbrev or_else {ℓ} : {A : Type ℓ} → Option A → A → A
or_else none d = d
or_else (some a) d = a

module _ (js : Json) (as_bool : js.Value → Option Bool) where
  open js use {Value, Error, from_str, get, as_str, as_u64, as_i64, as_array}

  unfoldable str_field : Value → Text → Result Text (ParseError Error)
  str_field v k = ok_or (then_ (get v k) as_str) (missing_field k)

  unfoldable u64_field : Value → Text → Result ℕ (ParseError Error)
  u64_field v k = ok_or (then_ (get v k) as_u64) (missing_field k)

  unfoldable i64_field : Value → Text → Result ℤ (ParseError Error)
  i64_field v k = ok_or (then_ (get v k) as_i64) (missing_field k)

  unfoldable bool_field : Value → Text → Result Bool (ParseError Error)
  bool_field v k = ok_or (then_ (get v k) as_bool) (missing_field k)

  unfoldable pub parse_execution_report : Value → Result ExecutionReport (ParseError Error)
  unfolding str_field u64_field i64_field bool_field
  parse_execution_report v = do
    event_time ← u64_field v (codes "E")
    symbol ← str_field v (codes "s")
    client_order_id ← str_field v (codes "c")
    side ← str_field v (codes "S")
    order_type ← str_field v (codes "o")
    time_in_force ← str_field v (codes "f")
    quantity ← str_field v (codes "q")
    price ← str_field v (codes "p")
    execution_type ← str_field v (codes "x")
    order_status ← str_field v (codes "X")
    order_id ← i64_field v (codes "i")
    last_qty ← str_field v (codes "l")
    cumulative_qty ← str_field v (codes "z")
    last_price ← str_field v (codes "L")
    transaction_time ← u64_field v (codes "T")
    trade_id ← i64_field v (codes "t")
    is_on_book ← bool_field v (codes "w")
    ok (record {
      event_time = event_time;
      symbol = symbol;
      client_order_id = client_order_id;
      side = side;
      order_type = order_type;
      time_in_force = time_in_force;
      quantity = quantity;
      price = price;
      execution_type = execution_type;
      order_status = order_status;
      order_id = order_id;
      last_qty = last_qty;
      cumulative_qty = cumulative_qty;
      last_price = last_price;
      transaction_time = transaction_time;
      trade_id = trade_id;
      is_on_book = is_on_book;
    })

  -- The two `map … collect`, which end at the first entry that fails.
  unfoldable balances_of : List Value → Result (List AssetBalance) (ParseError Error)
  unfolding str_field
  balances_of [] = ok []
  balances_of (entry ∷ entries) = do
    asset ← str_field entry (codes "a")
    free ← str_field entry (codes "f")
    locked ← str_field entry (codes "l")
    rest ← balances_of entries
    ok (record { asset = asset; free = free; locked = locked } ∷ rest)

  unfoldable orders_of : List Value → Result (List ListStatusOrder) (ParseError Error)
  unfolding str_field i64_field
  orders_of [] = ok []
  orders_of (entry ∷ entries) = do
    symbol ← str_field entry (codes "s")
    order_id ← i64_field entry (codes "i")
    client_order_id ← str_field entry (codes "c")
    rest ← orders_of entries
    ok (record { symbol = symbol; order_id = order_id; client_order_id = client_order_id } ∷ rest)

  unfoldable pub parse_outbound_account_position :
      Value → Result OutboundAccountPosition (ParseError Error)
  unfolding u64_field balances_of
  parse_outbound_account_position v = do
    entries ← ok_or (then_ (get v (codes "B")) as_array) (missing_field (codes "B"))
    balances ← balances_of entries
    event_time ← u64_field v (codes "E")
    last_update_time ← u64_field v (codes "u")
    ok (record {
      event_time = event_time;
      last_update_time = last_update_time;
      balances = balances;
    })

  unfoldable pub parse_balance_update : Value → Result BalanceUpdate (ParseError Error)
  unfolding str_field u64_field
  parse_balance_update v = do
    event_time ← u64_field v (codes "E")
    asset ← str_field v (codes "a")
    delta ← str_field v (codes "d")
    clear_time ← u64_field v (codes "T")
    ok (record { event_time = event_time; asset = asset; delta = delta; clear_time = clear_time })

  unfoldable pub parse_list_status : Value → Result ListStatus (ParseError Error)
  unfolding str_field u64_field orders_of
  parse_list_status v = do
    entries ← ok_or (then_ (get v (codes "O")) as_array) (missing_field (codes "O"))
    orders ← orders_of entries
    event_time ← u64_field v (codes "E")
    symbol ← str_field v (codes "s")
    list_status_type ← str_field v (codes "l")
    list_order_status ← str_field v (codes "L")
    ok (record {
      event_time = event_time;
      symbol = symbol;
      list_status_type = list_status_type;
      list_order_status = list_order_status;
      orders = orders;
    })

  unfoldable pub parse_external_lock_update : Value → Result ExternalLockUpdate (ParseError Error)
  unfolding str_field u64_field
  parse_external_lock_update v = do
    event_time ← u64_field v (codes "E")
    asset ← str_field v (codes "a")
    delta ← str_field v (codes "d")
    transaction_time ← u64_field v (codes "T")
    ok (record {
      event_time = event_time;
      asset = asset;
      delta = delta;
      transaction_time = transaction_time;
    })

  unfoldable pub parse_event_stream_terminated :
      Value → Result EventStreamTerminated (ParseError Error)
  unfolding u64_field
  parse_event_stream_terminated v = do
    event_time ← u64_field v (codes "E")
    ok (record { event_time = event_time })

  -- The `match event_type`.
  unfoldable pub parse_event : Text → Value → Result SpotUserEvent (ParseError Error)
  parse_event event_type v =
      if event_type == codes "executionReport"
      then (do r ← parse_execution_report v; ok (execution_report r))
      else if event_type == codes "outboundAccountPosition"
      then (do p ← parse_outbound_account_position v; ok (outbound_account_position p))
      else if event_type == codes "balanceUpdate"
      then (do u ← parse_balance_update v; ok (balance_update u))
      else if event_type == codes "listStatus"
      then (do s ← parse_list_status v; ok (list_status s))
      else if event_type == codes "externalLockUpdate"
      then (do u ← parse_external_lock_update v; ok (external_lock_update u))
      else if event_type == codes "eventStreamTerminated"
      then (do t ← parse_event_stream_terminated v; ok (event_stream_terminated t))
      else err (unknown_event event_type)

  unfoldable parse_root : Value → Result (Option SpotUserEvent) (ParseError Error)
  unfolding parse_event
  parse_root root =
      if there (get root (codes "result")) && there (get root (codes "id")) then ok none else do
        let payload = or_else (get root (codes "event")) root
        event_type ← ok_or (then_ (get payload (codes "e")) as_str) (missing_field (codes "e"))
        event ← parse_event event_type payload
        ok (some event)

  module _ (ws : Frames) where
    unfoldable pub parse_user_data_message :
        ws.Message → Result (Option SpotUserEvent) (ParseError Error)
    unfolding parse_root
    parse_user_data_message msg = elim (ws.as_text msg) [
      | none ↦ ok none
      | some text ↦ map_err json (from_str text) >>= parse_root
    ]
