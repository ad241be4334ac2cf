-- ===== src/Usdm/Parse.antt =====
-- crates/binance-usdm-exec/src/parse.rs: one websocket payload into routed updates.
use trolly.Prelude.{
  ℕ, zero, suc, ℤ, pos, Text, text_Eq, codes, Bool, true, false, ◌&&◌, Option, none, some, List, [],
  ◌∷◌, ◌++◌, Result, ok, err, ◌>>=◌, ok_or, map_err, if◌then◌else◌, ◌==◌, Json, Frames,
}
use trolly.Usdm.Types.{
  OrderTradeUpdate, BalanceChange, PositionChange, MarginCall, MarginCallPosition, UsdmExecUpdate,
  order_trade, balance_change, position_change, listen_key_expired, margin_call,
}

pub data ParseError (E : Type 0) : Type 0 where
  not_text : ParseError E
  json : E → ParseError E
  unknown_event : Text → ParseError E
  missing_field : Text → Text → ParseError E

unfoldable pub option_or {ℓ} : {A : Type ℓ} → Option A → A → A
option_or none d = d
option_or (some a) d = a

unfoldable is_some {ℓ} : {A : Type ℓ} → Option A → Bool
is_some none = false
is_some (some a) = true

unfoldable pub and_then {ℓ κ} : {A : Type ℓ} {B : Type κ} → Option A → (A → Option B) → Option B
and_then none f = none
and_then (some a) f = f a

module _ (js : Json) where
  open js use {Value, Error, from_str, get, as_str, as_u64, as_i64, as_array}

  unfoldable pub required_str : Value → Text → Text → Result Text (ParseError Error)
  unfolding and_then
  required_str v field context = ok_or (and_then (get v field) as_str) (missing_field field context)

  unfoldable pub optional_str : Value → Text → Text
  unfolding and_then option_or
  optional_str v field = option_or (and_then (get v field) as_str) []

  unfoldable pub required_u64 : Value → Text → Text → Result ℕ (ParseError Error)
  unfolding and_then
  required_u64 v field context = ok_or (and_then (get v field) as_u64) (missing_field field context)

  unfoldable required_i64 : Value → Text → Text → Result ℤ (ParseError Error)
  unfolding and_then
  required_i64 v field context = ok_or (and_then (get v field) as_i64) (missing_field field context)

  unfoldable pub unwrap_combined_envelope : Value → Value
  unfolding option_or
  unwrap_combined_envelope root = option_or (get root (codes "data")) root

  unfoldable parse_order_trade_update : Value → Result OrderTradeUpdate (ParseError Error)
  unfolding required_str optional_str required_u64 required_i64 and_then option_or
  parse_order_trade_update payload = do
    event_time ← required_u64 payload (codes "E") (codes "ORDER_TRADE_UPDATE")
    transaction_time ← required_u64 payload (codes "T") (codes "ORDER_TRADE_UPDATE")
    order ← ok_or (get payload (codes "o")) (missing_field (codes "o") (codes "ORDER_TRADE_UPDATE"))
    symbol ← required_str order (codes "s") (codes "order")
    side ← required_str order (codes "S") (codes "order")
    order_type ← required_str order (codes "o") (codes "order")
    execution_type ← required_str order (codes "x") (codes "order")
    order_status ← required_str order (codes "X") (codes "order")
    order_id ← required_i64 order (codes "i") (codes "order")
    ok (record {
      event_time = event_time;
      transaction_time = transaction_time;
      symbol = symbol;
      client_order_id = optional_str order (codes "c");
      side = side;
      order_type = order_type;
      time_in_force = optional_str order (codes "f");
      original_qty = optional_str order (codes "q");
      original_price = optional_str order (codes "p");
      average_price = optional_str order (codes "ap");
      execution_type = execution_type;
      order_status = order_status;
      order_id = order_id;
      last_filled_qty = optional_str order (codes "l");
      accumulated_filled_qty = optional_str order (codes "z");
      last_filled_price = optional_str order (codes "L");
      trade_id = option_or (and_then (get order (codes "t")) as_i64) (pos 0);
      position_side = optional_str order (codes "ps");
      realized_profit = optional_str order (codes "rp");
    })

  unfoldable pub balance_row : ℕ → Text → Value → Result BalanceChange (ParseError Error)
  unfolding required_str optional_str
  balance_row event_time reason row = do
    asset ← required_str row (codes "a") (codes "balance")
    ok (record {
      event_time = event_time;
      reason = reason;
      asset = asset;
      wallet_balance = optional_str row (codes "wb");
      cross_wallet_balance = optional_str row (codes "cw");
      balance_change = optional_str row (codes "bc");
    })

  unfoldable pub position_row : ℕ → Text → Value → Result PositionChange (ParseError Error)
  unfolding required_str optional_str
  position_row event_time reason row = do
    symbol ← required_str row (codes "s") (codes "position")
    ok (record {
      event_time = event_time;
      reason = reason;
      symbol = symbol;
      position_amount = optional_str row (codes "pa");
      entry_price = optional_str row (codes "ep");
      unrealized_pnl = optional_str row (codes "up");
      margin_type = optional_str row (codes "mt");
      isolated_wallet = optional_str row (codes "iw");
      position_side = optional_str row (codes "ps");
    })

  -- The two loops of `parse_account_update`; `?` leaves at the first row that fails.
  unfoldable pub push_balances :
      ℕ → Text → List UsdmExecUpdate → List Value → Result (List UsdmExecUpdate) (ParseError Error)
  unfolding balance_row
  push_balances t reason out [] = ok out
  push_balances t reason out (row ∷ rows) = do
    b ← balance_row t reason row
    push_balances t reason (out ++ balance_change b ∷ []) rows

  unfoldable pub push_positions :
      ℕ → Text → List UsdmExecUpdate → List Value → Result (List UsdmExecUpdate) (ParseError Error)
  unfolding position_row
  push_positions t reason out [] = ok out
  push_positions t reason out (row ∷ rows) = do
    p ← position_row t reason row
    push_positions t reason (out ++ position_change p ∷ []) rows

  -- `if let Some(rows) = account.get(field).and_then(as_array)`: no rows without the array.
  unfoldable pub rows_of : Value → Text → List Value
  unfolding and_then option_or
  rows_of account field = option_or (and_then (get account field) as_array) []

  unfoldable pub parse_account_update : Value → Result (List UsdmExecUpdate) (ParseError Error)
  unfolding required_u64 optional_str push_balances push_positions rows_of
  parse_account_update payload = do
    event_time ← required_u64 payload (codes "E") (codes "ACCOUNT_UPDATE")
    account ← ok_or (get payload (codes "a")) (missing_field (codes "a") (codes "ACCOUNT_UPDATE"))
    let reason = optional_str account (codes "m")
    out ← push_balances event_time reason [] (rows_of account (codes "B"))
    push_positions event_time reason out (rows_of account (codes "P"))

  -- The decoder that serde derives for `MarginCallPositionRaw`: an object with a text under `s`, and
  -- a text or nothing under each of the other names, which then stands for the empty text; or an
  -- array of at most eight texts in the order of the fields, the first of which must be there.
  abbrev default_str : Option Value → Option Text
  default_str none = some []
  default_str (some v) = as_str v

  unfoldable field_texts : Value → List Text → Option (List Text)
  unfolding and_then
  field_texts row [] = some []
  field_texts row (name ∷ names) =
      and_then (default_str (get row name))
        (λ t. and_then (field_texts row names) (λ ts. some (t ∷ ts)))

  unfoldable element_texts : ℕ → List Value → Option (List Text)
  unfolding and_then
  element_texts zero [] = some []
  element_texts zero (v ∷ vs) = none
  element_texts (suc n) [] = and_then (element_texts n []) (λ ts. some ([] ∷ ts))
  element_texts (suc n) (v ∷ vs) =
      and_then (as_str v) (λ t. and_then (element_texts n vs) (λ ts. some (t ∷ ts)))

  abbrev position_of : Text → List Text → Option MarginCallPosition
  position_of symbol (ps ∷ pa ∷ mt ∷ iw ∷ mp ∷ up ∷ mm ∷ []) = some (record {
    symbol = symbol;
    position_side = ps;
    position_amount = pa;
    margin_type = mt;
    isolated_wallet = iw;
    mark_price = mp;
    unrealized_pnl = up;
    maintenance_margin_required = mm;
  })
  position_of symbol other = none

  abbrev from_elements : List Value → Option MarginCallPosition
  from_elements [] = none
  from_elements (v ∷ vs) =
      and_then (as_str v) (λ symbol. and_then (element_texts 7 vs) (position_of symbol))

  abbrev position_fields : List Text
  position_fields =
      codes "ps" ∷ codes "pa" ∷ codes "mt" ∷ codes "iw" ∷ codes "mp" ∷ codes "up" ∷ codes "mm" ∷ []

  unfoldable margin_row : Value → Option MarginCallPosition
  unfolding and_then field_texts element_texts
  margin_row row = elim (as_array row) [
    | some elements ↦ from_elements elements
    | none ↦
        and_then (and_then (get row (codes "s")) as_str)
          (λ symbol. and_then (field_texts row position_fields) (position_of symbol))
  ]

  -- A row that the decoder refuses is skipped.
  unfoldable margin_rows : List Value → List MarginCallPosition
  unfolding margin_row
  margin_rows [] = []
  margin_rows (row ∷ rows) = elim (margin_row row) [
    | none ↦ margin_rows rows
    | some p ↦ p ∷ margin_rows rows
  ]

  unfoldable parse_margin_call : Value → Result MarginCall (ParseError Error)
  unfolding required_u64 optional_str margin_rows rows_of
  parse_margin_call payload = do
    event_time ← required_u64 payload (codes "E") (codes "MARGIN_CALL")
    ok (record {
      event_time = event_time;
      cross_wallet_balance = optional_str payload (codes "cw");
      positions = margin_rows (rows_of payload (codes "p"));
    })

  -- The `match event_type` of `parse_user_events`.
  unfoldable pub parse_event : Text → Value → Result (List UsdmExecUpdate) (ParseError Error)
  unfolding parse_order_trade_update parse_account_update parse_margin_call
  parse_event event_type payload =
      if event_type == codes "ORDER_TRADE_UPDATE"
      then (do update ← parse_order_trade_update payload; ok (order_trade update ∷ []))
      else if event_type == codes "ACCOUNT_UPDATE"
      then parse_account_update payload
      else if event_type == codes "listenKeyExpired"
      then ok (listen_key_expired ∷ [])
      else if event_type == codes "MARGIN_CALL"
      then (do call ← parse_margin_call payload; ok (margin_call call ∷ []))
      else err (unknown_event event_type)

  unfoldable parse_payload : Value → Result (List UsdmExecUpdate) (ParseError Error)
  unfolding parse_event and_then is_some
  parse_payload payload =
      if is_some (get payload (codes "result")) && is_some (get payload (codes "id"))
      then ok []
      else do
        event_type ←
            ok_or (and_then (get payload (codes "e")) as_str) (unknown_event (codes "(missing)"))
        parse_event event_type payload

  module _ (ws : Frames) where
    unfoldable pub parse_user_events : ws.Message → Result (List UsdmExecUpdate) (ParseError Error)
    unfolding unwrap_combined_envelope parse_payload
    parse_user_events msg = do
      text ← ok_or (ws.as_text msg) not_text
      root ← map_err json (from_str text)
      parse_payload (unwrap_combined_envelope root)
