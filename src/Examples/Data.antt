-- ===== src/Examples/Data.antt =====
-- Concrete parameters and inputs.
use trolly.Prelude.{
  ◌+◌, ◌-◌, ◌*◌, ◌/◌, ltb, true, Arithmetic, ℕ, ℤ, pos, Text, text_eq, codes, Option, none, some,
  List, [], ◌∷◌, if◌then◌else◌, Result, ok, err, eqb, parse_uint, Floats, Json, Frames, refl,
}
use trolly.Usdm.Types.{
  OrderTradeUpdate, PositionChange, MarginCall, UsdmExecUpdate, order_trade, position_change,
  margin_call,
}

-- Amounts that are whole numbers.
abbrev pub amounts : Floats
amounts = record { F64 = ℕ; parse = parse_uint 1000000; is_zero = λ n. eqb n 0 }

abbrev number_of : Option ℕ → ℕ
number_of none = 0
number_of (some n) = n

-- Whole numbers in place of floating-point ones; a literal that is no whole number is 0.
abbrev pub numerals : Arithmetic
numerals = record {
  Float = ℕ;
  literal = λ t. number_of (parse_uint 1000000 t);
  parse = parse_uint 1000000;
  of_nat = λ n. n;
  plus = λ a b. a + b;
  minus = λ a b. a - b;
  times = λ a b. a * b;
  over = λ a b. a / b;
  negate = λ a. a;
  sqrt = λ a. a;
  abs = λ a. a;
  maximum = λ a b. if ltb a b then b else a;
  infinity = 1000000;
  below = ltb;
  is_finite = λ a. true;
}

-- A frame that is its text.
abbrev pub texts : Frames
texts = record {
  Message = Text;
  as_text = λ t. some t;
  of_text = λ t. t;
  as_text-of_text = λ t. refl;
}

mutual
  pub data Value : Type 0 where
    string : Text → Value
    number : ℕ → Value
    array : Values → Value
    object : Fields → Value

  pub data Values : Type 0 where
    end : Values
    item : Value → Values → Values

  pub data Fields : Type 0 where
    done : Fields
    field : Text → Value → Fields → Fields

abbrev items : Values → List Value
items end = []
items (item v vs) = v ∷ items vs

abbrev field_of : Fields → Text → Option Value
field_of done k = none
field_of (field j v fs) k = if text_eq j k then some v else field_of fs k

abbrev value_field : Value → Text → Option Value
value_field (object fs) k = field_of fs k
value_field (string s) k = none
value_field (number n) k = none
value_field (array vs) k = none

abbrev value_str : Value → Option Text
value_str (string s) = some s
value_str (number n) = none
value_str (array vs) = none
value_str (object fs) = none

abbrev value_u64 : Value → Option ℕ
value_u64 (number n) = some n
value_u64 (string s) = none
value_u64 (array vs) = none
value_u64 (object fs) = none

abbrev value_i64 : Value → Option ℤ
value_i64 (number n) = some (pos n)
value_i64 (string s) = none
value_i64 (array vs) = none
value_i64 (object fs) = none

abbrev value_items : Value → Option (List Value)
value_items (array vs) = some (items vs)
value_items (string s) = none
value_items (number n) = none
value_items (object fs) = none

-- An `ACCOUNT_UPDATE` with one balance and one position.
abbrev pub account_payload : Value
account_payload = object (
    field (codes "e") (string (codes "ACCOUNT_UPDATE")) (
      field (codes "E") (number 7) (
        field (codes "a")
          (object (
            field (codes "m") (string (codes "ORDER")) (
              field (codes "B")
                (array (item (object (field (codes "a") (string (codes "USDT")) done)) end))
                (field (codes "P")
                  (array (
                    item
                      (object (
                        field (codes "s") (string (codes "BTCUSDT"))
                          (field (codes "pa") (string (codes "2")) done)))
                      end))
                  done))))
          done)))

abbrev pub wrapped_payload : Value
wrapped_payload = object (field (codes "data") account_payload done)

abbrev pub bare_text : Text
bare_text = codes "{account update}"

abbrev pub wrapped_text : Text
wrapped_text = codes "{data: {account update}}"

-- A reader that knows two documents.
abbrev read : Text → Result Value (Unit {0})
read t =
    if text_eq t bare_text
    then ok account_payload
    else if text_eq t wrapped_text
    then ok wrapped_payload
    else err tt

abbrev pub documents : Json
documents = record {
  Value = Value;
  Error = Unit {0};
  from_str = read;
  get = value_field;
  as_str = value_str;
  as_u64 = value_u64;
  as_i64 = value_i64;
  as_array = value_items;
}

abbrev order_report : Text → OrderTradeUpdate
order_report status = record {
  event_time = 1;
  transaction_time = 1;
  symbol = codes "BTCUSDT";
  client_order_id = [];
  side = codes "BUY";
  order_type = codes "LIMIT";
  time_in_force = codes "GTC";
  original_qty = codes "1";
  original_price = codes "9";
  average_price = codes "0";
  execution_type = codes "NEW";
  order_status = status;
  order_id = pos 5;
  last_filled_qty = [];
  accumulated_filled_qty = [];
  last_filled_price = [];
  trade_id = pos 0;
  position_side = codes "BOTH";
  realized_profit = [];
}

abbrev call_at : ℕ → MarginCall
call_at time = record { event_time = time; cross_wallet_balance = codes "3"; positions = [] }

abbrev pub leg : Text → PositionChange
leg amount = record {
  event_time = 2;
  reason = codes "ORDER";
  symbol = codes "BTCUSDT";
  position_amount = amount;
  entry_price = codes "9";
  unrealized_pnl = codes "0";
  margin_type = codes "cross";
  isolated_wallet = codes "0";
  position_side = codes "LONG";
}

abbrev pub symbols : List Text
symbols = codes "BTCUSDT" ∷ codes "ETHUSDT" ∷ []

-- An order that is opened and filled, a leg that is opened, and two margin calls out of order.
abbrev pub history : List UsdmExecUpdate
history =
    order_trade (order_report (codes "NEW"))
    ∷ margin_call (call_at 8)
    ∷ position_change (leg (codes "4"))
    ∷ margin_call (call_at 6)
    ∷ order_trade (order_report (codes "PARTIALLY_FILLED"))
    ∷ []
