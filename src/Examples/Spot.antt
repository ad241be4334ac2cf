-- ===== src/Examples/Spot.antt =====
-- The spot user-data stream: a deposit, noise, a new order, and an order of another symbol.
use trolly.Prelude.{
  ℕ, Text, text_eq, codes, Bool, pos, ◌≡◌, refl, true, Option, none, some, List, [], ◌∷◌, length,
  Result, ok, err, if◌then◌else◌, Json,
}
use trolly.Spot.Events.{SpotUserEvent, execution_report, balance_update}
use trolly.Spot.Account.{empty_book}
use trolly.Spot.Parse.{parse_user_data_message, parse_execution_report, parse_balance_update}
use trolly.Spot.Handler.{SpotExecContext, build_multiplexor, contains, exec_subscription_symbols}
use trolly.Spot.Delivery.{ctx_of, deliver_all, events_of, ingest_all, ingest_all-build_multiplexor}
use trolly.Examples.Data.{Value, Fields, string, number, object, field, done, texts, documents}

abbrev start : SpotExecContext
start = record { events = record { receiver_alive = true; sent = [] }; account = empty_book }

abbrev same : ℕ → Text
same c = c ∷ []

abbrev fields : List (Text × Value) → Fields
fields [] = done
fields ((name, v) ∷ vs) = field name v (fields vs)

abbrev deposit : Value
deposit = object (
    fields (
      (codes "e", string (codes "balanceUpdate"))
      ∷ (codes "E", number 3)
      ∷ (codes "a", string (codes "USDT"))
      ∷ (codes "d", string (codes "1.50"))
      ∷ (codes "T", number 3)
      ∷ []))

abbrev report : Text → Value
report symbol = object (
    fields (
      (codes "e", string (codes "executionReport"))
      ∷ (codes "E", number 4)
      ∷ (codes "s", string symbol)
      ∷ (codes "c", string (codes "mine"))
      ∷ (codes "S", string (codes "BUY"))
      ∷ (codes "o", string (codes "LIMIT"))
      ∷ (codes "f", string (codes "GTC"))
      ∷ (codes "q", string (codes "2"))
      ∷ (codes "p", string (codes "9"))
      ∷ (codes "x", string (codes "NEW"))
      ∷ (codes "X", string (codes "NEW"))
      ∷ (codes "i", number 5)
      ∷ (codes "l", string (codes "0"))
      ∷ (codes "z", string (codes "0"))
      ∷ (codes "L", string (codes "0"))
      ∷ (codes "T", number 4)
      ∷ (codes "t", number 0)
      ∷ (codes "w", string (codes "true"))
      ∷ []))

abbrev read : Text → Result Value (Unit {0})
read t =
    if text_eq t (codes "deposit")
    then ok deposit
    else if text_eq t (codes "order")
    then ok (report (codes "BTCUSDT"))
    else if text_eq t (codes "other")
    then ok (report (codes "ETHUSDT"))
    else err tt

abbrev spot_documents : Json
spot_documents = record documents { from_str = read }

abbrev yes : Value → Option Bool
yes v = some true

abbrev messages : List Text
messages = codes "deposit" ∷ codes "noise" ∷ codes "order" ∷ codes "other" ∷ []

abbrev sent_by : Option SpotExecContext → List SpotUserEvent
sent_by none = []
sent_by (some ctx) = ctx.events.sent

ingest_all-build_multiplexor_example :
    ctx_of (
      ingest_all spot_documents yes texts
        (build_multiplexor same (codes "BTCUSDT" ∷ []) start)
        messages)
    ≡ deliver_all
        (contains (exec_subscription_symbols same (codes "BTCUSDT" ∷ [])))
        start
        (events_of spot_documents yes texts messages)
ingest_all-build_multiplexor_example =
    ingest_all-build_multiplexor spot_documents yes texts same (codes "BTCUSDT" ∷ []) start messages

-- Three events are read; the channel gets the deposit and the order of the subscribed symbol.
two_are_sent :
    length (
      sent_by (
        deliver_all
          (contains (exec_subscription_symbols same (codes "BTCUSDT" ∷ [])))
          start
          (events_of spot_documents yes texts messages)))
    ≡ 2
unfolding parse_user_data_message text_eq parse_balance_update exec_subscription_symbols
    trolly.Prelude.to_uppercase trolly.Spot.Events.route_id trolly.Spot.Account.apply
    trolly.Prelude.lookup trolly.Prelude.split parse_execution_report trolly.Spot.Handler.send
two_are_sent = refl

three_are_read : length (events_of spot_documents yes texts messages) ≡ 3
unfolding parse_user_data_message text_eq parse_balance_update parse_execution_report
three_are_read = refl
