-- ===== src/Examples/Usdm.antt =====
-- The USD-M bookkeeping.
use trolly.Prelude.{
  pos, codes, text_eq, ◌≡◌, ◌≢◌, refl, none, some, List, [], ◌∷◌, ok, true, arith, text_Eq,
}
use trolly.Usdm.Types.{
  balance_change, position_change, UsdmExecUpdate, account_routing_id, routing_id,
}
use trolly.Usdm.Ingress.{build_multiplexor, route_all, ingest_stream}
use trolly.Usdm.Consistency.{IsConsistent, ingest_stream-build_multiplexor}
use trolly.Usdm.Margins.{IsNewest, calls_onto, latest-build_multiplexor}
use trolly.Usdm.Orders.{HasBook, last_report, open_orders-build_multiplexor}
use trolly.Usdm.Forwarding.{contains, delivered, sent-build_multiplexor}
use trolly.Usdm.Parse.{
  parse_account_update, parse_user_events, required_u64, optional_str, required_str, balance_row,
  position_row, push_balances, push_positions, rows_of, and_then, option_or,
}
use trolly.Usdm.Fanout.{Fanned, parse_account_update-Fanned, parse_user_events-envelope}
use trolly.Examples.Data.{
  amounts, texts, documents, account_payload, wrapped_payload, bare_text, wrapped_text, symbols,
  history, leg,
}

ingest_stream-build_multiplexor_example : IsConsistent (
    ingest_stream amounts documents texts
      (build_multiplexor symbols none)
      (wrapped_text ∷ codes "noise" ∷ bare_text ∷ []))
ingest_stream-build_multiplexor_example =
    ingest_stream-build_multiplexor amounts documents texts symbols none
      (wrapped_text ∷ codes "noise" ∷ bare_text ∷ [])

latest-build_multiplexor_example :
    IsNewest
      (calls_onto [] history)
      (route_all amounts (build_multiplexor symbols none) history).ctx.account.latest_margin_call
latest-build_multiplexor_example = latest-build_multiplexor amounts symbols none history

subscribed : contains symbols (codes "BTCUSDT") ≡ true
unfolding text_eq
subscribed = refl

not_account : codes "BTCUSDT" ≢ account_routing_id
not_account = ground arith

open_orders-build_multiplexor_example :
    HasBook
      (codes "BTCUSDT")
      (pos 5)
      (last_report (codes "BTCUSDT") (pos 5) none history)
      (route_all amounts (build_multiplexor symbols none) history)
open_orders-build_multiplexor_example =
    open_orders-build_multiplexor amounts symbols none history (codes "BTCUSDT") (pos 5) subscribed
      not_account

sent-build_multiplexor_example :
    (route_all amounts
      (build_multiplexor symbols (some (record { receiver_alive = true; sent = [] })))
      history).ctx.outbound
    ≡ some (record { receiver_alive = true; sent = delivered symbols history })
sent-build_multiplexor_example = sent-build_multiplexor amounts symbols history

other_symbol : codes "ETHUSDT" ≢ routing_id (position_change (leg (codes "4")))
unfolding routing_id
other_symbol = ground arith

-- What the payload is read as.
abbrev account_updates : List UsdmExecUpdate
account_updates =
    balance_change (record {
      event_time = 7;
      reason = codes "ORDER";
      asset = codes "USDT";
      wallet_balance = [];
      cross_wallet_balance = [];
      balance_change = [];
    })
    ∷ position_change (record {
      event_time = 7;
      reason = codes "ORDER";
      symbol = codes "BTCUSDT";
      position_amount = codes "2";
      entry_price = [];
      unrealized_pnl = [];
      margin_type = [];
      isolated_wallet = [];
      position_side = [];
    })
    ∷ []

account_payload_is_read : parse_account_update documents account_payload ≡ ok account_updates
unfolding parse_account_update required_u64 optional_str required_str balance_row position_row
    push_balances push_positions rows_of and_then option_or text_eq
account_payload_is_read = refl

parse_account_update-Fanned_example : Fanned documents account_payload account_updates
parse_account_update-Fanned_example =
    parse_account_update-Fanned documents account_payload account_updates account_payload_is_read

wrapped_is_read : documents.from_str wrapped_text ≡ ok wrapped_payload
unfolding text_eq
wrapped_is_read = refl

bare_is_read : documents.from_str bare_text ≡ ok account_payload
unfolding text_eq
bare_is_read = refl

wrapped_has_data : documents.get wrapped_payload (codes "data") ≡ some account_payload
unfolding text_eq
wrapped_has_data = refl

bare_has_none : documents.get account_payload (codes "data") ≡ none
unfolding text_eq
bare_has_none = refl

parse_user_events-envelope_example :
    parse_user_events documents texts wrapped_text ≡ parse_user_events documents texts bare_text
parse_user_events-envelope_example =
    parse_user_events-envelope documents texts wrapped_text bare_text wrapped_payload
      account_payload wrapped_is_read bare_is_read wrapped_has_data bare_has_none
