-- ===== src/Spot/Handler.antt =====
-- crates/binance-spot-exec/src/handler.rs, ingress.rs and `exec_subscription_symbols` of lib.rs. All
-- handlers of a hub share one context: it goes through each call beside them. A mutex that is
-- not poisoned is assumed. `none` is a panic of the account book's sums.
use trolly.Prelude.{
  ℕ, Text, text_Eq, to_uppercase, Bool, true, false, not, ◌||◌, Option, none, some, List, [], ◌∷◌,
  ◌++◌, if◌then◌else◌, ◌==◌, HashMap, lookup, insert, ok, err, Json, Frames,
}
use trolly.Spot.Events.{
  SpotUserEvent, execution_report, outbound_account_position, balance_update, list_status,
  external_lock_update, event_stream_terminated, account_route_id, route_id,
}
use trolly.Spot.Account.{AccountBook, apply}
use trolly.Spot.Parse.{parse_user_data_message}

-- `UnboundedSender`: what was sent so far, and whether the receiver is still there.
pub record Events : Type 0 where
  pub receiver_alive : Bool
  pub sent : List SpotUserEvent

pub record SpotExecContext : Type 0 where
  pub events : Events
  pub account : AccountBook

pub record SpotExecHandler : Type 0 where
  pub route_id : Text
  pub account_events_only : Bool

-- `SpotExecHandler::new`
unfoldable pub new_handler : Text → SpotExecHandler
new_handler id = record { route_id = id; account_events_only = id == account_route_id }

abbrev pub is_account_event : SpotUserEvent → Bool
is_account_event (outbound_account_position p) = true
is_account_event (balance_update u) = true
is_account_event (external_lock_update l) = true
is_account_event (event_stream_terminated t) = true
is_account_event (execution_report r) = false
is_account_event (list_status s) = false

abbrev pub is_symbol_event : SpotUserEvent → Bool
is_symbol_event (execution_report r) = true
is_symbol_event (list_status s) = true
is_symbol_event (outbound_account_position p) = false
is_symbol_event (balance_update u) = false
is_symbol_event (external_lock_update l) = false
is_symbol_event (event_stream_terminated t) = false

unfoldable pub accepts : SpotExecHandler → SpotUserEvent → Bool
accepts h event = if h.account_events_only then is_account_event event else is_symbol_event event

-- `let _ = events.send(event)`: a send to a dropped receiver is ignored.
unfoldable pub send : Events → SpotUserEvent → Events
send tx event = if tx.receiver_alive then record tx { sent = tx.sent ++ event ∷ [] } else tx

abbrev pub updated : Events → Option AccountBook → Option SpotExecContext
updated events none = none
updated events (some account) = some (record { events = events; account = account })

unfoldable pub handle_update :
    SpotExecHandler → SpotExecContext → SpotUserEvent → Option SpotExecContext
unfolding accepts send apply route_id
handle_update h ctx event =
    if not (route_id event == h.route_id) || not (accepts h event)
    then some ctx
    else updated (send ctx.events event) (apply ctx.account event)

pub record SpotHub : Type 0 where
  pub writers : HashMap Text SpotExecHandler
  pub ctx : SpotExecContext

abbrev pub with_ctx : SpotHub → Option SpotExecContext → Option SpotHub
with_ctx hub none = none
with_ctx hub (some ctx) = some (record hub { ctx = ctx })

unfoldable pub route_event : SpotHub → SpotUserEvent → Option SpotHub
unfolding handle_update
route_event hub event = elim (lookup (route_id event) hub.writers) [
  | none ↦ some hub
  | some handler ↦ with_ctx hub (handle_update handler hub.ctx event)
]

module _ (js : Json) (as_bool : js.Value → Option Bool) (ws : Frames) where
  unfoldable pub ingest_user_data : SpotHub → ws.Message → Option SpotHub
  unfolding route_event
  ingest_user_data hub msg = elim (parse_user_data_message js as_bool ws msg) [
    | ok (some event) ↦ route_event hub event
    | ok none ↦ some hub
    | err e ↦ some hub
  ]

abbrev pub contains : List Text → Text → Bool
contains [] id = false
contains (s ∷ ss) id = s == id || contains ss id

abbrev pub insert_handlers : List Text → HashMap Text SpotExecHandler → HashMap Text SpotExecHandler
insert_handlers [] m = m
insert_handlers (r ∷ rs) m = insert_handlers rs (insert r (new_handler r) m)

-- `upper` is the Unicode table of `char::to_uppercase`.
module _ (upper : ℕ → Text) where
  abbrev upper_all : List Text → List Text
  upper_all [] = []
  upper_all (s ∷ ss) = to_uppercase upper s ∷ upper_all ss

  unfoldable pub exec_subscription_symbols : List Text → List Text
  exec_subscription_symbols symbols =
      let out = upper_all symbols in
      if contains out account_route_id then out else out ++ account_route_id ∷ []

  unfoldable pub build_multiplexor : List Text → SpotExecContext → SpotHub
  unfolding exec_subscription_symbols new_handler
  build_multiplexor symbols ctx = record {
    writers = insert_handlers (exec_subscription_symbols symbols) [];
    ctx = ctx;
  }
