-- ===== src/Usdm/Handler.antt =====
-- crates/binance-usdm-exec/src/handler.rs. `build_multiplexor` clones one `UsdmExecContext` into
-- every handler, so all of them share one `Arc<Mutex<UsdmAccountBookkeeping>>` and one sender:
-- the context is passed through each call beside the handler. A mutex that is not poisoned is
-- assumed, and each handler's recorder (a test hook) is a list of its own.
use trolly.Prelude.{
  Text, text_Eq, codes, Bool, ◌||◌, Option, none, some, List, [], ◌∷◌, ◌++◌, insert, remove, int_Eq,
  if◌then◌else◌, ◌==◌, Floats,
}
use trolly.Usdm.Types.{
  OrderTradeUpdate, MarginCall, UsdmExecUpdate, order_trade, balance_change, position_change,
  listen_key_expired, margin_call, SymbolBookkeeping, account_routing_id,
}
use trolly.Usdm.Account.{
  UsdmAccountBookkeeping, empty_account, empty_symbol, apply_balance, apply_margin_call,
  apply_position, apply_symbol_position,
}

-- `UnboundedSender`: what was sent so far, and whether the receiver is still there.
pub record Sender : Type 0 where
  pub receiver_alive : Bool
  pub sent : List UsdmExecUpdate

pub record UsdmExecContext : Type 0 where
  pub outbound : Option Sender
  pub account : UsdmAccountBookkeeping

-- `UsdmExecContext::new`
unfoldable pub new_context : Option Sender → UsdmExecContext
new_context outbound = record { outbound = outbound; account = empty_account }

pub record UsdmExecHandler : Type 0 where
  pub routing_id : Text
  pub account_events_only : Bool
  pub state : SymbolBookkeeping
  pub recorded : Option (List UsdmExecUpdate)

-- `UsdmExecHandler::new`
unfoldable pub new_handler : Text → UsdmExecHandler
new_handler id = record {
  routing_id = id;
  account_events_only = id == account_routing_id;
  state = empty_symbol;
  recorded = none;
}

unfoldable with_recorder : Text → List UsdmExecUpdate → UsdmExecHandler
unfolding new_handler
with_recorder id recorded = record (new_handler id) { recorded = some recorded }

-- `let _ = tx.send(update)`: a send to a dropped receiver is ignored.
unfoldable pub send : Option Sender → UsdmExecUpdate → Option Sender
send none u = none
send (some tx) u =
    if tx.receiver_alive then some (record tx { sent = tx.sent ++ u ∷ [] }) else some tx

unfoldable keep_record :
    Option (List UsdmExecUpdate) → UsdmExecUpdate → Option (List UsdmExecUpdate)
keep_record none u = none
keep_record (some us) u = some (us ++ u ∷ [])

-- The statements after the `match`.
unfoldable pub forward :
    UsdmExecHandler × UsdmExecContext → UsdmExecUpdate → UsdmExecHandler × UsdmExecContext
unfolding send keep_record
forward (h, c) u =
    (record h { recorded = keep_record h.recorded u }, record c { outbound = send c.outbound u })

unfoldable pub is_open : OrderTradeUpdate → Bool
is_open o = o.order_status == codes "NEW" || o.order_status == codes "PARTIALLY_FILLED"

-- The `OrderTrade` arm's change to the open orders.
unfoldable pub apply_order : SymbolBookkeeping → OrderTradeUpdate → SymbolBookkeeping
unfolding is_open
apply_order s o = record s {
  open_orders =
      if is_open o then insert o.order_id o s.open_orders else remove o.order_id s.open_orders;
}

-- The `MarginCall` arm of the account handler.
unfoldable pub margin_arm :
    UsdmExecHandler → UsdmExecContext → MarginCall → UsdmExecHandler × UsdmExecContext
unfolding apply_margin_call
margin_arm h c m =
    let (account, applied) = apply_margin_call c.account m in
    (
      if applied then record h { state = record (h.state) { latest_margin_call = some m } } else h,
      record c { account = account },
    )

module _ (fl : Floats) where
  -- `apply` returns `Ok(())` on every path.
  unfoldable pub apply :
      UsdmExecHandler → UsdmExecContext → UsdmExecUpdate → UsdmExecHandler × UsdmExecContext
  unfolding forward apply_order apply_position apply_symbol_position apply_balance margin_arm
  apply h c (order_trade o) =
      if h.account_events_only
      then (h, c)
      else forward (record h { state = apply_order h.state o }, c) (order_trade o)
  apply h c (position_change p) =
      if h.account_events_only
      then (h, c)
      else forward
          (
            record h { state = apply_symbol_position fl h.state p },
            record c { account = apply_position fl c.account p },
          )
          (position_change p)
  apply h c (balance_change b) =
      if h.account_events_only
      then forward (h, record c { account = apply_balance c.account b }) (balance_change b)
      else (h, c)
  apply h c (margin_call m) =
      if h.account_events_only then forward (margin_arm h c m) (margin_call m) else (h, c)
  apply h c listen_key_expired = forward (h, c) listen_key_expired
