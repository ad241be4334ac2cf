-- ===== src/Spot/Account.antt =====
-- crates/binance-spot-exec/src/account.rs: the account book. `none` is a panic of a decimal sum.
use trolly.Prelude.{
  ℤ, Text, text_Eq, codes, int_Eq, Bool, ◌||◌, Option, none, some, List, [], ◌∷◌, if◌then◌else◌,
  ◌==◌, HashMap, lookup, insert, remove,
}
use trolly.Spot.Events.{
  ExecutionReport, AssetBalance, OutboundAccountPosition, BalanceUpdate, ExternalLockUpdate,
  SpotUserEvent, execution_report, outbound_account_position, balance_update, list_status,
  external_lock_update, event_stream_terminated,
}
use trolly.Spot.Decimal.{add_decimal_strings}

pub record AccountBook : Type 0 where
  pub balances : HashMap Text AssetBalance
  pub open_orders : HashMap ℤ ExecutionReport

-- `Default`
abbrev pub empty_book : AccountBook
empty_book = record { balances = []; open_orders = [] }

abbrev put_balances : List AssetBalance → HashMap Text AssetBalance → HashMap Text AssetBalance
put_balances [] m = m
put_balances (b ∷ bs) m = put_balances bs (insert b.asset b m)

unfoldable pub apply_position : AccountBook → OutboundAccountPosition → AccountBook
apply_position a p = record a { balances = put_balances p.balances a.balances }

-- `entry(asset).or_insert_with(…)`
abbrev entry_or_zero : Text → Option AssetBalance → AssetBalance
entry_or_zero asset none = record { asset = asset; free = codes "0"; locked = codes "0" }
entry_or_zero asset (some b) = b

abbrev or_panic {ℓ κ} : {A : Type ℓ} {B : Type κ} → (A → B) → Option A → Option B
or_panic f none = none
or_panic f (some a) = some (f a)

unfoldable apply_balance_delta : AccountBook → BalanceUpdate → Option AccountBook
unfolding add_decimal_strings
apply_balance_delta a u =
    let entry = entry_or_zero u.asset (lookup u.asset a.balances) in
    or_panic
      (λ free. record a { balances = insert u.asset (record entry { free = free }) a.balances })
      (add_decimal_strings entry.free u.delta)

unfoldable apply_external_lock : AccountBook → ExternalLockUpdate → Option AccountBook
unfolding add_decimal_strings
apply_external_lock a l =
    let entry = entry_or_zero l.asset (lookup l.asset a.balances) in
    or_panic
      (λ locked. record a {
        balances = insert l.asset (record entry { locked = locked }) a.balances;
      })
      (add_decimal_strings entry.locked l.delta)

unfoldable is_closed : Text → Bool
is_closed status =
    status == codes "FILLED"
    || status == codes "CANCELED"
    || status == codes "EXPIRED"
    || status == codes "REJECTED"

unfoldable apply_execution_report : AccountBook → ExecutionReport → AccountBook
unfolding is_closed
apply_execution_report a r = record a {
  open_orders =
      if is_closed r.order_status
      then remove r.order_id a.open_orders
      else insert r.order_id r a.open_orders;
}

unfoldable pub apply : AccountBook → SpotUserEvent → Option AccountBook
unfolding apply_position apply_balance_delta apply_external_lock apply_execution_report
apply a (outbound_account_position p) = some (apply_position a p)
apply a (balance_update u) = apply_balance_delta a u
apply a (execution_report r) = some (apply_execution_report a r)
apply a (external_lock_update l) = apply_external_lock a l
apply a (list_status s) = some a
apply a (event_stream_terminated t) = some a
