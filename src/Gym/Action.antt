-- ===== src/Gym/Action.antt =====
-- crates/trolly-gym/src/action.rs, and the indices of actions in replay.rs.
use trolly.Prelude.{ℤ, pos, int_eqb, int_Eq, Text, codes, Option, none, if◌then◌else◌, ◌==◌, Result}
use trolly.Strategy.Egress.{OutboundMessage, order, subscribe, StreamEgress}

pub data Action : Type 0 where
  hold buy sell : Action

module _ {M : Type 0} where
  abbrev order_message : Text → Text → Text → Option Text → OutboundMessage M
  order_message side symbol qty price = order (record {
    symbol = symbol;
    side = side;
    qty = qty;
    price = price;
    time_in_force = none;
    position_side = none;
  })

  unfoldable pub to_outbound : Action → Text → Text → Option Text → OutboundMessage M
  to_outbound hold symbol qty price = subscribe symbol (codes "depth")
  to_outbound buy symbol qty price = order_message (codes "BUY") symbol qty price
  to_outbound sell symbol qty price = order_message (codes "SELL") symbol qty price

module _ (M : Type 0) (eg : StreamEgress M) where
  -- `Action::dispatch`
  unfoldable pub dispatch_action :
      Action → eg.Egress → Text → Text → Option Text → eg.Egress × Result (Unit {0}) eg.Error
  unfolding to_outbound
  dispatch_action action egress symbol qty price =
      eg.dispatch egress (to_outbound action symbol qty price)

unfoldable pub action_index : Action → ℤ
action_index hold = pos 0
action_index buy = pos 1
action_index sell = pos 2

-- Every index but 0 and 1 is a sale.
unfoldable pub action_from_index : ℤ → Action
unfolding int_eqb
action_from_index index = if index == pos 0 then hold else if index == pos 1 then buy else sell
