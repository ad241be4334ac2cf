-- ===== src/Usdm/Account.antt =====
-- crates/binance-usdm-exec/src/account.rs: balances, positions and the latest margin call, and
-- the same two methods of `SymbolBookkeeping` in types.rs.
use trolly.Prelude.{
  Text, text_Eq, codes, trim, Bool, true, false, ◌||◌, Option, none, some, List, [], ◌∷◌, HashMap,
  lookup, insert, remove, if◌then◌else◌, ltb, ◌==◌, Floats,
}
use trolly.Usdm.Types.{
  BalanceChange, PositionChange, MarginCall, PositionKey, position_key, key_Eq, SymbolBookkeeping,
}

pub record UsdmAccountBookkeeping : Type 0 where
  pub balances : HashMap Text BalanceChange
  pub positions : HashMap PositionKey PositionChange
  pub latest_margin_call : Option MarginCall

-- `Default`
abbrev pub empty_account : UsdmAccountBookkeeping
empty_account = record { balances = []; positions = []; latest_margin_call = none }

abbrev pub empty_symbol : SymbolBookkeeping
empty_symbol = record { open_orders = []; positions = []; latest_margin_call = none }

unfoldable pub apply_balance : UsdmAccountBookkeeping → BalanceChange → UsdmAccountBookkeeping
apply_balance a b = record a { balances = insert b.asset b a.balances }

unfoldable pub balance : UsdmAccountBookkeeping → Text → Option BalanceChange
balance a asset = lookup asset a.balances

unfoldable pub position : UsdmAccountBookkeeping → Text → Text → Option PositionChange
position a symbol side = lookup (record { symbol = symbol; position_side = side }) a.positions

-- The values of a map that pass a filter, in the map's own order.
values_of : Text → HashMap PositionKey PositionChange → List PositionChange
values_of symbol [] = []
values_of symbol ((k, p) ∷ m) =
    if p.symbol == symbol then p ∷ values_of symbol m else values_of symbol m

unfoldable positions_for_symbol : UsdmAccountBookkeeping → Text → List PositionChange
unfolding values_of
positions_for_symbol a symbol = values_of symbol a.positions

-- `is_some_and(|existing| call.event_time < existing.event_time)`
unfoldable pub is_superseded : Option MarginCall → MarginCall → Bool
is_superseded none call = false
is_superseded (some existing) call = ltb call.event_time existing.event_time

-- The new state, and whether it was updated.
unfoldable pub apply_margin_call :
    UsdmAccountBookkeeping → MarginCall → UsdmAccountBookkeeping × Bool
unfolding is_superseded
apply_margin_call a call =
    if is_superseded a.latest_margin_call call
    then (a, false)
    else (record a { latest_margin_call = some call }, true)

module _ (fl : Floats) where
  parses_to_zero : Text → Bool
  parses_to_zero s = elim (fl.parse s) [ none ↦ false | some v ↦ fl.is_zero v ]

  unfoldable pub is_position_closed : Text → Bool
  unfolding parses_to_zero
  is_position_closed amount =
      let trimmed = trim amount in
      if trimmed == [] || trimmed == codes "0" then true else parses_to_zero trimmed

  -- The body that `UsdmAccountBookkeeping::apply_position` and
  -- `SymbolBookkeeping::apply_position` share.
  unfoldable pub update_leg :
      HashMap PositionKey PositionChange → PositionChange → HashMap PositionKey PositionChange
  update_leg m p =
      if is_position_closed p.position_amount
      then remove (position_key p) m
      else insert (position_key p) p m

  unfoldable pub apply_position : UsdmAccountBookkeeping → PositionChange → UsdmAccountBookkeeping
  unfolding update_leg
  apply_position a p = record a { positions = update_leg a.positions p }

  unfoldable pub apply_symbol_position : SymbolBookkeeping → PositionChange → SymbolBookkeeping
  unfolding update_leg
  apply_symbol_position s p = record s { positions = update_leg s.positions p }
