-- ===== src/Usdm/Legs.antt =====
-- The position legs under one update: what `apply` does to the handler's map and to the shared one.
use trolly.Prelude.{
  ◌≡◌, ◌≢◌, refl, Option, none, some, lookup, lookup-insert, lookup-remove, if◌then◌else◌, ◌==◌,
  Floats, arith, HashMap,
}
use trolly.Usdm.Types.{
  PositionChange, PositionKey, position_key, key_Eq, key_eq_iff, UsdmExecUpdate, order_trade,
  balance_change, position_change, listen_key_expired, margin_call, routing_id,
}
use trolly.Usdm.Account.{
  apply_balance, apply_position, apply_symbol_position, update_leg, is_position_closed,
  apply_margin_call,
}
use trolly.Usdm.Handler.{UsdmExecHandler, UsdmExecContext, apply, forward, apply_order, margin_arm}

module _ (fl : Floats) where
  -- What a report says of its own leg.
  abbrev reported : PositionChange → Option PositionChange
  reported p = if is_position_closed fl p.position_amount then none else some p

  -- A report decides its own leg and leaves every other leg alone.
  pub lookup-update_leg :
      (k : PositionKey) (m : HashMap PositionKey PositionChange) (p : PositionChange)
      → lookup k (update_leg fl m p) ≡ (if position_key p == k then reported p else lookup k m)
  unfolding update_leg
  lookup-update_leg k m p =
      ground (arith, lookup-insert k (position_key p) p m, lookup-remove k (position_key p) m)

  pub apply-legs_own :
      (h : UsdmExecHandler) (c : UsdmExecContext) (u : UsdmExecUpdate) (k : PositionKey)
      → lookup k h.state.positions ≡ lookup k c.account.positions
      → let (h', c') = apply fl h c u in lookup k h'.state.positions ≡ lookup k c'.account.positions
  unfolding apply forward apply_position apply_symbol_position apply_balance margin_arm apply_order
      apply_margin_call
  apply-legs_own h c (order_trade o) k e = ground arith
  apply-legs_own h c (position_change p) k e =
      ground
        (arith, lookup-update_leg k h.state.positions p, lookup-update_leg k c.account.positions p)
  apply-legs_own h c (balance_change b) k e = ground arith
  apply-legs_own h c (margin_call m) k e = ground arith
  apply-legs_own h c listen_key_expired k e = e

  pub apply-legs_other :
      (h : UsdmExecHandler) (c : UsdmExecContext) (u : UsdmExecUpdate) (k : PositionKey)
      → k.symbol ≢ routing_id u
      → let (h', c') = apply fl h c u in
        (lookup k h'.state.positions ≡ lookup k h.state.positions)
        × (lookup k c'.account.positions ≡ lookup k c.account.positions)
  unfolding apply forward apply_position apply_symbol_position apply_balance margin_arm apply_order
      apply_margin_call routing_id
  apply-legs_other h c (order_trade o) k n = ground arith
  apply-legs_other h c (position_change p) k n = ground (
    arith,
    lookup-update_leg k h.state.positions p,
    lookup-update_leg k c.account.positions p,
    key_eq_iff (position_key p) k,
  )
  apply-legs_other h c (balance_change b) k n = ground arith
  apply-legs_other h c (margin_call m) k n = ground arith
  apply-legs_other h c listen_key_expired k n = (refl, refl)
