-- ===== src/Usdm/Consistency.antt =====
-- The per-symbol books against the shared account book, over any history of updates.
use trolly.Prelude.{
  Text, text_eq_iff, text_Eq, text_eq, ◌≡◌, ◌≢◌, refl, sym, true, Option, none, some, lookup,
  insert, lookup-insert, Floats, arith, Option-cases, Result-cases, Json, Frames, inl, inr, HashMap,
  List, [], ◌∷◌, beq_refl,
}
use trolly.Usdm.Types.{
  PositionChange, PositionKey, UsdmExecUpdate, key_Eq, order_trade, balance_change, position_change,
  listen_key_expired, margin_call, routing_id, account_routing_id,
}
use trolly.Usdm.Account.{apply_margin_call, apply_balance, apply_position}
use trolly.Usdm.Handler.{
  UsdmExecHandler, UsdmExecContext, Sender, apply, forward, margin_arm, apply_order, new_handler,
}
use trolly.Usdm.Ingress.{
  UsdmHub, insert_handlers, build_multiplexor, route_update, route_all, ingest_user_data,
  ingest_stream,
}
use trolly.Usdm.Parse.{parse_user_events}
use trolly.Usdm.Legs.{apply-legs_own, apply-legs_other}

-- The leg that the handler of the key's symbol holds, if there is such a handler.
abbrev leg_of : Option UsdmExecHandler → PositionKey → Option PositionChange
leg_of none k = none
leg_of (some h) k = lookup k h.state.positions

abbrev held_leg : UsdmHub → PositionKey → Option PositionChange
held_leg hub k = leg_of (lookup k.symbol hub.writers) k

-- The account handler, and it alone, takes account events, and it holds the shared margin call.
abbrev pub IsAccountHandler : UsdmHub → Option UsdmExecHandler → Type 0
IsAccountHandler hub none = ⊥
IsAccountHandler hub (some h) =
    (h.account_events_only ≡ true)
    × (h.state.latest_margin_call ≡ hub.ctx.account.latest_margin_call)

pub record IsConsistent (hub : UsdmHub) : Type 0 where
  pub legs : (k : PositionKey) → lookup k hub.ctx.account.positions ≡ held_leg hub k
  pub margin : IsAccountHandler hub (lookup account_routing_id hub.writers)

module _ (fl : Floats) where
  route_update-legs :
      (hub : UsdmHub) (u : UsdmExecUpdate) (k : PositionKey)
      → lookup k hub.ctx.account.positions ≡ held_leg hub k
      → lookup k (route_update fl hub u).ctx.account.positions ≡ held_leg (route_update fl hub u) k
  unfolding route_update
  route_update-legs hub u k e = elim (Option-cases (lookup (routing_id u) hub.writers)) [
    | inl missing ↦ rw (missing, route_update) e
    | inr (h, found) ↦ ground (
      arith,
      found,
      lookup-insert k.symbol (routing_id u) (apply fl h hub.ctx u).0 hub.writers,
      text_eq_iff (routing_id u) k.symbol,
      apply-legs_own fl h hub.ctx u k,
      apply-legs_other fl h hub.ctx u k,
    )
  ]

  apply-margin_account :
      (h : UsdmExecHandler) (c : UsdmExecContext) (u : UsdmExecUpdate)
      → h.account_events_only ≡ true
      → h.state.latest_margin_call ≡ c.account.latest_margin_call
      → let (h', c') = apply fl h c u in
        (h'.account_events_only ≡ true)
        × (h'.state.latest_margin_call ≡ c'.account.latest_margin_call)
  unfolding apply forward margin_arm apply_margin_call apply_balance
  apply-margin_account h c (order_trade o) a e = ground arith
  apply-margin_account h c (position_change p) a e = ground arith
  apply-margin_account h c (balance_change b) a e = ground arith
  apply-margin_account h c (margin_call m) a e = ground arith
  apply-margin_account h c listen_key_expired a e = ground arith

  apply-margin_symbol :
      (h : UsdmExecHandler) (c : UsdmExecContext) (u : UsdmExecUpdate)
      → routing_id u ≢ account_routing_id
      → (apply fl h c u).1.account.latest_margin_call ≡ c.account.latest_margin_call
  unfolding apply forward apply_order apply_position routing_id
  apply-margin_symbol h c (order_trade o) n = ground arith
  apply-margin_symbol h c (position_change p) n = ground arith
  apply-margin_symbol h c (balance_change b) n = absurd (n refl)
  apply-margin_symbol h c (margin_call m) n = absurd (n refl)
  apply-margin_symbol h c listen_key_expired n = absurd (n refl)

  route_update-margin :
      (hub : UsdmHub) (u : UsdmExecUpdate)
      → IsAccountHandler hub (lookup account_routing_id hub.writers)
      → IsAccountHandler
          (route_update fl hub u)
          (lookup account_routing_id (route_update fl hub u).writers)
  unfolding route_update
  route_update-margin hub u e = elim (Option-cases (lookup (routing_id u) hub.writers)) [
    | inl missing ↦ rw (missing, route_update) e
    | inr (h, found) ↦ ground (
      arith,
      found,
      lookup-insert account_routing_id (routing_id u) (apply fl h hub.ctx u).0 hub.writers,
      text_eq_iff (routing_id u) account_routing_id,
      apply-margin_account h hub.ctx u,
      apply-margin_symbol h hub.ctx u,
    )
  ]

  pub route_update-IsConsistent :
      (hub : UsdmHub) (u : UsdmExecUpdate) → IsConsistent hub → IsConsistent (route_update fl hub u)
  route_update-IsConsistent hub u v = record {
    legs = λ k. route_update-legs hub u k (v.legs k);
    margin = route_update-margin hub u v.margin;
  }

  pub route_all-IsConsistent :
      (hub : UsdmHub) (us : List UsdmExecUpdate)
      → IsConsistent hub
      → IsConsistent (route_all fl hub us)
  unfolding route_all
  route_all-IsConsistent hub [] v = v
  route_all-IsConsistent hub (u ∷ us) v =
      route_all-IsConsistent (route_update fl hub u) us (route_update-IsConsistent hub u v)

abbrev HasNoLegs : HashMap Text UsdmExecHandler → Type 0
HasNoLegs m = (k : PositionKey) → leg_of (lookup k.symbol m) k ≡ none

insert-HasNoLegs :
    (s : Text) (m : HashMap Text UsdmExecHandler)
    → HasNoLegs m
    → HasNoLegs (insert s (new_handler s) m)
unfolding new_handler lookup
insert-HasNoLegs s m e k = ground (arith, e k, lookup-insert k.symbol s (new_handler s) m)

insert_handlers-HasNoLegs :
    (ss : List Text) (m : HashMap Text UsdmExecHandler)
    → HasNoLegs m
    → HasNoLegs (insert_handlers ss m)
unfolding insert_handlers
insert_handlers-HasNoLegs [] m e = e
insert_handlers-HasNoLegs (s ∷ ss) m e =
    insert_handlers-HasNoLegs ss (insert s (new_handler s) m) (insert-HasNoLegs s m e)

-- Whatever the handlers' context, the account handler is in place.
lookup-account :
    (m : HashMap Text UsdmExecHandler)
    → lookup account_routing_id (insert account_routing_id (new_handler account_routing_id) m)
      ≡ some (new_handler account_routing_id)
lookup-account m =
    rw (lookup-insert account_routing_id account_routing_id (new_handler account_routing_id) m)
      (rw (beq_refl account_routing_id))

pub build_multiplexor-IsConsistent :
    (symbols : List Text) (outbound : Option Sender)
    → IsConsistent (build_multiplexor symbols outbound)
unfolding build_multiplexor new_handler text_eq lookup
build_multiplexor-IsConsistent symbols outbound = record {
  legs = λ k. sym (
      insert-HasNoLegs account_routing_id (insert_handlers symbols [])
        (insert_handlers-HasNoLegs symbols [] (λ j. refl)) k);
  margin = rw (lookup-account (insert_handlers symbols [])) (refl, refl);
}

module _ (fl : Floats) (js : Json) (ws : Frames) where
  ingest_user_data-IsConsistent :
      (hub : UsdmHub) (msg : ws.Message)
      → IsConsistent hub
      → IsConsistent (ingest_user_data fl js ws hub msg)
  unfolding ingest_user_data
  ingest_user_data-IsConsistent hub msg v = elim (Result-cases (parse_user_events js ws msg)) [
    | inl (us, e) ↦ rw (e, ingest_user_data) (route_all-IsConsistent fl hub us v)
    | inr (x, e) ↦ rw (e, ingest_user_data) v
  ]

  ingest_stream-IsConsistent :
      (hub : UsdmHub) (msgs : List ws.Message)
      → IsConsistent hub
      → IsConsistent (ingest_stream fl js ws hub msgs)
  unfolding ingest_stream
  ingest_stream-IsConsistent hub [] v = v
  ingest_stream-IsConsistent hub (msg ∷ msgs) v =
      ingest_stream-IsConsistent (ingest_user_data fl js ws hub msg) msgs
        (ingest_user_data-IsConsistent hub msg v)

  -- Whatever frames reach a hub that `build_multiplexor` made, readable or not, the shared account
  -- book holds for every leg exactly what the handler of the leg's symbol holds (nothing, where no
  -- handler has the symbol), and the account handler is in place with the shared margin call.
  pub ingest_stream-build_multiplexor :
      (symbols : List Text) (outbound : Option Sender) (msgs : List ws.Message)
      → IsConsistent (ingest_stream fl js ws (build_multiplexor symbols outbound) msgs)
  ingest_stream-build_multiplexor symbols outbound msgs =
      ingest_stream-IsConsistent _ msgs (build_multiplexor-IsConsistent symbols outbound)
