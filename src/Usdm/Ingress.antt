-- ===== src/Usdm/Ingress.antt =====
-- crates/binance-usdm-exec/src/ingress.rs: the fan-out of one payload into routed updates.
use trolly.Prelude.{
  Text, text_Eq, Option, none, some, List, [], ◌∷◌, HashMap, lookup, insert, Floats, Json, Frames,
  ok, err,
}
use trolly.Usdm.Types.{UsdmExecUpdate, routing_id, account_routing_id}
use trolly.Usdm.Parse.{parse_user_events}
use trolly.Usdm.Handler.{UsdmExecContext, UsdmExecHandler, Sender, new_context, new_handler, apply}

-- `MonitorMultiplexor<UsdmExecHandler, UsdmExec>` with the context that its handlers share.
pub record UsdmHub : Type 0 where
  pub writers : HashMap Text UsdmExecHandler
  pub ctx : UsdmExecContext

unfoldable pub insert_handlers :
    List Text → HashMap Text UsdmExecHandler → HashMap Text UsdmExecHandler
unfolding new_handler
insert_handlers [] m = m
insert_handlers (s ∷ ss) m = insert_handlers ss (insert s (new_handler s) m)

unfoldable build_multiplexor_with_context : List Text → UsdmExecContext → UsdmHub
unfolding insert_handlers
build_multiplexor_with_context symbols ctx = record {
  writers = insert account_routing_id (new_handler account_routing_id) (insert_handlers symbols []);
  ctx = ctx;
}

unfoldable pub build_multiplexor : List Text → Option Sender → UsdmHub
unfolding new_context build_multiplexor_with_context
build_multiplexor symbols outbound = build_multiplexor_with_context symbols (new_context outbound)

module _ (fl : Floats) where
  -- The handler is changed in place: it is put back under the key that found it.
  unfoldable pub route_update : UsdmHub → UsdmExecUpdate → UsdmHub
  unfolding routing_id
  route_update hub event = elim (lookup (routing_id event) hub.writers) [
    | none ↦ hub
    | some handler ↦
        let (handler', ctx) = apply fl handler hub.ctx event in
        record { writers = insert (routing_id event) handler' hub.writers; ctx = ctx }
  ]

  -- The loop of `ingest_user_data`.
  unfoldable pub route_all : UsdmHub → List UsdmExecUpdate → UsdmHub
  route_all hub [] = hub
  route_all hub (event ∷ events) = route_all (route_update hub event) events

  module _ (js : Json) (ws : Frames) where
    -- A payload that cannot be read is logged and dropped.
    unfoldable pub ingest_user_data : UsdmHub → ws.Message → UsdmHub
    unfolding route_all
    ingest_user_data hub msg = elim (parse_user_events js ws msg) [
      | ok events ↦ route_all hub events
      | err e ↦ hub
    ]

    -- A stream of frames, one after the other.
    unfoldable pub ingest_stream : UsdmHub → List ws.Message → UsdmHub
    unfolding ingest_user_data
    ingest_stream hub [] = hub
    ingest_stream hub (msg ∷ msgs) = ingest_stream (ingest_user_data hub msg) msgs
