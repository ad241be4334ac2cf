-- ===== src/Strategy/Runtime.antt =====
-- crates/trolly-strategy/src/runtime.rs: `StrategyRuntime`, `StrategyHub`, the shared event handler
-- and `route_message`.
use trolly.Prelude.{
  Text, text_Eq, none, some, List, [], ◌∷◌, Result, ok, err, ok_or, map_err, ◌>>=◌, HashMap, lookup,
  Frames,
}
use trolly.Strategy.Event.{StreamEvent, routing_id}
use trolly.Strategy.Egress.{OutboundMessage, StreamEgress, Strategy}

pub data ParseError (E : Type 0) : Type 0 where
  not_text : ParseError E
  invalid_json : E → ParseError E

pub data IngestError (E F : Type 0) : Type 0 where
  parse : ParseError E → IngestError E F
  egress : F → IngestError E F

-- `serde_json` at the derived format of `StreamEvent`: what the program relies on is that an
-- event that was written is read back.
pub record EventFormat : Type 1 where
  pub Error : Type 0
  pub from_str : Text → Result StreamEvent Error
  pub to_string : StreamEvent → Text

module _ (ws : Frames) (format : EventFormat) where
  unfoldable pub parse_envelope : ws.Message → Result StreamEvent (ParseError format.Error)
  parse_envelope msg = do
    text ← ok_or (ws.as_text msg) not_text
    map_err invalid_json (format.from_str text)

  unfoldable envelope_message : StreamEvent → ws.Message
  envelope_message event = ws.of_text (format.to_string event)

  module _ (st : Strategy ws.Message) (eg : StreamEgress ws.Message) where
    -- The runtime behind the `Rc<RefCell<…>>` that all handlers share.
    pub record StrategyRuntime : Type 0 where
      pub strategy : st.State
      pub egress : eg.Egress

    -- The loop of `ingest`: `?` leaves at the first command that fails.
    unfoldable pub dispatch_all :
        eg.Egress → List (OutboundMessage ws.Message) → eg.Egress × Result (Unit {0}) eg.Error
    dispatch_all e [] = (e, ok tt)
    dispatch_all e (command ∷ commands) =
        let (e', r) = eg.dispatch e command in
        elim r [ ok _ ↦ dispatch_all e' commands | err x ↦ (e', err x) ]

    unfoldable pub ingest :
        StrategyRuntime → StreamEvent → StrategyRuntime × Result (Unit {0}) eg.Error
    unfolding dispatch_all
    ingest rt event =
        let (s, commands) = st.on_event rt.strategy event in
        let (e, r) = dispatch_all rt.egress commands in (record { strategy = s; egress = e }, r)

    -- `StrategyHub::ingest_message`
    unfoldable pub ingest_message :
        StrategyRuntime
        → ws.Message
        → StrategyRuntime × Result (Unit {0}) (IngestError format.Error eg.Error)
    unfolding parse_envelope ingest
    ingest_message rt msg = elim (parse_envelope msg) [
      | err e ↦ (rt, err (parse e))
      | ok event ↦ let (rt', r) = ingest rt event in (rt', map_err egress r)
    ]

    -- `route_message` over handlers that share one runtime: only the keys of `writers` matter.
    unfoldable pub route_message :
        HashMap Text (Unit {0}) → StrategyRuntime → ws.Message → StrategyRuntime
    unfolding parse_envelope ingest routing_id
    route_message writers rt msg = elim (parse_envelope msg) [
      | err e ↦ rt
      | ok event ↦ elim (lookup (routing_id event) writers) [
        | none ↦ rt
        | some _ ↦ (ingest rt event).0
      ]
    ]
