-- ===== src/Strategy/Delivery.antt =====
-- What the runtime hands to its egress, and in which order.
use trolly.Prelude.{
  Text, text_Eq, ◌≡◌, refl, sym, ◌∙◌, Option, none, some, List, [], ◌∷◌, ◌++◌, Result, ok, err,
  Result-cases, Option-cases, HashMap, lookup, Frames, inl, inr, arith,
}
use trolly.Strategy.Event.{StreamEvent, routing_id}
use trolly.Strategy.Egress.{OutboundMessage, StreamEgress, Strategy}
use trolly.Strategy.Runtime.{
  EventFormat, StrategyRuntime, dispatch_all, ingest, route_message, parse_envelope, ParseError,
}

module _ (ws : Frames) (format : EventFormat) (st : Strategy ws.Message)
    (eg : StreamEgress ws.Message) where
  -- `ingest` for each event in turn.
  abbrev pub ingest_all :
      StrategyRuntime ws format st eg → List StreamEvent → StrategyRuntime ws format st eg
  ingest_all rt [] = rt
  ingest_all rt (event ∷ events) = ingest_all (ingest ws format st eg rt event).0 events

  -- The commands that a strategy gives for a list of events, from a state on.
  abbrev pub commands_of : st.State → List StreamEvent → List (OutboundMessage ws.Message)
  commands_of s [] = []
  commands_of s (event ∷ events) =
      (st.on_event s event).1 ++ commands_of (st.on_event s event).0 events

  abbrev keep : Option (Unit {0}) → StreamEvent → List StreamEvent
  keep none event = []
  keep (some _) event = event ∷ []

  -- The events of a list of frames that are read and whose routing id has a handler.
  abbrev known :
      HashMap Text (Unit {0}) → Result StreamEvent (ParseError format.Error) → List StreamEvent
  known writers (err e) = []
  known writers (ok event) = keep (lookup (routing_id event) writers) event

  abbrev pub routed : HashMap Text (Unit {0}) → List ws.Message → List StreamEvent
  routed writers [] = []
  routed writers (msg ∷ msgs) = known writers (parse_envelope ws format msg) ++ routed writers msgs

  abbrev pub route_all :
      HashMap Text (Unit {0})
      → StrategyRuntime ws format st eg
      → List ws.Message
      → StrategyRuntime ws format st eg
  route_all writers rt [] = rt
  route_all writers rt (msg ∷ msgs) =
      route_all writers (route_message ws format st eg writers rt msg) msgs

  -- A dispatch of two lists of commands is that of the first and, if no command of it failed, of
  -- the second: a failure ends the loop at the command that failed.
  pub dispatch_all-append :
      (e : eg.Egress) (cs ds : List (OutboundMessage ws.Message))
      → dispatch_all ws format st eg e (cs ++ ds) ≡ elim (dispatch_all ws format st eg e cs).1 [
        | ok _ ↦ dispatch_all ws format st eg (dispatch_all ws format st eg e cs).0 ds
        | err x ↦ dispatch_all ws format st eg e cs
      ]
  unfolding dispatch_all
  dispatch_all-append e [] ds = refl
  dispatch_all-append e (c ∷ cs) ds = ground (arith, dispatch_all-append (eg.dispatch e c).0 cs ds)

  -- Routing frames through handlers that share a runtime is feeding the runtime the events that
  -- are read and have a handler, in the order of the frames.
  pub route_all-ingest_all :
      (writers : HashMap Text (Unit {0})) (rt : StrategyRuntime ws format st eg)
      (msgs : List ws.Message)
      → route_all writers rt msgs ≡ ingest_all rt (routed writers msgs)
  unfolding route_message
  route_all-ingest_all writers rt [] = refl
  route_all-ingest_all writers rt (msg ∷ msgs) =
      elim (Result-cases (parse_envelope ws format msg)) [
        | inr (x, e) ↦ rw (e, route_message) (route_all-ingest_all writers rt msgs)
        | inl (event, e) ↦ elim (Option-cases (lookup (routing_id event) writers)) [
          | inl n ↦
              rw (e, route_message) (rw (n, route_message) (route_all-ingest_all writers rt msgs))
          | inr (u, k) ↦
              rw (e, route_message)
                (rw (k, route_message)
                  (route_all-ingest_all writers (ingest ws format st eg rt event).0 msgs))
        ]
      ]

  -- The egress after a dispatch of each command in turn, whatever they return.
  abbrev pub dispatched : eg.Egress → List (OutboundMessage ws.Message) → eg.Egress
  dispatched e [] = e
  dispatched e (c ∷ cs) = dispatched (eg.dispatch e c).0 cs

  dispatched-append :
      (e : eg.Egress) (cs ds : List (OutboundMessage ws.Message))
      → dispatched e (cs ++ ds) ≡ dispatched (dispatched e cs) ds
  dispatched-append e [] ds = refl
  dispatched-append e (c ∷ cs) ds = dispatched-append (eg.dispatch e c).0 cs ds

  module _
      (accepts : (e : eg.Egress) (c : OutboundMessage ws.Message)
        → (eg.dispatch e c).1 ≡ ok tt) where
    dispatch_all-dispatched :
        (e : eg.Egress) (cs : List (OutboundMessage ws.Message))
        → dispatch_all ws format st eg e cs ≡ (dispatched e cs, ok tt)
    unfolding dispatch_all
    dispatch_all-dispatched e [] = refl
    dispatch_all-dispatched e (c ∷ cs) =
        rw (dispatch_all, accepts e c) (dispatch_all-dispatched (eg.dispatch e c).0 cs)

    -- With an egress that does not fail, the runtime hands over exactly the strategy's commands,
    -- those of each event in turn: the egress ends as it does when they are dispatched one after
    -- another.
    pub egress-ingest_all :
        (rt : StrategyRuntime ws format st eg) (events : List StreamEvent)
        → (ingest_all rt events).egress ≡ dispatched rt.egress (commands_of rt.strategy events)
    unfolding ingest
    egress-ingest_all rt [] = refl
    egress-ingest_all rt (event ∷ events) =
        let (s, cs) = st.on_event rt.strategy event in
        egress-ingest_all (ingest ws format st eg rt event).0 events
        ∙ rw (dispatch_all-dispatched rt.egress cs)
            (sym (dispatched-append rt.egress cs (commands_of s events)))
