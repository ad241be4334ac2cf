-- ===== src/Spot/Delivery.antt =====
-- Which events the shared account book and the channel get.
use trolly.Prelude.{
  ℕ, Text, text_Eq, text_eq_iff, ◌≡◌, refl, sym, ap, ◌∙◌, Bool, true, false, ◌&&◌, Option, none,
  some, List, [], ◌∷◌, ◌++◌, if◌then◌else◌, ◌==◌, HashMap, lookup, insert, lookup-insert,
  Result-cases, Option-cases, Bool-cases, inl, inr, ok, err, Result, Json, Frames, arith,
}
use trolly.Spot.Events.{SpotUserEvent, account_route_id, route_id}
use trolly.Spot.Account.{apply}
use trolly.Spot.Parse.{parse_user_data_message, ParseError}
use trolly.Spot.Handler.{
  SpotExecContext, SpotExecHandler, SpotHub, new_handler, is_account_event, is_symbol_event,
  accepts, send, updated, with_ctx, handle_update, route_event, ingest_user_data, contains,
  exec_subscription_symbols, insert_handlers, build_multiplexor,
}

-- The handler of an id, where the hub has one for each of its routes and no other.
abbrev handler_for : Bool → Text → Option SpotExecHandler
handler_for false id = none
handler_for true id = some (new_handler id)

abbrev HasRoutes : (Text → Bool) → SpotHub → Type 0
HasRoutes routes hub = (id : Text) → lookup id hub.writers ≡ handler_for (routes id) id

-- An event is delivered if its route is subscribed and it is of the kind that the route takes.
abbrev pub is_delivered : (Text → Bool) → SpotUserEvent → Bool
is_delivered routes event =
    routes (route_id event)
    && (if route_id event == account_route_id
        then is_account_event event
        else is_symbol_event event)

abbrev with_event : (Text → Bool) → SpotExecContext → SpotUserEvent → Option SpotExecContext
with_event routes ctx event =
    if is_delivered routes event
    then updated (send ctx.events event) (apply ctx.account event)
    else some ctx

abbrev pub ctx_of : Option SpotHub → Option SpotExecContext
ctx_of none = none
ctx_of (some hub) = some hub.ctx

ctx_of-with_ctx : (hub : SpotHub) (o : Option SpotExecContext) → ctx_of (with_ctx hub o) ≡ o
ctx_of-with_ctx hub none = refl
ctx_of-with_ctx hub (some ctx) = refl

route_event-ctx :
    (routes : Text → Bool) (hub : SpotHub) (event : SpotUserEvent)
    → HasRoutes routes hub
    → ctx_of (route_event hub event) ≡ with_event routes hub.ctx event
unfolding route_event handle_update accepts new_handler
route_event-ctx routes hub event v = elim (Bool-cases (routes (route_id event))) [
  | inl known ↦
      let id = route_id event in
      let there : lookup id hub.writers ≡ some (new_handler id) =
        v id ∙ ap (λ b. handler_for b id) known in
      rw (there, route_event)
        (ctx_of-with_ctx hub (handle_update (new_handler id) hub.ctx event)
          ∙ ground (arith, known, text_eq_iff id id))
  | inr unknown ↦
      let id = route_id event in
      let gone : lookup id hub.writers ≡ none = v id ∙ ap (λ b. handler_for b id) unknown in
      rw (gone, route_event) (rw unknown refl)
]

with_ctx-writers :
    (hub next : SpotHub) (o : Option SpotExecContext)
    → with_ctx hub o ≡ some next
    → next.writers ≡ hub.writers
with_ctx-writers hub next none e = cc
with_ctx-writers hub next (some ctx) e = ground arith

route_event-writers :
    (hub next : SpotHub) (event : SpotUserEvent)
    → route_event hub event ≡ some next
    → next.writers ≡ hub.writers
unfolding route_event
route_event-writers hub next event e = elim (Option-cases (lookup (route_id event) hub.writers)) [
  | inl gone ↦ ground (arith, e)
  | inr (handler, there) ↦
      with_ctx-writers hub next (handle_update handler hub.ctx event) (rw (there, route_event) at e)
]

-- Each event that is delivered goes to the channel and to the account book, until one panics.
abbrev pub deliver_all :
    (Text → Bool) → SpotExecContext → List SpotUserEvent → Option SpotExecContext
deliver_all routes ctx [] = some ctx
deliver_all routes ctx (event ∷ events) = elim (with_event routes ctx event) [
  | none ↦ none
  | some next ↦ deliver_all routes next events
]

lookup-insert_handlers :
    (id : Text) (routes : List Text) (m : HashMap Text SpotExecHandler)
    → lookup id (insert_handlers routes m)
      ≡ (if contains routes id then some (new_handler id) else lookup id m)
lookup-insert_handlers id [] m = refl
lookup-insert_handlers id (r ∷ rs) m = ground (
  arith,
  lookup-insert_handlers id rs (insert r (new_handler r) m),
  lookup-insert id r (new_handler r) m,
  text_eq_iff r id,
)

build_multiplexor-HasRoutes :
    (upper : ℕ → Text) (symbols : List Text) (ctx : SpotExecContext)
    → HasRoutes
        (contains (exec_subscription_symbols upper symbols))
        (build_multiplexor upper symbols ctx)
unfolding build_multiplexor lookup
build_multiplexor-HasRoutes upper symbols ctx id =
    ground (arith, lookup-insert_handlers id (exec_subscription_symbols upper symbols) [])

module _ (js : Json) (as_bool : js.Value → Option Bool) (ws : Frames) where
  -- The events that a list of messages carries.
  abbrev carried : Result (Option SpotUserEvent) (ParseError js.Error) → List SpotUserEvent
  carried (err e) = []
  carried (ok none) = []
  carried (ok (some event)) = event ∷ []

  abbrev pub events_of : List ws.Message → List SpotUserEvent
  events_of [] = []
  events_of (msg ∷ msgs) = carried (parse_user_data_message js as_bool ws msg) ++ events_of msgs

  abbrev pub ingest_all : SpotHub → List ws.Message → Option SpotHub
  ingest_all hub [] = some hub
  ingest_all hub (msg ∷ msgs) = elim (ingest_user_data js as_bool ws hub msg) [
    | none ↦ none
    | some next ↦ ingest_all next msgs
  ]

  ingest_all-ctx :
      (routes : Text → Bool) (hub : SpotHub) (msgs : List ws.Message)
      → HasRoutes routes hub
      → ctx_of (ingest_all hub msgs) ≡ deliver_all routes hub.ctx (events_of msgs)
  unfolding ingest_user_data
  ingest_all-ctx routes hub [] v = refl
  ingest_all-ctx routes hub (msg ∷ msgs) v =
      elim (Result-cases (parse_user_data_message js as_bool ws msg)) [
        | inr (e, p) ↦ rw (p, ingest_all, ingest_user_data) (ingest_all-ctx routes hub msgs v)
        | inl (none, p) ↦ rw (p, ingest_all, ingest_user_data) (ingest_all-ctx routes hub msgs v)
        | inl (some event, p) ↦
            let same = route_event-ctx routes hub event v in
            elim (Option-cases (route_event hub event)) [
              | inl panics ↦
                  let panicked : with_event routes hub.ctx event ≡ none =
                    sym same ∙ ap ctx_of panics in
                  rw (p, ingest_all, ingest_user_data) (rw panics (rw (panicked, deliver_all) refl))
              | inr (next, e) ↦
                  let went : with_event routes hub.ctx event ≡ some next.ctx =
                    sym same ∙ ap ctx_of e in
                  let kept : HasRoutes routes next =
                    λ id. ap (lookup id) (route_event-writers hub next event e) ∙ v id in
                  rw (p, ingest_all, ingest_user_data)
                    (rw e (rw (went, deliver_all) (ingest_all-ctx routes next msgs kept)))
            ]
      ]

  -- Whatever messages reach a hub of `build_multiplexor`, the channel and the shared account book
  -- get exactly the events that were read, whose route is subscribed and takes their kind, each
  -- once and in the order of the messages; and the hub panics exactly if the account book does on
  -- one of these events.
  pub ingest_all-build_multiplexor :
      (upper : ℕ → Text) (symbols : List Text) (ctx : SpotExecContext) (msgs : List ws.Message)
      → ctx_of (ingest_all (build_multiplexor upper symbols ctx) msgs)
        ≡ deliver_all (contains (exec_subscription_symbols upper symbols)) ctx (events_of msgs)
  unfolding build_multiplexor
  ingest_all-build_multiplexor upper symbols ctx msgs =
      ingest_all-ctx (contains (exec_subscription_symbols upper symbols))
        (build_multiplexor upper symbols ctx) msgs (build_multiplexor-HasRoutes upper symbols ctx)
