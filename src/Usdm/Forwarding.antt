-- ===== src/Usdm/Forwarding.antt =====
-- Which updates go out on the channel, and that a route touches one handler.
use trolly.Prelude.{
  Text, text_eq_iff, text_Eq, ◌≡◌, ◌≢◌, refl, ap, ◌∙◌, Bool, true, false, not, ◌||◌, Option, none,
  some, lookup, insert, lookup-insert, if◌then◌else◌, ◌==◌, Floats, arith, Bool-cases, Option-cases,
  inl, inr, HashMap, List, [], ◌∷◌, ◌++◌, append_assoc, append-nil,
}
use trolly.Usdm.Types.{
  UsdmExecUpdate, order_trade, balance_change, position_change, listen_key_expired, margin_call,
  routing_id, account_routing_id,
}
use trolly.Usdm.Handler.{
  UsdmExecHandler, UsdmExecContext, Sender, apply, forward, margin_arm, new_handler, send,
}
use trolly.Usdm.Ingress.{UsdmHub, insert_handlers, build_multiplexor, route_update, route_all}

-- Whether a handler acts on an update that reaches it.
abbrev pub accepts : Bool → UsdmExecUpdate → Bool
accepts account_only (order_trade o) = not account_only
accepts account_only (position_change p) = not account_only
accepts account_only (balance_change b) = account_only
accepts account_only (margin_call m) = account_only
accepts account_only listen_key_expired = true

abbrev flag_of : Option UsdmExecHandler → Option Bool
flag_of none = none
flag_of (some h) = some h.account_events_only

abbrev pub contains : List Text → Text → Bool
contains [] id = false
contains (s ∷ ss) id = s == id || contains ss id

-- The kind of the handler under an id in a hub made for `symbols`.
abbrev flag_for : List Text → Text → Option Bool
flag_for symbols id =
    if account_routing_id == id then some true else if contains symbols id then some false else none

abbrev accepted : Option Bool → UsdmExecUpdate → Bool
accepted none u = false
accepted (some account_only) u = accepts account_only u

-- An update is delivered when its id is one of the symbols or the account's, and it is of the
-- kind that the handler of that id takes.
abbrev pub is_delivered : List Text → UsdmExecUpdate → Bool
is_delivered symbols u = accepted (flag_for symbols (routing_id u)) u

abbrev pub delivered : List Text → List UsdmExecUpdate → List UsdmExecUpdate
delivered symbols [] = []
delivered symbols (u ∷ us) =
    if is_delivered symbols u then u ∷ delivered symbols us else delivered symbols us

abbrev HasHandlers : List Text → UsdmHub → Type 0
HasHandlers symbols hub = (id : Text) → flag_of (lookup id hub.writers) ≡ flag_for symbols id

module _ (fl : Floats) where
  apply-flag :
      (h : UsdmExecHandler) (c : UsdmExecContext) (u : UsdmExecUpdate)
      → (apply fl h c u).0.account_events_only ≡ h.account_events_only
  unfolding apply forward margin_arm
  apply-flag h c (order_trade o) = ground arith
  apply-flag h c (position_change p) = ground arith
  apply-flag h c (balance_change b) = ground arith
  apply-flag h c (margin_call m) = ground arith
  apply-flag h c listen_key_expired = ground arith

  apply-outbound :
      (h : UsdmExecHandler) (c : UsdmExecContext) (u : UsdmExecUpdate)
      → (apply fl h c u).1.outbound
        ≡ (if accepts h.account_events_only u then send c.outbound u else c.outbound)
  unfolding apply forward margin_arm
  apply-outbound h c (order_trade o) = ground arith
  apply-outbound h c (position_change p) = ground arith
  apply-outbound h c (balance_change b) = ground arith
  apply-outbound h c (margin_call m) = ground arith
  apply-outbound h c listen_key_expired = ground arith

  -- An update changes no handler but the one under its routing id.
  pub route_update-lookup_ne :
      (hub : UsdmHub) (u : UsdmExecUpdate) (id : Text)
      → id ≢ routing_id u
      → lookup id (route_update fl hub u).writers ≡ lookup id hub.writers
  unfolding route_update
  route_update-lookup_ne hub u id n = elim (Option-cases (lookup (routing_id u) hub.writers)) [
    | inl missing ↦ rw (missing, route_update)
    | inr (h, found) ↦ ground (
      arith,
      found,
      text_eq_iff (routing_id u) id,
      lookup-insert id (routing_id u) (apply fl h hub.ctx u).0 hub.writers,
    )
  ]

  route_update-HasHandlers :
      (symbols : List Text) (hub : UsdmHub) (u : UsdmExecUpdate)
      → HasHandlers symbols hub
      → HasHandlers symbols (route_update fl hub u)
  unfolding route_update
  route_update-HasHandlers symbols hub u e id =
      elim (Option-cases (lookup (routing_id u) hub.writers)) [
        | inl missing ↦ rw (missing, route_update) (e id)
        | inr (h, found) ↦ ground (
          arith,
          found,
          e id,
          text_eq_iff (routing_id u) id,
          apply-flag h hub.ctx u,
          lookup-insert id (routing_id u) (apply fl h hub.ctx u).0 hub.writers,
        )
      ]

  route_update-outbound :
      (symbols : List Text) (hub : UsdmHub) (u : UsdmExecUpdate)
      → HasHandlers symbols hub
      → (route_update fl hub u).ctx.outbound
        ≡ (if is_delivered symbols u then send hub.ctx.outbound u else hub.ctx.outbound)
  unfolding route_update
  route_update-outbound symbols hub u e = elim (Option-cases (lookup (routing_id u) hub.writers)) [
    | inl missing ↦ rw (← e (routing_id u), missing, route_update) refl
    | inr (h, found) ↦ rw (← e (routing_id u), found, route_update) (apply-outbound h hub.ctx u)
  ]

  sent-route_all :
      (symbols : List Text) (hub : UsdmHub) (us sent : List UsdmExecUpdate)
      → HasHandlers symbols hub
      → hub.ctx.outbound ≡ some (record { receiver_alive = true; sent = sent })
      → (route_all fl hub us).ctx.outbound
        ≡ some (record { receiver_alive = true; sent = sent ++ delivered symbols us })
  unfolding route_all send
  sent-route_all symbols hub [] sent e o = rw append-nil o
  sent-route_all symbols hub (u ∷ us) sent e o = elim (Bool-cases (is_delivered symbols u)) [
    | inl d ↦ rw d (
        sent-route_all symbols (route_update fl hub u) us (sent ++ u ∷ [])
          (route_update-HasHandlers symbols hub u e)
          (route_update-outbound symbols hub u e ∙ rw (d, o))
        ∙ ap (λ l. some (record { receiver_alive = true; sent = l }))
            (append_assoc sent (u ∷ []) (delivered symbols us)))
    | inr d ↦ rw d (
        sent-route_all symbols (route_update fl hub u) us sent
          (route_update-HasHandlers symbols hub u e)
          (route_update-outbound symbols hub u e ∙ rw (d, o)))
  ]

insert_handlers-flags :
    (ss : List Text) (m : HashMap Text UsdmExecHandler) (id : Text)
    → id ≢ account_routing_id
    → flag_of (lookup id (insert_handlers ss m))
      ≡ (if contains ss id then some false else flag_of (lookup id m))
unfolding insert_handlers new_handler
insert_handlers-flags [] m id n = refl
insert_handlers-flags (s ∷ ss) m id n = ground (
  arith,
  insert_handlers-flags ss (insert s (new_handler s) m) id n,
  lookup-insert id s (new_handler s) m,
  text_eq_iff s id,
  text_eq_iff s account_routing_id,
)

build_multiplexor-HasHandlers :
    (symbols : List Text) (outbound : Option Sender)
    → HasHandlers symbols (build_multiplexor symbols outbound)
unfolding build_multiplexor new_handler lookup
build_multiplexor-HasHandlers symbols outbound id = ground (
  arith,
  lookup-insert id account_routing_id (new_handler account_routing_id) (insert_handlers symbols []),
  insert_handlers-flags symbols [] id,
  text_eq_iff account_routing_id id,
  text_eq_iff account_routing_id account_routing_id,
)

module _ (fl : Floats) where
  -- With a live receiver, the channel carries exactly the delivered updates of the input, in the
  -- order in which they came.
  pub sent-build_multiplexor :
      (symbols : List Text) (us : List UsdmExecUpdate)
      → let tx : Sender = record { receiver_alive = true; sent = [] } in
        (route_all fl (build_multiplexor symbols (some tx)) us).ctx.outbound
        ≡ some (record { receiver_alive = true; sent = delivered symbols us })
  unfolding build_multiplexor
  sent-build_multiplexor symbols us =
      let tx : Sender = record { receiver_alive = true; sent = [] } in
      sent-route_all fl symbols (build_multiplexor symbols (some tx)) us []
        (build_multiplexor-HasHandlers symbols (some tx)) refl
