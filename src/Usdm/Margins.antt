-- ===== src/Usdm/Margins.antt =====
-- The supersede rule of `MARGIN_CALL` (account.rs, lines 10 to 16) over a whole history.
use trolly.Prelude.{
  ℕ, Text, text_Eq, ◌≡◌, ◌≢◌, ◌≤◌, ◌<◌, ◌⊎◌, refl, Option, none, some, lookup, if◌then◌else◌,
  Floats, arith, Bool-cases, Option-cases, inl, inr, List, [], ◌∷◌,
}
use trolly.Usdm.Types.{
  UsdmExecUpdate, MarginCall, order_trade, balance_change, position_change, listen_key_expired,
  margin_call, routing_id, account_routing_id,
}
use trolly.Usdm.Account.{apply_margin_call, is_superseded, apply_balance, apply_position}
use trolly.Usdm.Handler.{UsdmExecHandler, UsdmExecContext, Sender, apply, forward, margin_arm}
use trolly.Usdm.Ingress.{UsdmHub, build_multiplexor, route_update, route_all}
use trolly.Usdm.Consistency.{
  IsConsistent, IsAccountHandler, route_update-IsConsistent, build_multiplexor-IsConsistent,
}

-- The margin calls of a history put before those already seen: the latest arrival comes first.
abbrev pub calls_onto : List MarginCall → List UsdmExecUpdate → List MarginCall
calls_onto seen [] = seen
calls_onto seen (margin_call m ∷ us) = calls_onto (m ∷ seen) us
calls_onto seen (order_trade o ∷ us) = calls_onto seen us
calls_onto seen (balance_change b ∷ us) = calls_onto seen us
calls_onto seen (position_change p ∷ us) = calls_onto seen us
calls_onto seen (listen_key_expired ∷ us) = calls_onto seen us

abbrev NoneAfter : ℕ → List MarginCall → Type 0
NoneAfter t [] = Unit
NoneAfter t (c ∷ cs) = (c.event_time ≤ t) × NoneAfter t cs

-- The call with the greatest event time, and of those the one that arrived last.
abbrev pub IsNewest : List MarginCall → Option MarginCall → Type 0
IsNewest [] r = r ≡ none
IsNewest (c ∷ cs) r =
    ((r ≡ some c) × NoneAfter c.event_time cs)
    ⊎ ((m : MarginCall) × (r ≡ some m) × (c.event_time < m.event_time) × IsNewest cs r)

NoneAfter-mono : (s t : ℕ) (cs : List MarginCall) → s ≤ t → NoneAfter s cs → NoneAfter t cs
NoneAfter-mono s t [] h a = tt
NoneAfter-mono s t (c ∷ cs) h a = (omega arith, NoneAfter-mono s t cs h a.1)

NoneAfter-newest :
    (cs : List MarginCall) (m : MarginCall) → IsNewest cs (some m) → NoneAfter m.event_time cs
NoneAfter-newest [] m h = tt
NoneAfter-newest (c ∷ cs) m (inl (e, a)) = ground arith
NoneAfter-newest (c ∷ cs) m (inr (m', e, lt, h)) = ground (arith, NoneAfter-newest cs m h)

abbrev superseded_by : Option MarginCall → MarginCall → Option MarginCall
superseded_by e c = if is_superseded e c then e else some c

IsNewest-cons :
    (cs : List MarginCall) (e : Option MarginCall) (c : MarginCall)
    → IsNewest cs e
    → IsNewest (c ∷ cs) (superseded_by e c)
unfolding is_superseded
IsNewest-cons [] none c h = inl (refl, tt)
IsNewest-cons (d ∷ cs) none c (inl (e, a)) = cc
IsNewest-cons (d ∷ cs) none c (inr (m, e, lt, h)) = cc
IsNewest-cons cs (some m) c h = elim (Bool-cases (is_superseded (some m) c)) [
  | inl later ↦ rw later (inr (m, refl, ground arith, h))
  | inr newer ↦ rw newer (
      inl (
        refl,
        NoneAfter-mono m.event_time c.event_time cs (ground arith) (NoneAfter-newest cs m h),
      ))
]

module _ (fl : Floats) where
  apply-latest_same :
      (h : UsdmExecHandler) (c : UsdmExecContext) (u : UsdmExecUpdate)
      → ((m : MarginCall) → u ≢ margin_call m)
      → (apply fl h c u).1.account.latest_margin_call ≡ c.account.latest_margin_call
  unfolding apply forward apply_balance apply_position
  apply-latest_same h c (order_trade o) n = ground arith
  apply-latest_same h c (position_change p) n = ground arith
  apply-latest_same h c (balance_change b) n = ground arith
  apply-latest_same h c (margin_call m) n = absurd (n m refl)
  apply-latest_same h c listen_key_expired n = ground arith

  route_update-latest_same :
      (hub : UsdmHub) (u : UsdmExecUpdate)
      → ((m : MarginCall) → u ≢ margin_call m)
      → (route_update fl hub u).ctx.account.latest_margin_call ≡ hub.ctx.account.latest_margin_call
  unfolding route_update
  route_update-latest_same hub u n = elim (Option-cases (lookup (routing_id u) hub.writers)) [
    | inl missing ↦ rw (missing, route_update)
    | inr (h, found) ↦ rw (found, route_update) (apply-latest_same h hub.ctx u n)
  ]

  route_update-latest :
      (hub : UsdmHub) (m : MarginCall)
      → IsAccountHandler hub (lookup account_routing_id hub.writers)
      → (route_update fl hub (margin_call m)).ctx.account.latest_margin_call
        ≡ superseded_by hub.ctx.account.latest_margin_call m
  unfolding route_update routing_id apply forward margin_arm apply_margin_call
  route_update-latest hub m a = ground arith

  latest-route_all :
      (hub : UsdmHub) (us : List UsdmExecUpdate) (seen : List MarginCall)
      → IsConsistent hub
      → IsNewest seen hub.ctx.account.latest_margin_call
      → IsNewest (calls_onto seen us) (route_all fl hub us).ctx.account.latest_margin_call
  unfolding route_all
  latest-route_all hub [] seen v h = h
  latest-route_all hub (margin_call m ∷ us) seen v h =
      latest-route_all (route_update fl hub (margin_call m)) us (m ∷ seen)
        (route_update-IsConsistent fl hub (margin_call m) v)
        (rw (route_update-latest hub m v.margin) (IsNewest-cons seen _ m h))
  latest-route_all hub (order_trade o ∷ us) seen v h =
      latest-route_all (route_update fl hub (order_trade o)) us seen
        (route_update-IsConsistent fl hub (order_trade o) v)
        (rw (route_update-latest_same hub (order_trade o) (λ m e. cc)) h)
  latest-route_all hub (balance_change o ∷ us) seen v h =
      latest-route_all (route_update fl hub (balance_change o)) us seen
        (route_update-IsConsistent fl hub (balance_change o) v)
        (rw (route_update-latest_same hub (balance_change o) (λ m e. cc)) h)
  latest-route_all hub (position_change o ∷ us) seen v h =
      latest-route_all (route_update fl hub (position_change o)) us seen
        (route_update-IsConsistent fl hub (position_change o) v)
        (rw (route_update-latest_same hub (position_change o) (λ m e. cc)) h)
  latest-route_all hub (listen_key_expired ∷ us) seen v h =
      latest-route_all (route_update fl hub listen_key_expired) us seen
        (route_update-IsConsistent fl hub listen_key_expired v)
        (rw (route_update-latest_same hub listen_key_expired (λ m e. cc)) h)

  -- After any history the shared book holds the margin call with the greatest event time, of those
  -- with that time the one that arrived last, and none exactly when no margin call arrived.
  pub latest-build_multiplexor :
      (symbols : List Text) (outbound : Option Sender) (us : List UsdmExecUpdate)
      → IsNewest
          (calls_onto [] us)
          (route_all fl (build_multiplexor symbols outbound) us).ctx.account.latest_margin_call
  unfolding build_multiplexor
  latest-build_multiplexor symbols outbound us =
      latest-route_all (build_multiplexor symbols outbound) us []
        (build_multiplexor-IsConsistent symbols outbound) refl
