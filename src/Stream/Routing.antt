-- ===== src/Stream/Routing.antt =====
-- Which updates reach which handler.
use trolly.Prelude.{
  Text, text_Eq, text_eq_iff, ◌≡◌, refl, ap, ◌∙◌, if◌then◌else◌, Option, none, some, List, [], ◌∷◌,
  ◌++◌, ◌==◌, Result, ok, err, Result-cases, Option-cases, HashMap, lookup, insert, lookup-insert,
  Frames, inl, inr, arith,
}
use trolly.Stream.Multiplexor.{
  EventHandler, MonitorMultiplexor, build, collect, deliver, ingest_message,
}

abbrev later {ℓ} : {A : Type ℓ} → Option A → Option A → Option A
later first none = first
later first (some b) = some b

-- The last handle that was built for an id.
abbrev pub last_built : {Self E : Type 0} → Text → List (Result (Text × Self) E) → Option Self
last_built id [] = none
last_built id (err e ∷ handles) = last_built id handles
last_built id (ok (i, handle) ∷ handles) =
    later (if i == id then some handle else none) (last_built id handles)

lookup-collect :
    {Self E : Type 0} (id : Text) (writers : HashMap Text Self)
    (handles : List (Result (Text × Self) E))
    → lookup id (collect writers handles) ≡ later (lookup id writers) (last_built id handles)
lookup-collect id writers [] = refl
lookup-collect id writers (err e ∷ handles) = lookup-collect id writers handles
lookup-collect id writers (ok (i, handle) ∷ handles) =
    lookup-collect id (insert i handle writers) handles
    ∙ ground (arith, lookup-insert id i handle writers)

-- A multiplexor has, for each id, the last handle whose build succeeded, and none for an id
-- without one: a build that fails does not stop the others.
pub lookup-build :
    {Self E : Type 0} (id : Text) (handles : List (Result (Text × Self) E))
    → lookup id (build handles).writers ≡ last_built id handles
unfolding build lookup
lookup-build id handles = lookup-collect id [] handles ∙ ground arith

module _ (ws : Frames) (h : EventHandler ws.Message) where
  abbrev addressed : Text → Result (Option h.Update) h.Error → List h.Update
  addressed id (err e) = []
  addressed id (ok none) = []
  addressed id (ok (some update)) = if h.to_id update == id then update ∷ [] else []

  abbrev message_updates : Text → ws.Message → List h.Update
  message_updates id msg = elim (ws.as_text msg) [
    | none ↦ []
    | some _ ↦ addressed id (h.parse_update msg)
  ]

  -- The updates that a list of messages carries for one id, in their order.
  abbrev pub updates_of : Text → List ws.Message → List h.Update
  updates_of id [] = []
  updates_of id (msg ∷ msgs) = message_updates id msg ++ updates_of id msgs

  abbrev pub handle_all : h.Self → List h.Update → h.Self
  handle_all s [] = s
  handle_all s (u ∷ us) = handle_all (h.handle_update s u).0 us

  abbrev pub ingest_messages :
      MonitorMultiplexor h.Self → List ws.Message → MonitorMultiplexor h.Self
  ingest_messages mux [] = mux
  ingest_messages mux (msg ∷ msgs) = ingest_messages (ingest_message ws h mux msg) msgs

  abbrev pub handled : Option h.Self → List h.Update → Option h.Self
  handled none us = none
  handled (some s) us = some (handle_all s us)

  handled-append :
      (o : Option h.Self) (us vs : List h.Update) → handled (handled o us) vs ≡ handled o (us ++ vs)
  handled-append none us vs = refl
  handled-append (some s) [] vs = refl
  handled-append (some s) (u ∷ us) vs = handled-append (some (h.handle_update s u).0) us vs

  lookup-deliver :
      (id : Text) (mux : MonitorMultiplexor h.Self) (update : h.Update)
      → lookup id (deliver ws h mux update).writers
        ≡ handled (lookup id mux.writers) (if h.to_id update == id then update ∷ [] else [])
  unfolding deliver
  lookup-deliver id mux update = elim (Option-cases (lookup (h.to_id update) mux.writers)) [
    | inl missing ↦ rw (missing, deliver) (ground (arith, missing, text_eq_iff (h.to_id update) id))
    | inr (s, found) ↦
        let next = (h.handle_update s update).0 in
        rw (found, deliver)
          (ground (
            arith,
            found,
            text_eq_iff (h.to_id update) id,
            lookup-insert id (h.to_id update) next mux.writers,
          ))
  ]

  handled-nil : (o : Option h.Self) → o ≡ handled o []
  handled-nil none = refl
  handled-nil (some s) = refl

  lookup-ingest_message :
      (id : Text) (mux : MonitorMultiplexor h.Self) (msg : ws.Message)
      → lookup id (ingest_message ws h mux msg).writers
        ≡ handled (lookup id mux.writers) (message_updates id msg)
  unfolding ingest_message
  lookup-ingest_message id mux msg =
      let same = handled-nil (lookup id mux.writers) in
      elim (Option-cases (ws.as_text msg)) [
        | inl binary ↦ rw (binary, ingest_message, message_updates) same
        | inr (text, e) ↦ elim (Result-cases (h.parse_update msg)) [
          | inl (some update, p) ↦
              rw (e, ingest_message, message_updates)
                (rw (p, ingest_message, message_updates) (lookup-deliver id mux update))
          | inl (none, p) ↦
              rw (e, ingest_message, message_updates) (rw (p, ingest_message, message_updates) same)
          | inr (x, p) ↦
              rw (e, ingest_message, message_updates) (rw (p, ingest_message, message_updates) same)
        ]
      ]

  -- After any sequence of messages each handler has handled exactly the updates that carry its
  -- id, in their order, whatever the other messages are, and no handler is added or lost.
  pub lookup-ingest_messages :
      (id : Text) (mux : MonitorMultiplexor h.Self) (msgs : List ws.Message)
      → lookup id (ingest_messages mux msgs).writers
        ≡ handled (lookup id mux.writers) (updates_of id msgs)
  lookup-ingest_messages id mux [] = handled-nil (lookup id mux.writers)
  lookup-ingest_messages id mux (msg ∷ msgs) =
      lookup-ingest_messages id (ingest_message ws h mux msg) msgs
      ∙ (ap (λ o. handled o (updates_of id msgs)) (lookup-ingest_message id mux msg)
          ∙ handled-append (lookup id mux.writers) (message_updates id msg) (updates_of id msgs))
