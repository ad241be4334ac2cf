-- ===== src/Stream/Multiplexor.antt =====
-- crates/trolly-stream/src/handler.rs and multiplexor.rs. The methods of a handler are an
-- interface; logging is left out, and so is the socket loop.
use trolly.Prelude.{
  Text, text_Eq, Option, none, some, List, [], ◌∷◌, Result, ok, err, HashMap, lookup, insert,
  Frames,
}

pub record EventHandler (Message : Type 0) : Type 1 where
  pub Self : Type 0
  pub Update : Type 0
  pub Error : Type 0
  pub parse_update : Message → Result (Option Update) Error
  pub to_id : Update → Text
  pub handle_update : Self → Update → Self × Result (Unit {0}) Error

pub record MonitorMultiplexor (Self : Type 0) : Type 0 where
  pub writers : HashMap Text Self

unfoldable from_writers : {Self : Type 0} → HashMap Text Self → MonitorMultiplexor Self
from_writers writers = record { writers = writers }

-- What a task of `build` ends with: a handler with its id, or a panic, where `build` of the
-- handler failed.
abbrev pub collect :
    {Self E : Type 0} → HashMap Text Self → List (Result (Text × Self) E) → HashMap Text Self
collect writers [] = writers
collect writers (ok (id, handle) ∷ handles) = collect (insert id handle writers) handles
collect writers (err e ∷ handles) = collect writers handles

unfoldable pub build : {Self E : Type 0} → List (Result (Text × Self) E) → MonitorMultiplexor Self
build handles = record { writers = collect [] handles }

module _ (ws : Frames) (h : EventHandler ws.Message) where
  -- The branch of a message that was read as an update.
  unfoldable pub deliver : MonitorMultiplexor h.Self → h.Update → MonitorMultiplexor h.Self
  deliver mux update = elim (lookup (h.to_id update) mux.writers) [
    | none ↦ mux
    | some handler ↦ record {
      writers = insert (h.to_id update) (h.handle_update handler update).0 mux.writers;
    }
  ]

  unfoldable pub ingest_message : MonitorMultiplexor h.Self → ws.Message → MonitorMultiplexor h.Self
  unfolding deliver
  ingest_message mux msg = elim (ws.as_text msg) [
    | none ↦ mux
    | some _ ↦ elim (h.parse_update msg) [
      | ok (some update) ↦ deliver mux update
      | ok none ↦ mux
      | err e ↦ mux
    ]
  ]
