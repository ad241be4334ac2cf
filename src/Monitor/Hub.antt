-- ===== src/Monitor/Hub.antt =====
-- src/monitor/global_book.rs: `HubInner` and the operations of `GlobalBookHub`, with the registry
-- of src/servers/mod.rs. An `Arc<ArcSwap<_>>` is an index into the cells, so that the lane of an
-- instrument and the registry's handle of it are one cell. The locks are left out: no operation
-- holds one over another, and the streams run on one thread.
pub mod Lanes
pub mod Sources
pub mod Serving
pub mod Reading
use trolly.Prelude.{
  ℕ, zero, suc, ◌+◌, Text, text_Eq, to_uppercase, Bool, Option, none, some, List, [], ◌∷◌, ◌++◌,
  if◌then◌else◌, ltb, HashMap, lookup, insert, length, get_elem?, set,
}
use trolly.Monitor.Lob.{Lob}

pub data BookHandle (Factory : Type 0) : Type 0 where
  left_right : Factory → BookHandle Factory
  merged : ℕ → BookHandle Factory

-- `upper` is the Unicode table of `char::to_uppercase`; `Factory` is `ReadHandleFactory`, and
-- `enter` is what its handles read at the time of the call.
module _ (lob : Lob) (upper : ℕ → Text) (Factory : Type 0) where
  open lob use {LimitOrderBook}

  pub record GlobalBookHub : Type 0 where
    pub factories : HashMap Text Factory
    pub stream_instruments : HashMap Text Text
    pub sources_by_instrument : HashMap Text (List Text)
    pub merged_by_instrument : HashMap Text ℕ
    pub cells : List LimitOrderBook
    pub serve : Option (HashMap Text (BookHandle Factory))

  unfoldable pub new : GlobalBookHub
  new = record {
    factories = [];
    stream_instruments = [];
    sources_by_instrument = [];
    merged_by_instrument = [];
    cells = [];
    serve = none;
  }

  unfoldable pub with_serve_registry : HashMap Text (BookHandle Factory) → GlobalBookHub
  unfolding new
  with_serve_registry registry = record new { serve = some registry }

  unfoldable pub merged_swap_for : GlobalBookHub → Text → Option ℕ
  merged_swap_for hub instrument = lookup (to_uppercase upper instrument) hub.merged_by_instrument

  abbrev pub published :
      Text
      → Option (HashMap Text (BookHandle Factory))
      → Option ℕ
      → Option (HashMap Text (BookHandle Factory))
  published key none swap = none
  published key (some registry) none = some registry
  published key (some registry) (some swap) = some (insert key (merged swap) registry)

  unfoldable pub publish_serve_instrument : GlobalBookHub → Text → GlobalBookHub
  unfolding merged_swap_for
  publish_serve_instrument hub instrument = record hub {
    serve = published (to_uppercase upper instrument) hub.serve (merged_swap_for hub instrument);
  }

  abbrev pub or_default : Option (List Text) → List Text
  or_default none = []
  or_default (some ids) = ids

  -- `Entry::Vacant`: a new cell, for an instrument that has no lane.
  unfoldable pub ensure_lane : GlobalBookHub → Text → GlobalBookHub
  ensure_lane hub key = elim (lookup key hub.merged_by_instrument) [
    | some lane ↦ hub
    | none ↦ record hub {
      merged_by_instrument = insert key (length hub.cells) hub.merged_by_instrument;
      cells = hub.cells ++ lob.default ∷ [];
    }
  ]

  unfoldable pub add_source : GlobalBookHub → Text → Factory → Text → GlobalBookHub
  add_source hub stream_id factory key = record hub {
    stream_instruments = insert stream_id key hub.stream_instruments;
    sources_by_instrument =
        insert key (or_default (lookup key hub.sources_by_instrument) ++ stream_id ∷ [])
          hub.sources_by_instrument;
    factories = insert stream_id factory hub.factories;
  }

  unfoldable pub register_factory : GlobalBookHub → Text → Factory → Text → GlobalBookHub
  unfolding ensure_lane add_source publish_serve_instrument
  register_factory hub stream_id factory instrument =
      let key = to_uppercase upper instrument in
      publish_serve_instrument (ensure_lane (add_source hub stream_id factory key) key) instrument

  abbrev found : Option Factory → List Factory → List Factory
  found none fs = fs
  found (some f) fs = f ∷ fs

  -- `filter_map` of the ids that have a factory.
  abbrev pub factories_of : GlobalBookHub → List Text → List Factory
  factories_of hub [] = []
  factories_of hub (id ∷ ids) = found (lookup id hub.factories) (factories_of hub ids)

  unfoldable pub group_of : GlobalBookHub → Text → List Factory
  group_of hub key = factories_of hub (or_default (lookup key hub.sources_by_instrument))

  module _ (enter : Factory → Option LimitOrderBook) where
    abbrev pub absorb : LimitOrderBook → Option LimitOrderBook → LimitOrderBook
    absorb book none = book
    absorb book (some b) = lob.merge_aggregate_absorb book b

    abbrev pub merge_from : LimitOrderBook → List Factory → LimitOrderBook
    merge_from book [] = book
    merge_from book (f ∷ fs) = merge_from (absorb book (enter f)) fs

    abbrev pub unwrap_or_default : Option LimitOrderBook → LimitOrderBook
    unwrap_or_default none = lob.default
    unwrap_or_default (some b) = b

    abbrev pub later_id : Option LimitOrderBook → ℕ → ℕ
    later_id none n = n
    later_id (some b) n = if ltb n (lob.update_id b) then lob.update_id b else n

    abbrev pub max_update_id : List Factory → ℕ
    max_update_id [] = 0
    max_update_id (f ∷ fs) = later_id (enter f) (max_update_id fs)

    abbrev pub merge_books : List Factory → LimitOrderBook
    merge_books (f ∷ []) = unwrap_or_default (enter f)
    merge_books fs = merge_from lob.empty fs

    -- The book that `refresh_merged_for` stores for a group.
    unfoldable pub merge_group : List Factory → LimitOrderBook
    merge_group fs = lob.with_update_id (max_update_id fs) (merge_books fs)

    abbrev store : GlobalBookHub → Option ℕ → LimitOrderBook → GlobalBookHub
    store hub none book = hub
    store hub (some lane) book = record hub { cells = set hub.cells lane book }

    unfoldable pub refresh_merged_for : GlobalBookHub → Text → GlobalBookHub
    unfolding merge_group group_of
    refresh_merged_for hub instrument =
        let key = to_uppercase upper instrument in
        elim (group_of hub key) [
          | [] ↦ hub
          | f ∷ fs ↦ store hub (lookup key hub.merged_by_instrument) (merge_group (f ∷ fs))
        ]

    -- src/servers/mod.rs: `Hook::register` and `Hook::get`, on the hub's registry.
    abbrev loaded : GlobalBookHub → Option (BookHandle Factory) → Option LimitOrderBook
    loaded hub none = none
    loaded hub (some (left_right f)) = enter f
    loaded hub (some (merged swap)) = get_elem? hub.cells swap

    unfoldable pub get : GlobalBookHub → Text → Option LimitOrderBook
    get hub pair = elim hub.serve [
      | none ↦ none
      | some registry ↦ loaded hub (lookup (to_uppercase upper pair) registry)
    ]

  unfoldable register :
      HashMap Text (BookHandle Factory) → Text → Factory → HashMap Text (BookHandle Factory)
  register registry key factory = insert (to_uppercase upper key) (left_right factory) registry
