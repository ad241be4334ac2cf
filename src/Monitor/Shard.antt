-- ===== src/Monitor/Shard.antt =====
-- src/monitor/global_book.rs: `GlobalBookShard`, which feeds a source's book and refreshes the
-- hub that all sources share. The write handles of all books are one list, and a factory is the
-- index of its book. The streams run on one thread, and neither `handle_update` nor what `build`
-- does with a snapshot waits for anything, so each is one step.
pub mod Linked
pub mod Opening
pub mod Steps
use trolly.Prelude.{
  ℕ, Text, text_Eq, Option, none, some, List, [], ◌∷◌, ◌++◌, Result, ok, err, HashMap, lookup,
  length, get_elem?, set, Frames,
}
use trolly.Monitor.Lob.{Lob}
use trolly.Monitor.Source.{Provider, BookSource, stream_id, canonical_instrument}
use trolly.Monitor.Source
use trolly.Monitor.Hub.{GlobalBookHub, register_factory, refresh_merged_for}
use trolly.Monitor.Book
use trolly.Monitor.Book.{LeftRight, DepthJson, DepthError, parse_depth_message, from_snapshot}

-- A subscribed symbol of a provider; `book` is the index of its write handle.
pub record GlobalBookShard : Type 0 where
  pub book : ℕ
  pub instrument : Text
  pub stream_id : Text

module _ (lob : Lob) (json : DepthJson lob) (lr : LeftRight lob) (ws : Frames)
    (upper : ℕ → Text) where
  open lr use {WriteHandle}

  pub record Books : Type 0 where
    pub hub : GlobalBookHub lob upper ℕ
    pub handles : List WriteHandle

  abbrev pub read_by : Option WriteHandle → Option lob.LimitOrderBook
  read_by none = none
  read_by (some w) = some (lr.read w)

  -- `factory.handle().enter()`
  abbrev pub enter : List WriteHandle → ℕ → Option lob.LimitOrderBook
  enter handles f = read_by (get_elem? handles f)

  unfoldable pub refreshed : GlobalBookHub lob upper ℕ → List WriteHandle → Text → Books
  unfolding refresh_merged_for
  refreshed hub handles instrument = record {
    hub = refresh_merged_for lob upper ℕ (enter handles) hub instrument;
    handles = handles;
  }

  unfoldable pub shard_of : ℕ → BookSource → GlobalBookShard
  unfolding stream_id canonical_instrument
  shard_of book source = record {
    book = book;
    instrument = canonical_instrument upper source;
    stream_id = stream_id upper source;
  }

  unfoldable pub opened : Books → BookSource → lob.LimitOrderBook → Books
  unfolding register_factory refreshed stream_id canonical_instrument from_snapshot
  opened s source book =
      let instrument = canonical_instrument upper source in
      let handles = s.handles ++ from_snapshot lob json lr ws book ∷ [] in
      refreshed
        (register_factory lob upper ℕ s.hub (stream_id upper source) (length s.handles) instrument)
        handles instrument

  -- `build` of the trait, on the snapshot that the REST endpoint answers with, or its error.
  unfoldable pub build {ℓ} :
      {E : Type ℓ}
      → Books
      → Provider
      → Text
      → Result lob.LimitOrderBook E
      → Books × Result (Text × GlobalBookShard) E
  unfolding opened shard_of Source.new
  build s venue symbol (err e) = (s, err e)
  build s venue symbol (ok book) =
      let source = Source.new upper venue symbol in
      (opened s source book, ok (symbol, shard_of (length s.handles) source))

  -- The refresh follows a book that took its update.
  abbrev then_refresh :
      Books
      → GlobalBookShard
      → WriteHandle × Result (Unit {0}) DepthError
      → Books × Result (Unit {0}) DepthError
  then_refresh s shard (w, err e) = (record s { handles = set s.handles shard.book w }, err e)
  then_refresh s shard (w, ok _) =
      (refreshed s.hub (set s.handles shard.book w) shard.instrument, ok tt)

  -- A shard's index is that of a handle; without one nothing happens.
  unfoldable pub handle_update :
      Books → GlobalBookShard → lob.DepthUpdate → Books × Result (Unit {0}) DepthError
  unfolding Book.handle_update refreshed
  handle_update s shard u = elim (get_elem? s.handles shard.book) [
    | none ↦ (s, ok tt)
    | some w ↦ then_refresh s shard (Book.handle_update lob json lr ws w u)
  ]

  abbrev pub deliver : Books → HashMap Text GlobalBookShard → lob.DepthUpdate → Books
  deliver s writers u = elim (lookup (lob.symbol u) writers) [
    | none ↦ s
    | some shard ↦ (handle_update s shard u).0
  ]

  -- `MonitorMultiplexor::ingest_message` of a provider's shards. They change nothing but the
  -- books and the hub.
  unfoldable pub ingest_message : Books → HashMap Text GlobalBookShard → ws.Message → Books
  unfolding handle_update parse_depth_message
  ingest_message s writers msg = elim (ws.as_text msg) [
    | none ↦ s
    | some _ ↦ elim (parse_depth_message lob json lr ws msg) [
      | err e ↦ s
      | ok none ↦ s
      | ok (some u) ↦ deliver s writers u
    ]
  ]
