-- ===== src/Monitor/Book.antt =====
-- src/monitor/order_book.rs and depth_parse.rs: a book behind a left-right handle. `none` is a
-- failed assertion of `absorb_first`.
pub mod Sequence
use trolly.Prelude.{
  ℕ, Text, codes, split_once, Bool, true, false, not, ◌&&◌, Option, none, some, List, [], ◌∷◌, ◌++◌,
  if◌then◌else◌, ◌≡◌, Result, ok, err, Frames,
}
use trolly.Monitor.Lob.{Lob}
use trolly.Stream.Multiplexor.{EventHandler}

pub data Operations (lob : Lob) : Type 0 where
  update : lob.DepthUpdate → Operations lob
  initialize : lob.LimitOrderBook → Operations lob

module _ (lob : Lob) where
  open lob use {LimitOrderBook, DepthUpdate, PriceAndQuantity}

  abbrev pub add_bids : LimitOrderBook → List PriceAndQuantity → LimitOrderBook
  add_bids book [] = book
  add_bids book (bid ∷ bids) = add_bids (lob.add_bid book bid) bids

  abbrev pub add_asks : LimitOrderBook → List PriceAndQuantity → LimitOrderBook
  add_asks book [] = book
  add_asks book (ask ∷ asks) = add_asks (lob.add_ask book ask) asks

  unfoldable pub absorb_first :
      LimitOrderBook → Operations lob → LimitOrderBook → Option LimitOrderBook
  absorb_first book (update u) other =
      if lob.skip_update u (lob.update_id book)
      then some book
      else some (
          lob.with_update_id (lob.last_update_id u)
            (add_asks (add_bids book (lob.bids u)) (lob.asks u)))
  absorb_first book (initialize b) other =
      if lob.book_eq book lob.default && lob.book_eq other lob.default
      then some (lob.extend book b)
      else none

  -- `sync_with`, which makes the second copy after the first publication.
  unfoldable pub sync_with : LimitOrderBook → LimitOrderBook → LimitOrderBook
  sync_with book first = lob.extend book first

-- What the program takes from the `left_right` crate: a write handle with two copies of the book.
-- `Copies w shown hidden` says that all that was appended is published, that readers see `shown`,
-- and that the writer's copy, once it has caught up, is `hidden`. The first operation is absorbed
-- by one copy alone, and `sync_with` makes the other from it. A later one is absorbed by the
-- writer's copy, which readers see from its publication on, and then by the copy that they saw
-- before. Nothing is assumed of how `absorb_first` and `sync_with` keep the copies equal:
-- `absorb_second` is `absorb_first`, as the trait has it by default.
pub record LeftRight (lob : Lob) : Type 1 where
  pub WriteHandle : Type 0
  pub new : WriteHandle
  pub append : WriteHandle → Operations lob → WriteHandle
  pub publish : WriteHandle → WriteHandle
  pub read : WriteHandle → lob.LimitOrderBook
  pub Copies : WriteHandle → lob.LimitOrderBook → lob.LimitOrderBook → Type 0
  pub read-Copies :
      (w : WriteHandle) (shown hidden : lob.LimitOrderBook) → Copies w shown hidden → read w ≡ shown
  pub publish-first :
      (op : Operations lob) (book : lob.LimitOrderBook)
      → absorb_first lob lob.default op lob.default ≡ some book
      → Copies (publish (append new op)) book (sync_with lob lob.default book)
  pub publish-append :
      (w : WriteHandle) (op : Operations lob) (shown hidden first second : lob.LimitOrderBook)
      → Copies w shown hidden
      → absorb_first lob hidden op shown ≡ some first
      → absorb_first lob shown op first ≡ some second
      → Copies (publish (append w op)) first second

-- What `serde_json` reads of a depth payload: an envelope, a bare update, or a response with its
-- result, if there is one.
pub record DepthJson (lob : Lob) : Type 1 where
  pub envelope : Text → Option (Text × lob.DepthUpdate)
  pub bare : Text → Option lob.DepthUpdate
  pub null_response : Text → Option (Option Text)

pub data DepthError : Type 0 where
  unexpected_depth_message : Text → DepthError

module _ (lob : Lob) (json : DepthJson lob) where
  abbrev pub contains : Text → Text → Bool
  contains s word = elim (split_once word s) [ none ↦ false | some _ ↦ true ]

  unfoldable pub routed : Text → lob.DepthUpdate → lob.DepthUpdate
  unfolding split_once
  routed stream u =
      if contains stream (codes "rpiDepth")
      then lob.with_symbol (codes "RPI:" ++ lob.symbol u) u
      else u

  unfoldable parse_depth_bytes : Text → Result (Option lob.DepthUpdate) DepthError
  unfolding routed
  parse_depth_bytes text = elim (json.envelope text) [
    | some (stream, u) ↦ ok (some (routed stream u))
    | none ↦ elim (json.bare text) [
      | some u ↦ ok (some u)
      | none ↦ elim (json.null_response text) [
        | some none ↦ ok none
        | some (some _) ↦ err (unexpected_depth_message text)
        | none ↦ err (unexpected_depth_message text)
      ]
    ]
  ]

  module _ (lr : LeftRight lob) (ws : Frames) where
    abbrev pub payload : Option Text → Text
    payload none = []
    payload (some s) = s

    -- The multiplexor hands on text frames alone: `into_data` of one is its text.
    unfoldable pub parse_depth_message : ws.Message → Result (Option lob.DepthUpdate) DepthError
    unfolding parse_depth_bytes
    parse_depth_message msg = parse_depth_bytes (payload (ws.as_text msg))

    unfoldable pub handle_update :
        lr.WriteHandle → lob.DepthUpdate → lr.WriteHandle × Result (Unit {0}) DepthError
    handle_update w u = (lr.publish (lr.append w (update u)), ok tt)

    -- `build`, from the snapshot of the REST endpoint on.
    unfoldable pub from_snapshot : lob.LimitOrderBook → lr.WriteHandle
    from_snapshot book = lr.publish (lr.append lr.new (initialize book))

    -- `impl EventHandler<Depth> for OrderBook`
    abbrev pub order_book : EventHandler ws.Message
    order_book = record {
      Self = lr.WriteHandle;
      Update = lob.DepthUpdate;
      Error = DepthError;
      parse_update = parse_depth_message;
      to_id = lob.symbol;
      handle_update = handle_update;
    }
