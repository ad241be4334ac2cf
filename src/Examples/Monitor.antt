-- ===== src/Examples/Monitor.antt =====
-- Sources, streams, books and the hub of merged books.
use trolly.Prelude.{
  if◌then◌else◌, false, ap, ◌∙◌, ℕ, Text, text_eq, text_Eq, codes, ◌&&◌, to_uppercase, trim,
  trim_start, is_white_space, join, ◌≡◌, ◌≢◌, refl, Bool, true, Option, some, none, List, [], ◌∷◌,
  ◌++◌, Result, ok, err, lookup, leb, eqb, map, Free, arith,
}
use trolly.Monitor.Lob.{Lob}
use trolly.Monitor.Source.{BookSource, binance, binance_usd_m, stream_id, parse, parse_book_sources}
use trolly.Monitor.Source.RoundTrip.{
  IsCanonical, AllListed, parse-stream_id, parse_book_sources-join,
}
use trolly.Monitor.Hub.{
  get, merge_group, with_serve_registry, register_factory, refresh_merged_for, GlobalBookHub,
}
use trolly.Monitor.Hub.Lanes.{IsWellFormed, register_factory-IsWellFormed}
use trolly.Monitor.Hub.Sources.{
  Registration, register_all, Distinct, factories_for, with_serve_registry-IsWellFormed,
}
use trolly.Monitor.Hub.Serving.{get-refresh_ne, get-register_all}
use trolly.Monitor.Book.{
  LeftRight, DepthJson, Operations, absorb_first, sync_with, order_book, from_snapshot,
}
use trolly.Monitor.Book.Sequence.{sequence, update_id-ingest_messages}
use trolly.Stream.Multiplexor.{MonitorMultiplexor, build}
use trolly.Stream.Routing.{
  ingest_messages, handled, updates_of, last_built, lookup-ingest_messages, lookup-build,
}
use trolly.Examples.Data.{texts}

-- A book of levels without prices, and updates of one level.
pub record Book : Type 0 where
  pub update_id : ℕ
  pub levels : List ℕ

pub record Update : Type 0 where
  pub symbol : Text
  pub last_update_id : ℕ
  pub level : ℕ

abbrev empty : Book
empty = record { update_id = 0; levels = [] }

abbrev same_book : Book → Book → Bool
same_book b c = eqb b.update_id c.update_id && text_eq b.levels c.levels

pub empty_is_empty : same_book empty empty ≡ true
unfolding text_eq
empty_is_empty = refl

abbrev levels_of : Update → List ℕ
levels_of u = u.level ∷ []

abbrev pub books : Lob
books = record {
  LimitOrderBook = Book;
  DepthUpdate = Update;
  PriceAndQuantity = ℕ;
  default = empty;
  empty = empty;
  update_id = λ b. b.update_id;
  with_update_id = λ n b. record b { update_id = n };
  add_bid = λ b l. record b { levels = b.levels ++ l ∷ [] };
  add_ask = λ b l. record b { levels = b.levels ++ l ∷ [] };
  extend = λ b c. record { update_id = c.update_id; levels = b.levels ++ c.levels };
  merge_aggregate_absorb = λ b c. record b { levels = b.levels ++ c.levels };
  book_eq = same_book;
  symbol = λ u. u.symbol;
  with_symbol = λ s u. record u { symbol = s };
  last_update_id = λ u. u.last_update_id;
  bids = levels_of;
  asks = λ u. [];
  skip_update = λ u n. leb u.last_update_id n;
  update_id-with_update_id = λ n b. refl;
  book_eq-default = empty_is_empty;
  update_id-extend = λ b. refl;
}

-- A table that knows the capital letters and the digits.
abbrev pub capitals : ℕ → Text
capitals c = c ∷ []

abbrev spot : BookSource
spot = record { provider = binance; symbol = codes "BTCUSDT" }

abbrev futures : BookSource
futures = record { provider = binance_usd_m; symbol = codes "RPI:BTCUSDT" }

spot-IsCanonical : IsCanonical capitals spot
unfolding trim trim_start is_white_space to_uppercase
spot-IsCanonical = record {
  known = λ e. cc;
  trimmed = refl;
  upper_case = refl;
  not_empty = λ e. cc;
}

futures-IsCanonical : IsCanonical capitals futures
unfolding trim trim_start is_white_space to_uppercase
futures-IsCanonical = record {
  known = λ e. cc;
  trimmed = refl;
  upper_case = refl;
  not_empty = λ e. cc;
}

parse-stream_id_example : parse capitals (stream_id capitals futures) ≡ ok futures
parse-stream_id_example = parse-stream_id capitals futures futures-IsCanonical

no_commas : (Free b',' spot.symbol) × (Free b',' futures.symbol)
no_commas = ground arith

both_listed : AllListed capitals (spot ∷ futures ∷ [])
both_listed = ((spot-IsCanonical, no_commas.0), ((futures-IsCanonical, no_commas.1), tt))

parse_book_sources-join_example :
    parse_book_sources capitals (join (codes ",") (map (stream_id capitals) (spot ∷ futures ∷ [])))
    ≡ ok (spot ∷ futures ∷ [])
parse_book_sources-join_example = parse_book_sources-join capitals spot (futures ∷ []) both_listed

-- Readers that see the book that their factory is.
abbrev enter : Book → Option Book
enter b = some b

abbrev pub at : ℕ → Book
at n = record { update_id = n; levels = n ∷ [] }

abbrev registrations : List (Registration Book)
registrations =
    (codes "binance:BTC", at 3, codes "BTC")
    ∷ (codes "stub:ETH", at 9, codes "ETH")
    ∷ (codes "stub:BTC", at 5, codes "BTC")
    ∷ []

ids_differ : Distinct books capitals Book registrations
ids_differ = ground arith

two_for_btc :
    factories_for books capitals Book (to_uppercase capitals (codes "BTC")) registrations
    ≡ at 3 ∷ at 5 ∷ []
unfolding to_uppercase text_eq
two_for_btc = refl

get-register_all_example :
    get books capitals Book enter
      (refresh_merged_for books capitals Book enter
        (register_all books capitals Book
          (with_serve_registry books capitals Book [])
          registrations)
        (codes "BTC"))
      (codes "BTC")
    ≡ some (merge_group books capitals Book enter (at 3 ∷ at 5 ∷ []))
get-register_all_example =
    get-register_all books capitals Book enter registrations (codes "BTC") (at 3) (at 5 ∷ [])
      ids_differ two_for_btc

abbrev hub : GlobalBookHub books capitals Book
hub =
    register_factory books capitals Book (with_serve_registry books capitals Book [])
      (codes "stub:BTC") (at 5) (codes "BTC")

register_factory-IsWellFormed_example : IsWellFormed books capitals Book hub
register_factory-IsWellFormed_example =
    register_factory-IsWellFormed books capitals Book (with_serve_registry books capitals Book [])
      (codes "stub:BTC") (at 5) (codes "BTC") (with_serve_registry-IsWellFormed books capitals Book)

hub-IsWellFormed : IsWellFormed books capitals Book hub
hub-IsWellFormed =
    register_factory-IsWellFormed books capitals Book (with_serve_registry books capitals Book [])
      (codes "stub:BTC") (at 5) (codes "BTC") (with_serve_registry-IsWellFormed books capitals Book)

instruments_differ : to_uppercase capitals (codes "BTC") ≢ to_uppercase capitals (codes "ETH")
unfolding to_uppercase
instruments_differ = ground arith

get-refresh_ne_example :
    get books capitals Book enter
      (refresh_merged_for books capitals Book enter hub (codes "BTC"))
      (codes "ETH")
    ≡ get books capitals Book enter hub (codes "ETH")
get-refresh_ne_example =
    get-refresh_ne books capitals Book enter hub (codes "BTC") (codes "ETH") hub-IsWellFormed
      instruments_differ

abbrev built : List (Result (Text × ℕ) (Unit {0}))
built = ok (codes "BTC", 1) ∷ err tt ∷ ok (codes "BTC", 2) ∷ []

lookup-build_example : lookup (codes "BTC") (build built).writers ≡ last_built (codes "BTC") built
lookup-build_example = lookup-build (codes "BTC") built

abbrev pub or_same : Book → Option Book → Book
or_same b none = b
or_same b (some c) = c

-- Two copies of a book, and the operations that wait for a publication. The first ones go to the
-- writer's copy at once.
pub record Handle : Type 0 where
  pub is_first : Bool
  pub shown : Book
  pub hidden : Book
  pub waiting : List (Operations books)

abbrev pub absorb_all : Book → Book → List (Operations books) → Book
absorb_all book other [] = book
absorb_all book other (op ∷ ops) =
    absorb_all (or_same book (absorb_first books book op other)) other ops

abbrev pub publish : Handle → Handle
publish w =
    let first = absorb_all w.hidden w.shown w.waiting in
    if w.is_first
    then record {
      is_first = false;
      shown = w.hidden;
      hidden = sync_with books empty w.hidden;
      waiting = [];
    }
    else record {
      is_first = false;
      shown = first;
      hidden = absorb_all w.shown first w.waiting;
      waiting = [];
    }

abbrev pub append : Handle → Operations books → Handle
append w op =
    if w.is_first
    then record w { hidden = or_same w.hidden (absorb_first books w.hidden op w.shown) }
    else record w { waiting = w.waiting ++ op ∷ [] }

abbrev pub settled : Book → Book → Handle
settled shown hidden = record { is_first = false; shown = shown; hidden = hidden; waiting = [] }

pub publish-append_settled :
    (w : Handle) (op : Operations books) (shown hidden first second : Book)
    → w ≡ settled shown hidden
    → absorb_first books hidden op shown ≡ some first
    → absorb_first books shown op first ≡ some second
    → publish (append w op) ≡ settled first second
publish-append_settled w op shown hidden first second v e e' =
    let took : or_same hidden (absorb_first books hidden op shown) ≡ first =
      ap (or_same hidden) e in
    let took' : or_same shown (absorb_first books shown op first) ≡ second =
      ap (or_same shown) e' in
    ap (λ h. publish (append h op)) v ∙ rw (took, publish) (rw took' refl)

abbrev pub handles : LeftRight books
handles = record {
  WriteHandle = Handle;
  new = record { is_first = true; shown = empty; hidden = empty; waiting = [] };
  append = append;
  publish = publish;
  read = λ w. w.shown;
  Copies = λ w shown hidden. w ≡ settled shown hidden;
  read-Copies = λ w shown hidden e. ap (λ h. h.shown) e;
  publish-first = λ op book e. ap (λ b. settled b (sync_with books empty b)) (ap (or_same empty) e);
  publish-append = publish-append_settled;
}

-- A reader of one update for each symbol, of its length.
abbrev pub documents : DepthJson books
documents = record {
  envelope = λ t. none;
  bare = λ t. some (record { symbol = t; last_update_id = 7; level = 1 });
  null_response = λ t. none;
}

abbrev mux : MonitorMultiplexor Handle
mux = record { writers = (codes "BTC", from_snapshot books documents handles texts (at 3)) ∷ [] }

abbrev frames : List Text
frames = codes "BTC" ∷ codes "ETH" ∷ codes "BTC" ∷ []

lookup-ingest_messages_example :
    lookup
      (codes "BTC")
      (ingest_messages texts (order_book books documents handles texts) mux frames).writers
    ≡ handled texts
        (order_book books documents handles texts)
        (lookup (codes "BTC") mux.writers)
        (updates_of texts (order_book books documents handles texts) (codes "BTC") frames)
lookup-ingest_messages_example =
    lookup-ingest_messages texts (order_book books documents handles texts) (codes "BTC") mux frames

btc_is_there :
    lookup (codes "BTC") mux.writers ≡ some (from_snapshot books documents handles texts (at 3))
unfolding lookup text_eq
btc_is_there = refl

update_id-ingest_messages_example :
    (w : Handle) × (lookup
        (codes "BTC")
        (ingest_messages texts (order_book books documents handles texts) mux frames).writers
      ≡ some w)
    × (w.shown.update_id
        ≡ sequence books handles documents texts 3
            (updates_of texts (order_book books documents handles texts) (codes "BTC") frames))
update_id-ingest_messages_example =
    update_id-ingest_messages books handles documents texts mux (codes "BTC") (at 3) frames
      btc_is_there
