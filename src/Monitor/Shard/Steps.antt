-- ===== src/Monitor/Shard/Steps.antt =====
-- What can happen to the books of a hub, one step after another, and what the hub then serves.
use trolly.Prelude.{
  ℕ, Text, text_Eq, to_uppercase, ◌≡◌, refl, sym, ap, ◌∙◌, none, some, List, [], ◌∷◌, ◌++◌, Result,
  ok, err, HashMap, lookup, length, length-set, get_elem?, set, Frames, Option-cases, Result-cases,
  inl, inr, arith,
}
use trolly.Monitor.Lob.{Lob}
use trolly.Monitor.Source
use trolly.Monitor.Source.{Provider, BookSource, canonical_instrument, stream_id}
use trolly.Monitor.Hub
use trolly.Monitor.Hub.{with_serve_registry, register_factory, group_of, merge_group, get}
use trolly.Monitor.Hub.Sources.{with_serve_registry-IsWellFormed, opened_registry}
use trolly.Monitor.Book.{
  LeftRight, DepthJson, DepthError, update, parse_depth_message, from_snapshot,
}
use trolly.Monitor.Book
use trolly.Monitor.Shard.{
  GlobalBookShard, Books, enter, refreshed, shard_of, opened, build, handle_update, deliver,
  ingest_message,
}
use trolly.Monitor.Shard.Linked.{
  IsLinked, IsFresh, refresh-IsLinked, refresh-IsFresh, change-IsFresh,
}
use trolly.Monitor.Shard.Opening.{register-IsLinked, registered-IsFresh}

module _ (lob : Lob) (json : DepthJson lob) (lr : LeftRight lob) (ws : Frames)
    (upper : ℕ → Text) where
  -- The books, and the shards that were built.
  pub record World : Type 0 where
    pub books : Books lob json lr ws upper
    pub shards : List GlobalBookShard

  abbrev pub after :
      World → Books lob json lr ws upper × Result (Text × GlobalBookShard) DepthError → World
  after w (books, err e) = record { books = books; shards = w.shards }
  after w (books, ok (symbol, shard)) = record { books = books; shards = w.shards ++ shard ∷ [] }

  -- The shards of a multiplexor are among those that were built.
  abbrev AreBuilt : World → HashMap Text GlobalBookShard → Type 0
  AreBuilt w writers =
      (id : Text) (shard : GlobalBookShard)
      → lookup id writers ≡ some shard
      → get_elem? w.shards shard.book ≡ some shard

  -- A shard is built, or a message reaches the multiplexor of a stream.
  pub data Step (w : World) : World → Type 0 where
    built :
        (venue : Provider) (symbol : Text) (answer : Result lob.LimitOrderBook DepthError)
        → Step w (after w (build lob json lr ws upper w.books venue symbol answer))
    received :
        (writers : HashMap Text GlobalBookShard) (msg : ws.Message)
        → AreBuilt w writers
        → Step w (record w { books = ingest_message lob json lr ws upper w.books writers msg })

  pub data Reaches (w : World) : World → Type 0 where
    start : Reaches w w
    next : {u v : World} → Reaches w u → Step u v → Reaches w v

  -- A hub with an empty registry, before any shard is built.
  abbrev pub initial : World
  initial = record {
    books = record { hub = with_serve_registry lob upper ℕ []; handles = [] };
    shards = [];
  }

  abbrev IsServed : World → Type 0
  IsServed w =
      IsLinked lob json lr ws upper w.books.hub w.books.handles w.shards
      × ((pair : Text) → IsFresh lob json lr ws upper w.books.hub w.books.handles pair)

  initial-IsServed : IsServed initial
  unfolding with_serve_registry Hub.new group_of lookup
  initial-IsServed = (
    record {
      well_formed = with_serve_registry-IsWellFormed lob upper ℕ;
      registry = [];
      served = opened_registry lob upper ℕ [];
      counted = refl;
      own = λ i shard e. absurd (ground arith);
      factory = λ id f e. absurd (ground arith);
      sourced = λ key. tt;
    },
    λ pair f fs g. absurd (ground arith),
  )

  opened-IsServed :
      (w : World) (source : BookSource) (book : lob.LimitOrderBook)
      → IsServed w
      → IsServed (record {
        books = opened lob json lr ws upper w.books source book;
        shards = w.shards ++ shard_of lob json lr ws upper (length w.books.handles) source ∷ [];
      })
  unfolding opened refreshed
  opened-IsServed w source book (v, fresh) =
      let instrument = canonical_instrument upper source in
      let h = from_snapshot lob json lr ws book in
      let hub =
        register_factory lob upper ℕ w.books.hub (stream_id upper source) (length w.books.handles)
          instrument in
      let handles = w.books.handles ++ h ∷ [] in
      let shards = w.shards ++ shard_of lob json lr ws upper (length w.books.handles) source ∷ [] in
      let linked =
        register-IsLinked lob json lr ws upper w.books.hub w.books.handles w.shards source h v in
      (
        refresh-IsLinked lob json lr ws upper hub handles shards instrument linked,
        refresh-IsFresh lob json lr ws upper hub handles shards instrument linked (
            registered-IsFresh lob json lr ws upper w.books.hub w.books.handles w.shards source h v
              fresh),
      )

  -- A book that takes a write, with the refresh of its instrument.
  set-IsServed :
      (w : World) (shard : GlobalBookShard) (h : lr.WriteHandle)
      → get_elem? w.shards shard.book ≡ some shard
      → IsServed w
      → IsServed (record w {
        books =
            refreshed lob json lr ws upper w.books.hub
              (set w.books.handles shard.book h)
              shard.instrument;
      })
  unfolding refreshed shard_of
  set-IsServed w shard h there (v, fresh) =
      let hub = w.books.hub in
      let handles = set w.books.handles shard.book h in
      let (source, same) = v.own shard.book shard there in
      let at : shard.instrument ≡ canonical_instrument upper source = ap (λ s. s.instrument) same in
      let linked : IsLinked lob json lr ws upper hub handles w.shards = record {
        well_formed = v.well_formed;
        registry = v.registry;
        served = v.served;
        counted = v.counted ∙ sym (length-set w.books.handles shard.book h);
        own = v.own;
        factory = v.factory;
        sourced = v.sourced;
      } in
      rw at (
        refresh-IsLinked lob json lr ws upper hub handles w.shards
            (canonical_instrument upper source) linked,
        refresh-IsFresh lob json lr ws upper hub handles w.shards
            (canonical_instrument upper source) linked
            (change-IsFresh lob json lr ws upper hub w.books.handles w.shards shard.book source h v
              (there ∙ ap some same) fresh),
      )

  handle_update-IsServed :
      (w : World) (shard : GlobalBookShard) (u : lob.DepthUpdate)
      → get_elem? w.shards shard.book ≡ some shard
      → IsServed w
      → IsServed (record w { books = (handle_update lob json lr ws upper w.books shard u).0 })
  unfolding handle_update Book.handle_update
  handle_update-IsServed w shard u there s =
      elim (Option-cases (get_elem? w.books.handles shard.book)) [
        | inl n ↦ rw (n, handle_update) s
        | inr (h, at) ↦
            rw (at, handle_update)
              (set-IsServed w shard (lr.publish (lr.append h (update u))) there s)
      ]

  deliver-IsServed :
      (w : World) (writers : HashMap Text GlobalBookShard) (u : lob.DepthUpdate)
      → AreBuilt w writers
      → IsServed w
      → IsServed (record w { books = deliver lob json lr ws upper w.books writers u })
  deliver-IsServed w writers u are s = elim (Option-cases (lookup (lob.symbol u) writers)) [
    | inl n ↦ rw (n, deliver) s
    | inr (shard, at) ↦
        rw (at, deliver) (handle_update-IsServed w shard u (are (lob.symbol u) shard at) s)
  ]

  ingest_message-IsServed :
      (w : World) (writers : HashMap Text GlobalBookShard) (msg : ws.Message)
      → AreBuilt w writers
      → IsServed w
      → IsServed (record w { books = ingest_message lob json lr ws upper w.books writers msg })
  unfolding ingest_message
  ingest_message-IsServed w writers msg are s = elim (Option-cases (ws.as_text msg)) [
    | inl n ↦ rw (n, ingest_message) s
    | inr (text, e) ↦ elim (Result-cases (parse_depth_message lob json lr ws msg)) [
      | inl (none, p) ↦ rw (e, ingest_message) (rw (p, ingest_message) s)
      | inl (some u, p) ↦
          rw (e, ingest_message) (rw (p, ingest_message) (deliver-IsServed w writers u are s))
      | inr (x, p) ↦ rw (e, ingest_message) (rw (p, ingest_message) s)
    ]
  ]

  step-IsServed : {u w : World} → Step u w → IsServed u → IsServed w
  unfolding build
  step-IsServed {u} (built venue symbol (err e)) s = s
  step-IsServed {u} (built venue symbol (ok book)) s =
      opened-IsServed u (Source.new upper venue symbol) book s
  step-IsServed {u} (received writers msg are) s = ingest_message-IsServed u writers msg are s

  reaches-IsServed : {u w : World} → Reaches u w → IsServed u → IsServed w
  reaches-IsServed start s = s
  reaches-IsServed (next r step) s = step-IsServed step (reaches-IsServed r s)

  -- From a hub with an empty registry, whatever shards are built, whatever snapshots or errors
  -- they get, and whatever messages reach the streams' multiplexors, in any order: the registry
  -- serves for each pair with a source the merge of its sources' books as they stand.
  pub get-Reaches :
      (w : World) (pair : Text) (f : ℕ) (fs : List ℕ)
      → Reaches initial w
      → group_of lob upper ℕ w.books.hub (to_uppercase upper pair) ≡ f ∷ fs
      → get lob upper ℕ (enter lob json lr ws upper w.books.handles) w.books.hub pair
        ≡ some (merge_group lob upper ℕ (enter lob json lr ws upper w.books.handles) (f ∷ fs))
  get-Reaches w pair f fs r g = (reaches-IsServed r initial-IsServed).1 pair f fs g
