-- ===== src/Monitor/Shard/Linked.antt =====
-- How the shards, their books and the hub belong together, and when the merged books are fresh.
use trolly.Prelude.{
  ℕ, Text, text_Eq, text_eq, text_eq_iff, to_uppercase, ◌≡◌, ◌≢◌, sym, ap, ◌∙◌, Option, none, some,
  List, [], ◌∷◌, HashMap, lookup, length, get_elem?, get_elem?-set_ne, set, Frames, Option-cases,
  Bool-cases, inl, inr, arith,
}
use trolly.Monitor.Lob.{Lob}
use trolly.Monitor.Source.{BookSource, stream_id, canonical_instrument}
use trolly.Monitor.Source.RoundTrip.{stream_id-canonical_instrument}
use trolly.Monitor.Hub.{
  BookHandle, GlobalBookHub, refresh_merged_for, factories_of, group_of, merge_group, get,
}
use trolly.Monitor.Hub.Lanes.{IsWellFormed}
use trolly.Monitor.Hub.Sources.{sources, group_of-lane}
use trolly.Monitor.Hub.Serving.{
  refresh-same, group_of-refresh, refresh_merged_for-IsWellFormed, get-refresh_merged_for,
  get-refresh_ne,
}
use trolly.Monitor.Hub.Reading.{All, All-map, get-upper, get-enter, merge_group-Agree}
use trolly.Monitor.Book.{LeftRight, DepthJson}
use trolly.Monitor.Shard.{GlobalBookShard, read_by, enter, shard_of}

abbrev instrument_at : Option GlobalBookShard → Text
instrument_at none = []
instrument_at (some shard) = shard.instrument

module _ (lob : Lob) (json : DepthJson lob) (lr : LeftRight lob) (ws : Frames)
    (upper : ℕ → Text) where
  abbrev pub Hub : Type 0
  Hub = GlobalBookHub lob upper ℕ

  abbrev pub Handles : Type 0
  Handles = List lr.WriteHandle

  -- The id is that of a source of the instrument.
  abbrev pub IsFor : Text → Text → Type 0
  IsFor key id =
      (source : BookSource) × (stream_id upper source ≡ id)
      × (to_uppercase upper (canonical_instrument upper source) ≡ key)

  -- The factory is that of a shard of the instrument.
  abbrev pub Feeds : List GlobalBookShard → Text → ℕ → Type 0
  Feeds shards key f =
      (source : BookSource) × (get_elem? shards f ≡ some (shard_of lob json lr ws upper f source))
      × (to_uppercase upper (canonical_instrument upper source) ≡ key)

  -- Shards, handles and the hub's factories belong together, and a registry is open.
  pub record IsLinked (hub : Hub) (handles : Handles) (shards : List GlobalBookShard) : Type 0 where
    pub well_formed : IsWellFormed lob upper ℕ hub
    pub registry : HashMap Text (BookHandle ℕ)
    pub served : hub.serve ≡ some registry
    pub counted : length shards ≡ length handles
    pub own :
        (i : ℕ) (shard : GlobalBookShard)
        → get_elem? shards i ≡ some shard
        → (source : BookSource) × (shard ≡ shard_of lob json lr ws upper i source)
    pub factory :
        (id : Text) (f : ℕ)
        → lookup id hub.factories ≡ some f
        → (source : BookSource) × (get_elem? shards f
            ≡ some (shard_of lob json lr ws upper f source))
          × (stream_id upper source ≡ id)
    pub sourced : (key : Text) → All (IsFor key) (sources lob upper ℕ hub key)

  -- The registry serves the merge of an instrument's books as they stand.
  abbrev pub IsFresh : Hub → Handles → Text → Type 0
  IsFresh hub handles pair =
      (f : ℕ) (fs : List ℕ)
      → group_of lob upper ℕ hub (to_uppercase upper pair) ≡ f ∷ fs
      → get lob upper ℕ (enter lob json lr ws upper handles) hub pair
        ≡ some (merge_group lob upper ℕ (enter lob json lr ws upper handles) (f ∷ fs))

  factories_of-Feeds :
      (hub : Hub) (handles : Handles) (shards : List GlobalBookShard) (key : Text) (ids : List Text)
      → IsLinked hub handles shards
      → All (IsFor key) ids
      → All (Feeds shards key) (factories_of lob upper ℕ hub ids)
  factories_of-Feeds hub handles shards key [] v a = tt
  factories_of-Feeds hub handles shards key (id ∷ ids) v a =
      let rest = factories_of-Feeds hub handles shards key ids v a.1 in
      let (source, named, at_key) = a.0 in
      elim (Option-cases (lookup id hub.factories)) [
        | inl n ↦ rw n rest
        | inr (f, found) ↦
            let (source', shard, named') = v.factory id f found in
            let same = stream_id-canonical_instrument upper source' source (named' ∙ sym named) in
            rw found ((source', shard, ap (to_uppercase upper) same ∙ at_key), rest)
      ]

  pub group_of-Feeds :
      (hub : Hub) (handles : Handles) (shards : List GlobalBookShard) (key : Text)
      → IsLinked hub handles shards
      → All (Feeds shards key) (group_of lob upper ℕ hub key)
  unfolding group_of
  group_of-Feeds hub handles shards key v =
      factories_of-Feeds hub handles shards key (sources lob upper ℕ hub key) v (v.sourced key)

  pub refresh-IsLinked :
      (hub : Hub) (handles : Handles) (shards : List GlobalBookShard) (instrument : Text)
      → IsLinked hub handles shards
      → IsLinked
          (refresh_merged_for lob upper ℕ (enter lob json lr ws upper handles) hub instrument)
          handles
          shards
  refresh-IsLinked hub handles shards instrument v =
      let read = enter lob json lr ws upper handles in
      let (factories, at, serve) = refresh-same lob upper ℕ read hub instrument in
      record {
        well_formed = refresh_merged_for-IsWellFormed lob upper ℕ read hub instrument v.well_formed;
        registry = v.registry;
        served = serve ∙ v.served;
        counted = v.counted;
        own = v.own;
        factory = λ id f e. v.factory id f (ap (lookup id) (sym factories) ∙ e);
        sourced = λ key. rw at (v.sourced key);
      }

  -- A refresh of the instrument whose books have changed makes all pairs fresh.
  pub refresh-IsFresh :
      (hub : Hub) (handles : Handles) (shards : List GlobalBookShard) (instrument : Text)
      → IsLinked hub handles shards
      → ((pair : Text)
          → to_uppercase upper instrument ≢ to_uppercase upper pair
          → IsFresh hub handles pair)
      → (pair : Text)
      → IsFresh
          (refresh_merged_for lob upper ℕ (enter lob json lr ws upper handles) hub instrument)
          handles
          pair
  unfolding group_of
  refresh-IsFresh hub handles shards instrument v others pair f fs g =
      let read = enter lob json lr ws upper handles in
      let key = to_uppercase upper instrument in
      let next = refresh_merged_for lob upper ℕ read hub instrument in
      let group : group_of lob upper ℕ hub (to_uppercase upper pair) ≡ f ∷ fs =
        sym (group_of-refresh lob upper ℕ read hub instrument (to_uppercase upper pair)) ∙ g in
      elim (Bool-cases (text_eq key (to_uppercase upper pair))) [
        | inl y ↦
            let same : key ≡ to_uppercase upper pair =
              (text_eq_iff key (to_uppercase upper pair)).0 y in
            let own_group = ap (group_of lob upper ℕ hub) same ∙ group in
            sym (get-upper lob upper ℕ read next instrument pair same)
            ∙ get-refresh_merged_for lob upper ℕ read hub v.registry instrument f fs v.well_formed
                v.served own_group (group_of-lane lob upper ℕ hub key f fs v.well_formed own_group)
        | inr n ↦
            let differ : key ≢ to_uppercase upper pair =
              ground (arith, text_eq_iff key (to_uppercase upper pair)) in
            get-refresh_ne lob upper ℕ read hub instrument pair v.well_formed differ
            ∙ others pair differ f fs group
      ]

  -- A book that changes, with the refresh of its instrument.
  pub change-IsFresh :
      (hub : Hub) (handles : Handles) (shards : List GlobalBookShard) (i : ℕ) (source : BookSource)
      (w : lr.WriteHandle)
      → IsLinked hub handles shards
      → get_elem? shards i ≡ some (shard_of lob json lr ws upper i source)
      → ((pair : Text) → IsFresh hub handles pair)
      → (pair : Text)
      → to_uppercase upper (canonical_instrument upper source) ≢ to_uppercase upper pair
      → IsFresh hub (set handles i w) pair
  unfolding shard_of
  change-IsFresh hub handles shards i source w v there fresh pair differ f fs g =
      let read = enter lob json lr ws upper handles in
      let read' = enter lob json lr ws upper (set handles i w) in
      let key = to_uppercase upper pair in
      let kept : (k : ℕ) → Feeds shards key k → read k ≡ read' k = λ k feeds.
        let (source', here, at) = feeds in
        let apart : i ≢ k = λ same. differ (
          ap (λ o. to_uppercase upper (instrument_at o))
            (sym there ∙ ap (get_elem? shards) same ∙ here)
          ∙ at) in
        ap (read_by lob json lr ws upper) (sym (get_elem?-set_ne handles i k w apart)) in
      let agree =
        All-map (Feeds shards key) (λ k. read k ≡ read' k) (f ∷ fs) kept
          (rw g at (group_of-Feeds hub handles shards key v)) in
      get-enter lob upper ℕ read' read hub v.registry pair v.well_formed v.served
      ∙ fresh pair f fs g
      ∙ ap some (merge_group-Agree lob upper ℕ read read' (f ∷ fs) agree)
