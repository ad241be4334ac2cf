-- ===== src/Monitor/Shard/Opening.antt =====
-- A shard that is added: its registration, its snapshot and the refresh of its instrument.
use trolly.Prelude.{
  ℕ, Text, text_Eq, text_eq, text_eq_iff, to_uppercase, ◌≡◌, ◌≢◌, refl, sym, ap, ◌∙◌, some, List,
  [], ◌∷◌, ◌++◌, append-nil, if◌then◌else◌, ◌==◌, lookup, lookup-insert, length, length-append,
  get_elem?, get_elem?-append_lt, get_elem?-append_last, get_elem?-append_cases, get_elem?-bound,
  Frames, Bool-cases, inl, inr, arith,
}
use trolly.Monitor.Lob.{Lob}
use trolly.Monitor.Source.{BookSource, stream_id, canonical_instrument}
use trolly.Monitor.Source.RoundTrip.{stream_id-canonical_instrument}
use trolly.Monitor.Hub.{register_factory, factories_of, group_of}
use trolly.Monitor.Hub.Lanes.{register_factory-IsWellFormed}
use trolly.Monitor.Hub.Sources.{sources, register-factories, register-sources, register-serve}
use trolly.Monitor.Hub.Reading.{
  All, All-append, All-map, get-enter, get-register_ne, merge_group-Agree,
}
use trolly.Monitor.Book.{LeftRight, DepthJson}
use trolly.Monitor.Shard.{GlobalBookShard, read_by, enter, shard_of}
use trolly.Monitor.Shard.Linked.{Hub, Handles, IsFor, Feeds, IsLinked, IsFresh, group_of-Feeds}

module _ (lob : Lob) (json : DepthJson lob) (lr : LeftRight lob) (ws : Frames)
    (upper : ℕ → Text) where
  module _ (hub : Hub lob json lr ws upper) (handles : Handles lob json lr ws upper)
      (shards : List GlobalBookShard) (source : BookSource) (w : lr.WriteHandle)
      (v : IsLinked lob json lr ws upper hub handles shards) where
    abbrev n : ℕ
    n = length handles

    abbrev id : Text
    id = stream_id upper source

    abbrev shard : GlobalBookShard
    shard = shard_of lob json lr ws upper n source

    abbrev registered : Hub lob json lr ws upper
    registered = register_factory lob upper ℕ hub id n (canonical_instrument upper source)

    -- The shards that were there stay.
    earlier :
        (i : ℕ) (s : GlobalBookShard)
        → get_elem? shards i ≡ some s
        → get_elem? (shards ++ shard ∷ []) i ≡ some s
    earlier i s e = get_elem?-append_lt shards (shard ∷ []) i (get_elem?-bound shards i s e) ∙ e

    newest : get_elem? (shards ++ shard ∷ []) n ≡ some shard
    newest =
        ap (get_elem? (shards ++ shard ∷ [])) (sym v.counted) ∙ get_elem?-append_last shards shard

    registered-factory :
        (id' : Text) (f : ℕ)
        → lookup id' registered.factories ≡ some f
        → (source' : BookSource) × (get_elem? (shards ++ shard ∷ []) f
            ≡ some (shard_of lob json lr ws upper f source'))
          × (stream_id upper source' ≡ id')
    registered-factory id' f e =
        let e' : (if id == id' then some n else lookup id' hub.factories) ≡ some f =
          sym (lookup-insert id' id n hub.factories)
          ∙ ap (lookup id')
              (sym (register-factories lob upper ℕ hub id n (canonical_instrument upper source)))
          ∙ e in
        elim (Bool-cases (text_eq id id')) [
          | inl y ↦
              let same : n ≡ f = ground arith in
              (
                source,
                ap (get_elem? (shards ++ shard ∷ [])) (sym same)
                    ∙ newest
                    ∙ ap (λ k. some (shard_of lob json lr ws upper k source)) same,
                (text_eq_iff id id').0 y,
              )
          | inr differ ↦
              let found : lookup id' hub.factories ≡ some f = ground arith in
              let (source', there, named) = v.factory id' f found in
              (source', earlier f (shard_of lob json lr ws upper f source') there, named)
        ]

    registered-sourced :
        (key : Text) → All (IsFor lob json lr ws upper key) (sources lob upper ℕ registered key)
    registered-sourced key =
        let at = to_uppercase upper (canonical_instrument upper source) in
        let added : All (IsFor lob json lr ws upper key) (if at == key then id ∷ [] else []) =
          elim (Bool-cases (text_eq at key)) [
            | inl y ↦ rw y ((source, refl, (text_eq_iff at key).0 y), tt)
            | inr differ ↦ rw differ tt
          ] in
        rw (register-sources lob upper ℕ hub id n (canonical_instrument upper source) key) (
          All-append (IsFor lob json lr ws upper key) (sources lob upper ℕ hub key)
            (if at == key then id ∷ [] else []) (v.sourced key) added)

    pub register-IsLinked :
        IsLinked lob json lr ws upper registered (handles ++ w ∷ []) (shards ++ shard ∷ [])
    register-IsLinked =
        let (registry, served) =
          register-serve lob upper ℕ hub v.registry id n (canonical_instrument upper source)
            v.served in
        record {
          well_formed =
              register_factory-IsWellFormed lob upper ℕ hub id n (canonical_instrument upper source)
                v.well_formed;
          registry = registry;
          served = served;
          counted =
              ground (
                arith,
                length-append shards (shard ∷ []),
                length-append handles (w ∷ []),
                v.counted,
              );
          own = λ i s e. elim (get_elem?-append_cases shards shard s i e) [
            | inl h ↦ v.own i s h
            | inr (h, k) ↦
                (source, k ∙ ap (λ m. shard_of lob json lr ws upper m source) (sym (h ∙ v.counted)))
          ];
          factory = registered-factory;
          sourced = registered-sourced;
        }

    -- The ids of another instrument are not the new one.
    factories_of-registered :
        (key : Text) (ids : List Text)
        → to_uppercase upper (canonical_instrument upper source) ≢ key
        → All (IsFor lob json lr ws upper key) ids
        → factories_of lob upper ℕ registered ids ≡ factories_of lob upper ℕ hub ids
    factories_of-registered key [] ne a = refl
    factories_of-registered key (id' ∷ ids) ne a =
        let (source', named, at) = a.0 in
        let apart : id ≢ id' = λ same. ne (
          ap (to_uppercase upper)
            (stream_id-canonical_instrument upper source source' (same ∙ sym named))
          ∙ at) in
        let kept : lookup id' registered.factories ≡ lookup id' hub.factories =
          ap (lookup id')
            (register-factories lob upper ℕ hub id n (canonical_instrument upper source))
          ∙ ground (arith, lookup-insert id' id n hub.factories, text_eq_iff id id') in
        rw kept (rw (factories_of-registered key ids ne a.1) refl)

    group_of-registered :
        (key : Text)
        → to_uppercase upper (canonical_instrument upper source) ≢ key
        → group_of lob upper ℕ registered key ≡ group_of lob upper ℕ hub key
    unfolding group_of
    group_of-registered key ne =
        let at = to_uppercase upper (canonical_instrument upper source) in
        let same : sources lob upper ℕ registered key ≡ sources lob upper ℕ hub key =
          register-sources lob upper ℕ hub id n (canonical_instrument upper source) key
          ∙ ground (arith, text_eq_iff at key, append-nil (sources lob upper ℕ hub key)) in
        rw same (factories_of-registered key (sources lob upper ℕ hub key) ne (v.sourced key))

    pub registered-IsFresh :
        ((pair : Text) → IsFresh lob json lr ws upper hub handles pair)
        → (pair : Text)
        → to_uppercase upper (canonical_instrument upper source) ≢ to_uppercase upper pair
        → IsFresh lob json lr ws upper registered (handles ++ w ∷ []) pair
    registered-IsFresh fresh pair differ f fs g =
        let read = enter lob json lr ws upper handles in
        let read' = enter lob json lr ws upper (handles ++ w ∷ []) in
        let key = to_uppercase upper pair in
        let group = sym (group_of-registered key differ) ∙ g in
        let kept : (k : ℕ) → Feeds lob json lr ws upper shards key k → read k ≡ read' k = λ k feeds.
          let (source', here, at) = feeds in
          let bound = get_elem?-bound shards k (shard_of lob json lr ws upper k source') here in
          ap (read_by lob json lr ws upper)
            (sym (get_elem?-append_lt handles (w ∷ []) k (omega (arith, bound, v.counted)))) in
        let agree =
          All-map (Feeds lob json lr ws upper shards key) (λ k. read k ≡ read' k) (f ∷ fs) kept
            (rw group at (group_of-Feeds lob json lr ws upper hub handles shards key v)) in
        get-register_ne lob upper ℕ read' hub v.registry id n (canonical_instrument upper source)
          pair v.well_formed v.served differ
        ∙ get-enter lob upper ℕ read' read hub v.registry pair v.well_formed v.served
        ∙ fresh pair f fs group
        ∙ ap some (merge_group-Agree lob upper ℕ read read' (f ∷ fs) agree)
