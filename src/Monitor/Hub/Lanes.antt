-- ===== src/Monitor/Hub/Lanes.antt =====
-- The hub's invariant: lanes, cells and the registry's handles.
use trolly.Prelude.{
  ℕ, ◌+◌, ◌<◌, Text, text_Eq, text_eq, text_eq_iff, to_uppercase, ◌≡◌, ◌≢◌, refl, ◌∙◌, Option, none,
  some, List, [], ◌∷◌, ◌++◌, HashMap, lookup, insert, lookup-insert, length, length-append,
  Option-cases, Bool-cases, inl, inr, arith,
}
use trolly.Monitor.Lob.{Lob}
use trolly.Monitor.Hub.{
  BookHandle, merged, GlobalBookHub, merged_swap_for, published, publish_serve_instrument,
  or_default, ensure_lane, add_source, register_factory,
}

module _ (lob : Lob) (upper : ℕ → Text) (Factory : Type 0) where
  abbrev pub Hub : Type 0
  Hub = GlobalBookHub lob upper Factory

  abbrev pub handle_of : Option ℕ → Option (BookHandle Factory)
  handle_of none = none
  handle_of (some a) = some (merged a)

  -- What the invariant says of the lanes and the cells alone.
  pub record Lanes (lanes : HashMap Text ℕ) (n : ℕ) : Type 0 where
    pub bound : (k : Text) (a : ℕ) → lookup k lanes ≡ some a → a < n
    pub apart : (j k : Text) (a : ℕ) → lookup j lanes ≡ some a → lookup k lanes ≡ some a → j ≡ k

  insert-Lanes :
      (lanes : HashMap Text ℕ) (n : ℕ) (key : Text)
      → Lanes lanes n
      → lookup key lanes ≡ none
      → Lanes (insert key n lanes) (n + 1)
  insert-Lanes lanes n key v e = record {
    bound = λ k a h. ground (arith, lookup-insert k key n lanes, v.bound k a, text_eq_iff key k);
    apart = λ j k a h h'. ground (
      arith,
      lookup-insert k key n lanes,
      lookup-insert j key n lanes,
      v.bound k a,
      v.bound j a,
      v.apart j k a,
      text_eq_iff key k,
      text_eq_iff key j,
    );
  }

  -- A new lane for a key that has none; the lanes that are there stay.
  pub record Lane (hub hub' : Hub) (key : Text) : Type 0 where
    pub factories : hub'.factories ≡ hub.factories
    pub sources : hub'.sources_by_instrument ≡ hub.sources_by_instrument
    pub serve : hub'.serve ≡ hub.serve
    pub lane : ℕ
    pub at_key : lookup key hub'.merged_by_instrument ≡ some lane
    pub lanes :
        Lanes hub.merged_by_instrument (length hub.cells)
        → Lanes hub'.merged_by_instrument (length hub'.cells)
    pub elsewhere :
        (k : Text)
        → key ≢ k
        → lookup k hub'.merged_by_instrument ≡ lookup k hub.merged_by_instrument

  pub ensure_lane-Lane :
      (hub : Hub) (key : Text) → Lane hub (ensure_lane lob upper Factory hub key) key
  unfolding ensure_lane
  ensure_lane-Lane hub key = elim (Option-cases (lookup key hub.merged_by_instrument)) [
    | inl vacant ↦
        rw (vacant, ensure_lane)
          (record {
            factories = refl;
            sources = refl;
            serve = refl;
            lane = length hub.cells;
            at_key =
                lookup-insert key key (length hub.cells) hub.merged_by_instrument
                ∙ ground (arith, text_eq_iff key key);
            lanes = λ v.
                rw (length-append hub.cells (lob.default ∷ []))
                  (insert-Lanes hub.merged_by_instrument (length hub.cells) key v vacant);
            elsewhere = λ k ne. ground (
              arith,
              lookup-insert k key (length hub.cells) hub.merged_by_instrument,
              text_eq_iff key k,
            );
          })
    | inr (a, e) ↦
        rw (e, ensure_lane)
          (record {
            factories = refl;
            sources = refl;
            serve = refl;
            lane = a;
            at_key = e;
            lanes = λ v. v;
            elsewhere = λ k ne. refl;
          })
  ]

  -- Lanes are cells of their own; an instrument with sources has a lane; and a registry holds the
  -- lanes, under their instruments, and nothing else.
  pub record IsWellFormed (hub : Hub) : Type 0 where
    pub lanes : Lanes hub.merged_by_instrument (length hub.cells)
    pub has_lane :
        (k : Text) (ids : List Text)
        → lookup k hub.sources_by_instrument ≡ some ids
        → lookup k hub.merged_by_instrument ≢ none
    pub served :
        (registry : HashMap Text (BookHandle Factory))
        → hub.serve ≡ some registry
        → (k : Text) → lookup k registry ≡ handle_of (lookup k hub.merged_by_instrument)

  published-served :
      (registry registry' : HashMap Text (BookHandle Factory)) (key k : Text) (lane : ℕ)
      (o : Option ℕ)
      → published lob upper Factory key (some registry) (some lane) ≡ some registry'
      → (key ≡ k → o ≡ some lane)
      → (key ≢ k → lookup k registry ≡ handle_of o)
      → lookup k registry' ≡ handle_of o
  published-served registry registry' key k lane o e here there =
      let entry = lookup-insert k key (merged lane) registry in
      elim (Bool-cases (text_eq key k)) [
        | inl same ↦ ground (arith, e, entry, here ((text_eq_iff key k).0 same))
        | inr differ ↦ ground (arith, e, entry, there (ground (arith, text_eq_iff key k)))
      ]

  -- A lane and its publication, after a source was added at the key.
  publish-IsWellFormed :
      (hub h : Hub) (id : Text) (f : Factory) (instrument : Text)
      → IsWellFormed hub
      → Lane
          (add_source lob upper Factory hub id f (to_uppercase upper instrument))
          h
          (to_uppercase upper instrument)
      → IsWellFormed (publish_serve_instrument lob upper Factory h instrument)
  unfolding publish_serve_instrument merged_swap_for add_source
  publish-IsWellFormed hub h id f instrument v l =
      let key = to_uppercase upper instrument in
      let ids = or_default lob upper Factory (lookup key hub.sources_by_instrument) ++ id ∷ [] in
      record {
        lanes = l.lanes v.lanes;
        has_lane = λ k ids' e.
            let entry = lookup-insert k key ids hub.sources_by_instrument in
            elim (Bool-cases (text_eq key k)) [
              | inl same ↦ ground (arith, (text_eq_iff key k).0 same, l.at_key)
              | inr differ ↦ ground (
                arith,
                v.has_lane k ids',
                l.sources,
                entry,
                e,
                l.elsewhere k (ground (arith, text_eq_iff key k)),
              )
            ];
        served = λ registry e k. elim (Option-cases hub.serve) [
          | inl closed ↦ absurd (ground (arith, l.serve, e))
          | inr (old, open_) ↦
              published-served old registry key k l.lane (lookup k h.merged_by_instrument)
                (ground (arith, l.serve, l.at_key)) (λ same. ground (arith, l.at_key))
                (λ differ. ground (arith, v.served old open_ k, l.elsewhere k differ))
        ];
      }

  -- `register_factory` keeps the invariant.
  pub register_factory-IsWellFormed :
      (hub : Hub) (id : Text) (f : Factory) (instrument : Text)
      → IsWellFormed hub
      → IsWellFormed (register_factory lob upper Factory hub id f instrument)
  unfolding register_factory
  register_factory-IsWellFormed hub id f instrument v =
      let key = to_uppercase upper instrument in
      let h1 = add_source lob upper Factory hub id f key in
      publish-IsWellFormed hub (ensure_lane lob upper Factory h1 key) id f instrument v
        (ensure_lane-Lane h1 key)
